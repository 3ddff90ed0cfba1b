-- ===== src/Api/Riot/Profile/Listed.antt =====
-- What a profile of api/riot.py with matches shows.
use tft_stats_analytics.Base.{
  ℕ, ◌≤◌, ◌<◌, String, ◌≡◌, refl, subst, ◌<>◌, Option, none, some, List, [], ◌∷◌, arith, All,
  length, ltb, ◌∙◌, Bool-cases, inl, inr,
}
use tft_stats_analytics.Base.Float.{Float}
use tft_stats_analytics.Base.Order.{Down, down_order, nat_order}
use tft_stats_analytics.Base.Result.{Result, ok, err, >>=-eq-ok}
use tft_stats_analytics.Base.Sort.{sort_by, IsSorted, sort_by-IsSorted, length-sort_by}
use tft_stats_analytics.RiotPayload.{RawLeague, RawAccount}
use tft_stats_analytics.Api.Riot.Client.{Failure, Route, route, page_size}
use tft_stats_analytics.Api.Riot.Match.{MatchView}
use tft_stats_analytics.Api.Riot.Rank.{Rank, Snapshot, record_rank}
use tft_stats_analytics.Api.Riot.Stats.{Stats, stats_of}
use tft_stats_analytics.Api.Riot.Stats.Counts.{IsConsistent, stats_of-IsConsistent}
use tft_stats_analytics.Api.Riot.Standing.{
  Python, PeakRank, peak, present, higher, highest, peak_rank, ranked_entry, rank_from_league,
  or_else,
}
use tft_stats_analytics.Api.Riot.Profile.{
  Source, Known, Heading, Profile, full, no_matches, not_found, fetch_matches, show_profile,
  rank_player, with_league, with_puuid, show_account, build_player_profile, display_id, Stopped,
  register, from_riot, season_games,
}
use mathlib.Core.List.{Memᴰ}

higher-ge :
    (best h : Snapshot)
    → (best.rating ≤ (higher best h).rating) × (h.rating ≤ (higher best h).rating)
unfolding higher
higher-ge best h = ground arith

higher-mem :
    (best h : Snapshot) {a : Snapshot} {hist : List Snapshot}
    → Memᴰ a (higher best h ∷ hist)
    → Memᴰ a (best ∷ h ∷ hist)
unfolding higher
higher-mem best h {a = a} (Memᴰ.tail m) = Memᴰ.tail (Memᴰ.tail m)
higher-mem best h {a = a} (Memᴰ.head q) = elim (Bool-cases (ltb best.rating h.rating)) [
  | inl e ↦ Memᴰ.tail (Memᴰ.head (q ∙ rw e refl))
  | inr e ↦ Memᴰ.head (q ∙ rw e refl)
]

highest-ge : (best : Snapshot) (hist : List Snapshot) → best.rating ≤ (highest best hist).rating
unfolding highest
highest-ge best [] = omega arith
highest-ge best (h ∷ hist) = omega (arith, higher-ge best h, highest-ge (higher best h) hist)

highest-upper :
    (best : Snapshot) (hist : List Snapshot) → All (λ h. h.rating ≤ (highest best hist).rating) hist
unfolding highest
highest-upper best [] = tt
highest-upper best (h ∷ hist) = (
  omega (arith, higher-ge best h, highest-ge (higher best h) hist),
  highest-upper (higher best h) hist,
)

highest-mem : (best : Snapshot) (hist : List Snapshot) → Memᴰ (highest best hist) (best ∷ hist)
unfolding highest
highest-mem best [] = Memᴰ.head refl
highest-mem best (h ∷ hist) = higher-mem best h (highest-mem (higher best h) hist)

-- The peak is an entry of the history, none of which is rated higher, or the present rank where there
-- is no entry.
abbrev pub IsPeak : Rank → List Snapshot → PeakRank → Type 0
IsPeak rank [] p = p ≡ present rank
IsPeak rank (h ∷ hist) p =
    (best : Snapshot) × Memᴰ best (h ∷ hist)
    × All (λ e. e.rating ≤ best.rating) (h ∷ hist)
    × (p ≡ peak best.tier best.label)

peak_rank-IsPeak : (rank : Rank) (hist : List Snapshot) → IsPeak rank hist (peak_rank rank hist)
unfolding peak_rank
peak_rank-IsPeak rank [] = refl
peak_rank-IsPeak rank (h ∷ hist) =
    (highest h hist, highest-mem h hist, (highest-ge h hist, highest-upper h hist), refl)

module _ (fl : Float) where
  -- A profile with its statistics.
  pub record IsListed (heading : Heading) (s : Stats fl) (matches : List MatchView) : Type 0 where
    pub recent_first : IsSorted {K = Down ℕ} (λ v. record { value = v.timestamp }) matches
    pub some_matches : 0 < length matches
    pub sampled : s.sample ≡ length matches
    pub consistent : IsConsistent fl s
    pub peak : IsPeak heading.current_rank heading.rank_history heading.peak

  abbrev pub IsShown : Profile fl → Type 0
  IsShown (not_found display) = Unit
  IsShown (no_matches h) = IsPeak h.current_rank h.rank_history h.peak
  IsShown (full h s matches) = IsListed h s matches

module _ (fl : Float) (py : Python) (source : Source) (today : ℕ) where
  show_profile-IsShown :
      (ranked : Option RawLeague) (h : Heading) (matches : List MatchView)
      → IsPeak h.current_rank h.rank_history h.peak
      → IsShown fl (show_profile fl py source today ranked h matches)
  unfolding show_profile stats_of
  show_profile-IsShown ranked h [] best = best
  show_profile-IsShown ranked h (m ∷ ms) best =
      let by_time = λ (v : MatchView). let d : Down ℕ = record { value = v.timestamp } in d in
      let sorted : List MatchView = sort_by {K = Down ℕ} by_time (m ∷ ms) in
      record {
        recent_first = sort_by-IsSorted {K = Down ℕ} by_time (m ∷ ms);
        some_matches = omega (arith, length-sort_by {K = Down ℕ} by_time (m ∷ ms));
        sampled = refl;
        consistent =
            stats_of-IsConsistent fl py.is_digit
              (season_games ranked h.current_rank (length sorted)) h.current_rank.wins
              h.current_rank.losses sorted;
        peak = best;
      }

  IsShown-ok :
      {p q : Profile fl}
      → ◌≡◌ {A = Result Stopped (Profile fl)} (ok q) (ok p)
      → IsShown fl q
      → IsShown fl p
  IsShown-ok {p = p} {q = q} e h = let same : q ≡ p = cc in subst (IsShown fl) same h

  rank_player-IsShown :
      (display game_name tag puuid : String) (to : Route) (league : List RawLeague) (k : Known)
      (p : Profile fl)
      → (rank_player fl py source today display game_name tag puuid to league k).1 ≡ ok p
      → IsShown fl p
  unfolding rank_player
  rank_player-IsShown display game_name tag puuid to league k p e =
      let (ids, _, rest) =
        >>=-eq-ok (from_riot (source.match_ids puuid to.1.1 (page_size 20))) _ e in
      let (matches, _, last) =
        >>=-eq-ok (fetch_matches fl py source today puuid to.1.1 ids) _ rest in
      let rank : Rank = rank_from_league py (ranked_entry league) in
      IsShown-ok last (
        show_profile-IsShown (ranked_entry league) _ matches
          (peak_rank-IsPeak rank (record_rank today puuid rank k.store).1))

  with_puuid-IsShown :
      (display game_name tag : String) (to : Route) (puuid : Option String) (k : Known)
      (p : Profile fl)
      → (with_puuid fl py source today display game_name tag to puuid k).1 ≡ ok p
      → IsShown fl p
  unfolding with_puuid
  with_puuid-IsShown display game_name tag to none k p e = IsShown-ok e tt
  with_puuid-IsShown display game_name tag to (some puuid) k p e = go (source.league puuid to.0) e
    where
      go :
          (league : Result Failure (List RawLeague))
          → (with_league fl py source today league
              (register (game_name <> ("#" <> tag)) k)
              (rank_player fl py source today display game_name tag puuid to)).1
            ≡ ok p
          → IsShown fl p
      go (err f) q = absurd (cc)
      go (ok league) q =
          rank_player-IsShown display game_name tag puuid to league
            (register (game_name <> ("#" <> tag)) k) p q

  show_account-IsShown :
      (display game_name tag : String) (to : Route) (answer : Result Failure (Option RawAccount))
      (k : Known) (p : Profile fl)
      → (show_account fl py source today display game_name tag to answer k).1 ≡ ok p
      → IsShown fl p
  unfolding show_account
  show_account-IsShown display game_name tag to (err f) k p e = absurd (cc)
  show_account-IsShown display game_name tag to (ok none) k p e = IsShown-ok e tt
  show_account-IsShown display game_name tag to (ok (some acct)) k p e =
      with_puuid-IsShown display (or_else game_name acct.game_name) (or_else tag acct.tag_line) to
        acct.puuid k p e

  -- A profile that a lookup returns with matches lists at least one, the most recent first; its
  -- sample is their number, and its counts are consistent. In it and in a profile without matches the
  -- peak is an entry of the rank history, none of which is rated higher, or the present rank where
  -- the history is empty.
  pub build_player_profile-IsShown :
      (game_name tag : String) (k : Known) (p : Profile fl)
      → (build_player_profile fl py source today game_name tag k).1 ≡ ok p
      → IsShown fl p
  unfolding build_player_profile
  build_player_profile-IsShown game_name tag k p e =
      show_account-IsShown (display_id fl py source today game_name tag) game_name tag
        (route py.upper tag) (source.account game_name tag) k p e
