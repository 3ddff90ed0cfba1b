-- ===== src/Api/Riot/Profile/Kept.antt =====
-- What a lookup of api/riot.py leaves of the known ids and of the rank histories.
use tft_stats_analytics.Base.{
  ℕ, String, ◌≡◌, refl, Bool, true, false, not, Option, none, some, List, [], arith, str_eq, ◌<>◌,
  ◌==◌, ◌∙◌, Bool-cases, inl, inr,
}
use tft_stats_analytics.Base.Dict.{get_or, get_or-insert, member, member-add_key, string_eq}
use tft_stats_analytics.Base.Float.{Float}
use tft_stats_analytics.Base.Result.{Result, ok, err}
use tft_stats_analytics.Base.Text.{all_chars}
use tft_stats_analytics.RiotPayload.{RawLeague, RawAccount}
use tft_stats_analytics.Api.Riot.Client.{Failure, Route, route}
use tft_stats_analytics.Api.Riot.Rank.{Rank, RankStore, record_rank}
use tft_stats_analytics.Api.Riot.Standing.{Python, ranked_entry, rank_from_league, is_text, or_else}
use tft_stats_analytics.Api.Riot.Profile.{
  Source, Known, register, rank_player, with_league, show_account, build_player_profile, display_id,
  with_puuid,
}

abbrev pub is_account : String → Result Failure (Option RawAccount) → Bool
is_account puuid (err e) = false
is_account puuid (ok none) = false
is_account puuid (ok (some a)) = is_text puuid a.puuid

-- Every id stays known, and the player's history is as it was.
pub record Keeps (other : String) (k k' : Known) : Type 0 where
  pub ids : (id : String) → member id k.ids ≡ true → member id k'.ids ≡ true
  pub history : get_or [] other k'.store ≡ get_or [] other k.store

record_rank-other :
    (today : ℕ) (puuid other : String) (rank : Rank) (store : RankStore)
    → str_eq puuid other ≡ false
    → get_or [] other (record_rank today puuid rank store).0 ≡ get_or [] other store
unfolding record_rank
record_rank-other today puuid other rank store differs =
    elim (Bool-cases (str_eq rank.tier "UNRANKED")) [
      | inl e ↦ rw e refl
      | inr e ↦ rw e (get_or-insert [] puuid other _ store ∙ rw differs refl)
    ]

register-Keeps : (other riot_id : String) (k : Known) → Keeps other k (register riot_id k)
unfolding register
register-Keeps other riot_id k = elim (Bool-cases (all_chars (λ c. not (c == b'#')) riot_id)) [
  | inl e ↦ rw e (record { ids = λ id h. h; history = refl })
  | inr e ↦
      rw e
        (record { ids = λ id h. ground (arith, member-add_key riot_id id k.ids); history = refl })
]

pub Keeps-refl : (other : String) (k : Known) → Keeps other k k
Keeps-refl other k = record { ids = λ id h. h; history = refl }

module _ (fl : Float) (py : Python) (source : Source) (today : ℕ) (other : String) where
  rank_player-Keeps :
      (display game_name tag puuid : String) (to : Route) (league : List RawLeague) (k : Known)
      → str_eq puuid other ≡ false
      → Keeps other k (rank_player fl py source today display game_name tag puuid to league k).0
  unfolding rank_player
  rank_player-Keeps display game_name tag puuid to league k differs = record {
    ids = λ id h. h;
    history =
        record_rank-other today puuid other (rank_from_league py (ranked_entry league)) k.store
          differs;
  }

  found-Keeps :
      (display game_name tag puuid : String) (to : Route) (k : Known)
      (league : Result Failure (List RawLeague))
      → str_eq puuid other ≡ false
      → Keeps other k
          (with_league fl py source today league
            (register (game_name <> ("#" <> tag)) k)
            (rank_player fl py source today display game_name tag puuid to)).0
  found-Keeps display game_name tag puuid to k (err e) differs =
      register-Keeps other (game_name <> ("#" <> tag)) k
  found-Keeps display game_name tag puuid to k (ok league) differs =
      let known : Known = register (game_name <> ("#" <> tag)) k in
      let first : Keeps other k known = register-Keeps other (game_name <> ("#" <> tag)) k in
      let second = rank_player-Keeps display game_name tag puuid to league known differs in
      record {
        ids = λ id h. second.ids id (first.ids id h);
        history = second.history ∙ first.history;
      }

  with_puuid-Keeps :
      (display game_name tag : String) (to : Route) (puuid : Option String) (k : Known)
      → is_text other puuid ≡ false
      → Keeps other k (with_puuid fl py source today display game_name tag to puuid k).0
  unfolding with_puuid
  with_puuid-Keeps display game_name tag to none k differs = Keeps-refl other k
  with_puuid-Keeps display game_name tag to (some puuid) k differs =
      found-Keeps display game_name tag puuid to k (source.league puuid to.0) differs

  show_account-Keeps :
      (display game_name tag : String) (to : Route) (answer : Result Failure (Option RawAccount))
      (k : Known)
      → is_account other answer ≡ false
      → Keeps other k (show_account fl py source today display game_name tag to answer k).0
  unfolding show_account
  show_account-Keeps display game_name tag to (err e) k differs = Keeps-refl other k
  show_account-Keeps display game_name tag to (ok none) k differs = Keeps-refl other k
  show_account-Keeps display game_name tag to (ok (some acct)) k differs =
      with_puuid-Keeps display (or_else game_name acct.game_name) (or_else tag acct.tag_line) to
        acct.puuid k differs

  -- A lookup, whether it returns or raises, forgets no known id, and leaves the rank history of every
  -- player but the one that Riot names as it was.
  pub build_player_profile-Keeps :
      (game_name tag : String) (k : Known)
      → is_account other (source.account game_name tag) ≡ false
      → Keeps other k (build_player_profile fl py source today game_name tag k).0
  unfolding build_player_profile
  build_player_profile-Keeps game_name tag k differs =
      show_account-Keeps (display_id fl py source today game_name tag) game_name tag
        (route py.upper tag) (source.account game_name tag) k differs
