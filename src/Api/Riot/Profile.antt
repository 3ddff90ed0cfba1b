-- ===== src/Api/Riot/Profile.antt =====
-- `build_player_profile` of api/riot.py, with `register`. The ids that are
-- known and the rank histories are state, which a later exception does not undo. What Riot answers,
-- Python's operations on Unicode text and the dates are parameters.
pub mod Kept
pub mod Listed
use tft_stats_analytics.Base.{
  ℕ, ◌+◌, String, ◌<>◌, not, Option, none, some, List, [], ◌∷◌, ◌==◌, str_eq, if◌then◌else◌, length,
}
use tft_stats_analytics.Base.Dict.{add_key, string_eq}
use tft_stats_analytics.Base.Float.{Float}
use tft_stats_analytics.Base.Order.{Down, down_order, nat_order}
use tft_stats_analytics.Base.Result.{Result, ok, err, missing, ◌>>=◌}
use tft_stats_analytics.Base.Sort.{sort_by}
use tft_stats_analytics.Base.Text.{all_chars, drop_end}
use tft_stats_analytics.RiotPayload.{RawLeague, RawAccount, RawMatch}
use tft_stats_analytics.Api.Riot.Client.{Failure, Route, route, page_size}
use tft_stats_analytics.Api.Riot.Match.{NoneError, none_error, MatchView, parse_match}
use tft_stats_analytics.Api.Riot.Rank.{Rank, Snapshot, RankStore, record_rank}
use tft_stats_analytics.Api.Riot.Standing.{
  Python, or_else, ranked_entry, rank_from_league, PeakRank, peak, peak_rank,
}
use tft_stats_analytics.Api.Riot.Stats.{Stats, stats_of}

-- What the calls of the client return or raise, `or []` and the clamped count included; `now` is the
-- time in milliseconds at which a match is parsed.
pub record Source : Type 0 where
  pub account : String → String → Result Failure (Option RawAccount)
  pub league : String → String → Result Failure (List RawLeague)
  pub match_ids : String → String → ℕ → Result Failure (List String)
  pub match : String → String → Result Failure (Option RawMatch)
  pub now : String → ℕ

-- `_KNOWN_IDS` and the history file.
pub record Known : Type 0 where
  pub ids : List String
  pub store : RankStore

-- `register`
unfoldable pub register : String → Known → Known
unfolding add_key
register riot_id k =
    if all_chars (λ c. not (c == b'#')) riot_id then k else record k { ids = add_key riot_id k.ids }

-- The keys that both profiles of a player who is found have.
pub record Heading : Type 0 where
  pub summoner_name : String
  pub game_name : String
  pub tag_line : String
  pub region : String
  pub current_rank : Rank
  pub rank_history : List Snapshot
  pub peak : PeakRank

-- What ends the function before its time.
pub data Stopped : Type 0 where
  riot : Failure → Stopped
  on_none : Stopped

abbrev pub from_riot : {A : Type 0} → Result Failure A → Result Stopped A
from_riot (ok a) = ok a
from_riot (err e) = err (riot e)

abbrev pub from_parser : {A : Type 0} → Result NoneError A → Result Stopped A
from_parser (ok a) = ok a
from_parser (err none_error) = err on_none

abbrev pub match_or_empty : Option RawMatch → RawMatch
match_or_empty none = record { info = missing; metadata = missing }
match_or_empty (some raw) = raw

abbrev pub append_some : Option MatchView → List MatchView → List MatchView
append_some none views = views
append_some (some v) views = v ∷ views

-- `wins + losses`, or the number of matches without a ranked entry
abbrev pub season_games : Option RawLeague → Rank → ℕ → ℕ
season_games none rank n = n
season_games (some e) rank n = rank.wins + rank.losses

module _ (fl : Float) where
  pub data Profile : Type 0 where
    not_found : String → Profile
    no_matches : Heading → Profile
    full : Heading → Stats fl → List MatchView → Profile

module _ (fl : Float) (py : Python) (source : Source) (today : ℕ) where
  -- The loop over the match ids.
  unfoldable pub fetch_matches : String → String → List String → Result Stopped (List MatchView)
  unfolding parse_match
  fetch_matches puuid cluster [] = ok []
  fetch_matches puuid cluster (id ∷ ids) = do
    raw ← from_riot (source.match id cluster)
    view ←
        from_parser
          (parse_match py.is_digit py.lower py.date_of (match_or_empty raw) puuid (source.now id))
    views ← fetch_matches puuid cluster ids
    ok (append_some view views)

  -- The sort and the aggregates.
  unfoldable pub show_profile : Option RawLeague → Heading → List MatchView → Profile fl
  unfolding sort_by stats_of
  show_profile ranked heading [] = no_matches heading
  show_profile ranked heading (m ∷ ms) =
      let rank = heading.current_rank in
      let matches : List MatchView =
        sort_by {K = Down ℕ} (λ v. record { value = v.timestamp }) (m ∷ ms) in
      full heading
        (stats_of fl py.is_digit (season_games ranked rank (length matches)) rank.wins rank.losses
          matches)
        matches

  -- `region`; a tag does not end in a line feed
  unfoldable pub region_of : String → String
  unfolding drop_end
  region_of tag =
      let region = py.upper (drop_end py.is_digit tag) in if str_eq region "" then "NA" else region

  abbrev pub display_id : String → String → String
  display_id game_name tag = if str_eq tag "" then game_name else game_name <> ("#" <> tag)

  -- From the league on.
  unfoldable pub rank_player :
      String
      → String
      → String
      → String
      → Route
      → List RawLeague
      → Known
      → Known × Result Stopped (Profile fl)
  unfolding ranked_entry rank_from_league record_rank peak_rank fetch_matches show_profile region_of
      page_size
  rank_player display game_name tag puuid to league k =
      let ranked = ranked_entry league in
      let rank = rank_from_league py ranked in
      let recorded = record_rank today puuid rank k.store in
      let heading : Heading = record {
        summoner_name = display;
        game_name = game_name;
        tag_line = tag;
        region = region_of tag;
        current_rank = rank;
        rank_history = recorded.1;
        peak = peak_rank rank recorded.1;
      } in
      let cluster = to.1.1 in
      (
        record k { store = recorded.0 },
        (from_riot (source.match_ids puuid cluster (page_size 20)) >>= λ ids.
            fetch_matches puuid cluster ids >>= λ matches.
            ok (show_profile ranked heading matches)),
      )

  abbrev pub with_league :
      Result Failure (List RawLeague)
      → Known
      → (List RawLeague → Known → Known × Result Stopped (Profile fl))
      → Known × Result Stopped (Profile fl)
  with_league (ok league) k f = f league k
  with_league (err e) k f = (k, err (riot e))

  -- From the account on.
  unfoldable pub with_puuid :
      String → String → String → Route → Option String → Known → Known × Result Stopped (Profile fl)
  unfolding register rank_player
  with_puuid display game_name tag to none k = (k, ok (not_found display))
  with_puuid display game_name tag to (some puuid) k =
      with_league (source.league puuid to.0) (register (game_name <> ("#" <> tag)) k)
        (rank_player display game_name tag puuid to)

  unfoldable pub show_account :
      String
      → String
      → String
      → Route
      → Result Failure (Option RawAccount)
      → Known
      → Known × Result Stopped (Profile fl)
  unfolding with_puuid
  show_account display game_name tag to (err e) k = (k, err (riot e))
  show_account display game_name tag to (ok none) k = (k, ok (not_found display))
  show_account display game_name tag to (ok (some acct)) k =
      with_puuid display (or_else game_name acct.game_name) (or_else tag acct.tag_line) to
        acct.puuid k

  -- `build_player_profile`
  unfoldable pub build_player_profile :
      String → String → Known → Known × Result Stopped (Profile fl)
  unfolding show_account route
  build_player_profile game_name tag k =
      show_account (display_id game_name tag) game_name tag (route py.upper tag)
        (source.account game_name tag) k
