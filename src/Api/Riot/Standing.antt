-- ===== src/Api/Riot/Standing.antt =====
-- The rank that a profile of api/riot.py shows: `_rank_from_league`, and the peak of the history.
-- Python's operations on Unicode text are parameters.
use tft_stats_analytics.Base.{
  ℕ, String, ◌<>◌, Bool, false, Option, none, some, List, [], ◌∷◌, ltb, str_eq, if◌then◌else◌,
}
use tft_stats_analytics.Base.Dict.{member, string_eq}
use tft_stats_analytics.Base.Order.{down_order, nat_order}
use tft_stats_analytics.RiotPayload.{RawLeague}
use tft_stats_analytics.Api.Riot.Rank.{Rank, Snapshot}

-- Digits, case and the text of numbers and dates.
pub record Python : Type 0 where
  pub is_digit : ℕ → Bool
  pub is_space : ℕ → Bool
  pub lower : String → String
  pub upper : String → String
  pub title : String → String
  pub decimal : ℕ → String
  pub date_of : ℕ → String

abbrev pub or_else : {A : Type 0} → A → Option A → A
or_else default none = default
or_else default (some a) = a

abbrev pub is_text : String → Option String → Bool
is_text s none = false
is_text s (some t) = str_eq t s

-- `ranked`: the first entry of the ranked queue.
unfoldable pub ranked_entry : List RawLeague → Option RawLeague
ranked_entry [] = none
ranked_entry (e ∷ es) =
    let rest = ranked_entry es in if is_text "RANKED_TFT" e.queue_type then some e else rest

-- `_APEX`
abbrev pub apex : List String
apex = "MASTER" ∷ "GRANDMASTER" ∷ "CHALLENGER" ∷ []

-- `_rank_from_league`
unfoldable pub rank_from_league : Python → Option RawLeague → Rank
unfolding member
rank_from_league py none = record {
  tier = "UNRANKED";
  division = "";
  lp = 0;
  label = "Unranked";
  wins = 0;
  losses = 0;
}
rank_from_league py (some e) =
    let tier = or_else "UNRANKED" e.tier in
    let division = or_else "" e.rank in
    let points = " · " <> (py.decimal (or_else 0 e.league_points) <> " LP") in
    let is_apex = member tier apex in
    record {
      tier = tier;
      division = if is_apex then "" else division;
      lp = or_else 0 e.league_points;
      label =
          if is_apex
          then py.title tier <> points
          else py.title tier <> (" " <> (division <> points));
      wins = or_else 0 e.wins;
      losses = or_else 0 e.losses;
    }

-- `max(rank_history, key=…)`: the first of the highest ratings.
unfoldable pub higher : Snapshot → Snapshot → Snapshot
higher best h = if ltb best.rating h.rating then h else best

unfoldable pub highest : Snapshot → List Snapshot → Snapshot
unfolding higher
highest best [] = best
highest best (h ∷ hist) = highest (higher best h) hist

-- The two shapes of `peak_rank`.
pub data PeakRank : Type 0 where
  peak : String → String → PeakRank
  present : Rank → PeakRank

unfoldable pub peak_rank : Rank → List Snapshot → PeakRank
unfolding highest
peak_rank rank [] = present rank
peak_rank rank (h ∷ hist) = peak (highest h hist).tier (highest h hist).label
