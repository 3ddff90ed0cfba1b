-- ===== src/Api/Riot/Stats.antt =====
-- The aggregates that `build_player_profile` of api/riot.py computes of the shown matches, the most
-- recent first.
pub mod Counts
pub mod Usage
use tft_stats_analytics.Base.{
  ℕ, zero, suc, ◌+◌, ◌-◌, ◌*◌, max, min, String, Bool, ◌&&◌, Option, none, some, List, [], ◌∷◌,
  ◌++◌, map, ltb, leb, ◌==◌, if◌then◌else◌, take, length, sum_of,
}
use tft_stats_analytics.Base.Count.{count}
use tft_stats_analytics.Base.Dict.{get_or, insert, member, add_key, string_eq, nat_eq}
use tft_stats_analytics.Base.Float.{Float}
use tft_stats_analytics.Base.Order.{Down, down_order, nat_order}
use tft_stats_analytics.Base.Sort.{sort_by}
use tft_stats_analytics.TftData.Icons.{champion_icons}
use tft_stats_analytics.Api.Riot.Units.{UnitView}
use tft_stats_analytics.Api.Riot.Match.{MatchView, strip_set}

-- `dist[i] += 1`
unfoldable pub bump : ℕ → List ℕ → List ℕ
bump i [] = []
bump zero (x ∷ xs) = (x + 1) ∷ xs
bump (suc i) (x ∷ xs) = x ∷ bump i xs

-- The loop that fills `dist`.
unfoldable pub distribute : List ℕ → List ℕ → List ℕ
unfolding bump
distribute [] dist = dist
distribute (p ∷ places) dist = distribute places (bump (min 8 (max 1 p) - 1) dist)

-- `[0] * 8`
abbrev pub empty_dist : List ℕ
empty_dist = 0 ∷ 0 ∷ 0 ∷ 0 ∷ 0 ∷ 0 ∷ 0 ∷ 0 ∷ []

abbrev pub places_of : List MatchView → List ℕ
places_of matches = map (λ m. m.placement) matches

abbrev pub top4_of : List ℕ → ℕ
top4_of places = count (λ p. leb p 4) places

abbrev pub firsts_of : List ℕ → ℕ
firsts_of places = count (λ p. p == 1) places

-- The loop with the `break`.
unfoldable pub streak_of : List ℕ → ℕ
streak_of [] = 0
streak_of (p ∷ places) = let rest = streak_of places in if leb p 4 then suc rest else 0

-- `star_gold.get(star, 1)`
abbrev pub star_gold : List (ℕ × ℕ)
star_gold = (1, 1) ∷ (2, 3) ∷ (3, 9) ∷ []

abbrev pub all_units : List MatchView → List UnitView
all_units [] = []
all_units (m ∷ matches) = m.units ++ all_units matches

unfoldable pub unit_gold : UnitView → ℕ
unfolding get_or
unit_gold u = u.cost * get_or 1 u.star star_gold

-- `carry_count`, for the units of one match and of all
unfoldable pub count_carry : List UnitView → List (String × ℕ) → List (String × ℕ)
unfolding insert get_or
count_carry [] counts = counts
count_carry (u ∷ us) counts = count_carry us (
    if u.carry && leb 4 u.cost
    then insert u.champion (get_or 0 u.champion counts + 1) counts
    else counts)

-- `max(d, key=d.get)`: the first of the keys with the greatest value.
unfoldable pub max_key : String × ℕ → List (String × ℕ) → String
max_key best [] = best.0
max_key best (e ∷ es) = max_key (if ltb best.1 e.1 then e else best) es

abbrev pub top_key : List (String × ℕ) → Option String
top_key [] = none
top_key (e ∷ es) = some (max_key e es)

pub record TopCarry : Type 0 where
  pub champion : String
  pub icon : String
  pub name : String

unfoldable pub top_carry : (ℕ → Bool) → List MatchView → Option TopCarry
unfolding count_carry max_key strip_set get_or champion_icons
top_carry is_digit matches = elim (top_key (count_carry (all_units matches) [])) [
  | none ↦ none
  | some cid ↦ some (record {
    champion = cid;
    icon = get_or "" cid champion_icons;
    name = strip_set is_digit "_" 1 cid;
  })
]

module _ (fl : Float) where
  open fl use {F, of_nat, add, mul, div, round}

  -- `cg` and `cp`: in how many matches a champion was used, and the sum of their placements.
  pub record Used : Type 0 where
    pub games : List (String × ℕ)
    pub placements : List (String × F)

  -- The two assignments for a champion that is new in the match.
  unfoldable pub count_use : ℕ → UnitView → Used → Used
  unfolding insert get_or
  count_use placement u used = record {
    games = insert u.champion (get_or 0 u.champion used.games + 1) used.games;
    placements =
        insert u.champion (add (get_or (of_nat 0) u.champion used.placements) (of_nat placement))
          used.placements;
  }

  -- The loop over the units of a match, with the set `seen`.
  unfoldable pub use_units : ℕ → List UnitView → List String → Used → Used
  unfolding count_use member add_key
  use_units placement [] seen used = used
  use_units placement (u ∷ us) seen used =
      let again = use_units placement us seen used in
      let fresh = use_units placement us (add_key u.champion seen) (count_use placement u used) in
      if member u.champion seen then again else fresh

  unfoldable pub use_matches : List MatchView → Used → Used
  unfolding use_units
  use_matches [] used = used
  use_matches (m ∷ matches) used = use_matches matches (use_units m.placement m.units [] used)

  abbrev pub no_use : Used
  no_use = record { games = []; placements = [] }

  pub record Played : Type 0 where
    pub champion : String
    pub games : ℕ
    pub your_avg_placement : F

  -- `most_played`
  unfoldable pub most_played : List MatchView → List Played
  unfolding use_matches sort_by get_or
  most_played matches =
      let used = use_matches matches no_use in
      take 6 (
        sort_by {K = Down ℕ} (λ r. record { value = r.games })
          (map
            (λ e. record {
              champion = e.0;
              games = e.1;
              your_avg_placement =
                  round (div (get_or (of_nat 0) e.0 used.placements) (of_nat e.1)) 2;
            })
            used.games))

  abbrev pub ratio : ℕ → ℕ → F
  ratio k n = div (of_nat k) (of_nat n)

  pub record Stats : Type 0 where
    pub games : ℕ
    pub sample : ℕ
    pub avg_placement : F
    pub win_rate : F
    pub top4_rate : F
    pub firsts : ℕ
    pub top4 : ℕ
    pub top4_pct : F
    pub won_pct : F
    pub avg_level : F
    pub avg_team_cost : F
    pub avg_star_level : F
    pub wins : ℕ
    pub losses : ℕ
    pub distribution : List ℕ
    pub streak : ℕ
    pub played : List Played
    pub carry : Option TopCarry

  -- The returned dict from `stats` on; `season` is `games_season`.
  unfoldable pub stats_of : (ℕ → Bool) → ℕ → ℕ → ℕ → List MatchView → Stats
  unfolding distribute streak_of unit_gold most_played top_carry
  stats_of is_digit season wins losses matches =
      let places = places_of matches in
      let n = length matches in
      let units = all_units matches in
      record {
        games = season;
        sample = n;
        avg_placement = round (ratio (sum_of (λ p. p) places) n) 2;
        win_rate = round (ratio (firsts_of places) n) 4;
        top4_rate = round (ratio (top4_of places) n) 4;
        firsts = firsts_of places;
        top4 = top4_of places;
        top4_pct = round (mul (ratio (top4_of places) n) (of_nat 100)) 1;
        won_pct = round (mul (ratio (firsts_of places) n) (of_nat 100)) 1;
        avg_level = round (ratio (sum_of (λ m. m.level) matches) n) 2;
        avg_team_cost = round (ratio (sum_of unit_gold units) n) 1;
        avg_star_level = round (ratio (sum_of (λ u. u.star) units) (max 1 (length units))) 2;
        wins = wins;
        losses = losses;
        distribution = distribute places empty_dist;
        streak = streak_of places;
        played = most_played matches;
        carry = top_carry is_digit matches;
      }
