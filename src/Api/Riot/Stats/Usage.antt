-- ===== src/Api/Riot/Stats/Usage.antt =====
-- How often a profile of api/riot.py says that a champion was used.
use tft_stats_analytics.Base.{
  ℕ, ◌+◌, String, ◌≡◌, Bool, List, [], ◌∷◌, arith, if◌then◌else◌, any_of,
}
use tft_stats_analytics.Base.Count.{count, bit}
use tft_stats_analytics.Base.Dict.{
  get_or, get_or-insert, member, add_key, member-add_key, string_eq,
}
use tft_stats_analytics.Base.Float.{Float}
use tft_stats_analytics.Api.Riot.Units.{UnitView}
use tft_stats_analytics.Api.Riot.Match.{MatchView}
use tft_stats_analytics.Api.Riot.Stats.{Used, count_use, use_units, use_matches, no_use}

module _ (fl : Float) (c : String) where
  abbrev pub uses : UnitView → Bool
  uses u = string_eq.beq u.champion c

  games-use_units :
      (placement : ℕ) (us : List UnitView) (seen : List String) (used : Used fl)
      → get_or 0 c (use_units fl placement us seen used).games
        ≡ get_or 0 c used.games + (if member c seen then 0 else bit (any_of uses us))
  unfolding use_units count_use
  games-use_units placement [] seen used = ground arith
  games-use_units placement (u ∷ us) seen used = ground (
    arith,
    games-use_units placement us seen used,
    games-use_units placement us (add_key u.champion seen) (count_use fl placement u used),
    string_eq.beq_iff u.champion c,
    member-add_key u.champion c seen,
    get_or-insert 0 u.champion c (get_or 0 u.champion used.games + 1) used.games,
  )

  abbrev pub shows : MatchView → Bool
  shows m = any_of uses m.units

  games-use_matches :
      (matches : List MatchView) (used : Used fl)
      → get_or 0 c (use_matches fl matches used).games ≡ get_or 0 c used.games + count shows matches
  unfolding use_matches
  games-use_matches [] used = ground arith
  games-use_matches (m ∷ matches) used =
      let one = games-use_units m.placement m.units [] used in
      let rest = games-use_matches matches (use_units fl m.placement m.units [] used) in
      omega (arith, one, rest)

-- A champion's games in the usage table of a profile are the matches whose board shows the champion,
-- however many copies the board has.
pub use_matches-eq-count :
    (fl : Float) (c : String) (matches : List MatchView)
    → get_or 0 c (use_matches fl matches (no_use fl)).games ≡ count (shows fl c) matches
unfolding get_or
use_matches-eq-count fl c matches = omega (arith, games-use_matches fl c matches (no_use fl))
