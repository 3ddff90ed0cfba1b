-- ===== src/TftData/Check.antt =====
-- The tables of common/tft_data.py agree with one another: what the services look up is there.
use tft_stats_analytics.Base.{
  String, ◌≡◌, refl, Bool, true, false, ◌&&◌, none, some, List, [], ◌∷◌, leb,
}
use tft_stats_analytics.Base.Dict.{lookup, member, string_eq}
use tft_stats_analytics.TftData.Champions.{champion_cost}
use tft_stats_analytics.TftData.Comps.{Comp, comps}

-- Every item of the list passes the test.
abbrev pub all_of {ℓ} : {A : Type ℓ} → (A → Bool) → List A → Bool
all_of p [] = true
all_of p (x ∷ xs) = p x && all_of p xs

-- The carry, if there is one, stands among the units.
abbrev pub carry_listed : Comp → Bool
carry_listed c = elim c.carry [ none ↦ true | some u ↦ member u c.units ]

-- The champion's cost is known and is between 1 and 5.
abbrev pub cost_in_range : String → Bool
cost_in_range u = elim (lookup u champion_cost) [ none ↦ false | some n ↦ leb 1 n && leb n 5 ]

abbrev pub comp_ok : Comp → Bool
comp_ok c = carry_listed c && all_of cost_in_range c.units

comps_ok : all_of comp_ok comps ≡ true
unfolding comps member lookup champion_cost
comps_ok = refl
