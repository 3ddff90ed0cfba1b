-- ===== src/Processor/Aggregator/Label.antt =====
-- `composition_label` of processor/aggregator.py.
use tft_stats_analytics.Base.{
  ℕ, String, ◌<>◌, ◌&&◌, List, [], ◌∷◌, ltb, leb, if◌then◌else◌, length, keep_if,
}
use tft_stats_analytics.Base.Dict.{get_or, string_eq}
use tft_stats_analytics.Base.Order.{nat_order, str_order, pair_order, pair_leq, str_leq}
use tft_stats_analytics.Proto.{BoardUnit}
use tft_stats_analytics.TftData.Champions.{champion_cost}

-- `td.CHAMPION_COST.get(u.character_id, 0)`
unfoldable pub cost_of : BoardUnit → ℕ
unfolding get_or champion_cost
cost_of u = get_or 0 u.character_id champion_cost

-- The key of `max`.
unfoldable pub carry_key : BoardUnit → ℕ × (ℕ × String)
unfolding cost_of
carry_key u = (length u.items, (cost_of u, u.character_id))

-- `max(u :: us, key=…)`: the first of the units with the greatest key.
unfoldable pub max_from : BoardUnit → List BoardUnit → BoardUnit
unfolding carry_key str_leq
max_from best [] = best
max_from best (u ∷ us) = max_from (if pair_leq (carry_key u) (carry_key best) then best else u) us

unfoldable pub fives : List BoardUnit → ℕ
unfolding cost_of
fives units = length (keep_if (λ u. leb 5 (cost_of u)) units)

unfoldable pub composition_base : BoardUnit → ℕ → String
composition_base carry five_costs =
    if ltb (length carry.items) 2 && leb 3 five_costs then "Fast9" else carry.character_id

unfoldable pub composition_label : List BoardUnit → String
unfolding max_from fives composition_base
composition_label [] = "comp:Unknown"
composition_label (u ∷ us) = "comp:" <> composition_base (max_from u us) (fives (u ∷ us))
