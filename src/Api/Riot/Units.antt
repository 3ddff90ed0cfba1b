-- ===== src/Api/Riot/Units.antt =====
-- The units of a shown match, as `_parse_match` of api/riot.py makes them: the cost, the carries and
-- the order on the board.
pub mod Board
use tft_stats_analytics.Base.{
  ℕ, zero, suc, ◌+◌, String, Bool, ◌&&◌, Option, none, some, List, [], ◌∷◌, map, leb, take,
}
use tft_stats_analytics.Base.Dict.{get_or, lookup, member, string_eq, nat_eq}
use tft_stats_analytics.Base.Order.{Down, down_order, nat_order, str_order, pair_order, str_leq}
use tft_stats_analytics.Base.Sort.{sort_by}
use tft_stats_analytics.Base.Result.{Field, missing, null, given, field_or}
use tft_stats_analytics.RiotPayload.{RawUnit}
use tft_stats_analytics.TftData.Champions.{champion_cost}
use tft_stats_analytics.TftData.BuilderItems.{builder_items}

-- `_RARITY_COST`
abbrev pub rarity_cost : List (ℕ × ℕ)
rarity_cost = (0, 1) ∷ (1, 2) ∷ (2, 3) ∷ (3, 4) ∷ (4, 4) ∷ (5, 5) ∷ (6, 5) ∷ (7, 6) ∷ []

-- `_ITEM_ICON` and `_ITEM_NAME`
unfoldable pub item_icon : List (String × String)
unfolding builder_items
item_icon = map (λ i. (i.item_id, i.icon)) builder_items

unfoldable pub item_name : List (String × String)
unfolding builder_items
item_name = map (λ i. (i.item_id, i.name)) builder_items

pub record ItemView : Type 0 where
  pub name : String
  pub icon : String

pub record UnitView : Type 0 where
  pub champion : String
  pub icon : String
  pub cost : ℕ
  pub star : ℕ
  pub items : List ItemView
  pub carry : Bool

abbrev pub cost_or_rarity : Option ℕ → Field ℕ → ℕ
cost_or_rarity (some (suc c)) rarity = suc c
cost_or_rarity cost null = 1
cost_or_rarity cost rarity = get_or 1 (field_or 0 rarity) rarity_cost

-- `_unit_cost`; a null rarity is no key of the table
unfoldable pub unit_cost : RawUnit → ℕ
unfolding lookup champion_cost
unit_cost u = cost_or_rarity (lookup (field_or "" u.character_id) champion_cost) u.rarity

-- The places of a list, from one on.
unfoldable pub indexed : {A : Type 0} → ℕ → List A → List (ℕ × A)
indexed i [] = []
indexed i (x ∷ xs) = (i, x) ∷ indexed (i + 1) xs

-- `carry_ids`: the two places of the highest costs, the first ones of equal costs.
unfoldable pub carry_ids : List UnitView → List ℕ
unfolding sort_by indexed
carry_ids units =
    map (λ u. u.0)
      (take 2 (sort_by {K = Down ℕ} (λ u. record { value = u.1.cost }) (indexed 0 units)))

unfoldable pub mark_carries : List ℕ → List (ℕ × UnitView) → List UnitView
unfolding member
mark_carries carries [] = []
mark_carries carries ((i, u) ∷ units) =
    record u { carry = member i carries && leb 3 u.cost } ∷ mark_carries carries units

-- The units with their carries, by cost and champion.
unfoldable pub arrange : List UnitView → List UnitView
unfolding carry_ids mark_carries indexed sort_by str_leq
arrange units =
    sort_by {K = ℕ × String} (λ u. (u.cost, u.champion))
      (mark_carries (carry_ids units) (indexed 0 units))
