-- ===== src/Tests/Queries.antt =====
-- The queries of api/service.py on three entries of one champion.
use tft_stats_analytics.Base.{
  ◌≤◌, String, ◌≡◌, refl, Bool, true, List, [], ◌∷◌, All, length, str_eq, sum_of,
}
use tft_stats_analytics.Base.Count.{count}
use tft_stats_analytics.Base.Sort.{IsSorted}
use tft_stats_analytics.Base.Dict.{string_eq, get_or, insert}
use tft_stats_analytics.Base.Fixed.{fixed}
use tft_stats_analytics.Proto.{StatEntry}
use tft_stats_analytics.Api.Service.{
  Row, key_order, aggregate_by_entity, get_entity, found, row_of, rows_of, group_by, decorate,
}
use tft_stats_analytics.Api.Service.Groups.{aggregate_by_entity_conserves}
use tft_stats_analytics.Base.Order.{nat_order, str_order}
use tft_stats_analytics.Base.Order.{down_order}
use tft_stats_analytics.Api.Service.Gap.{rank_gap, abs}
use tft_stats_analytics.Api.Service.Gap.Ranked.{IsGap, rank_gap-IsRanked}
use tft_stats_analytics.Api.Service.Pairs.{Heatmap, champion_item_pairs}
use tft_stats_analytics.Api.Service.Pairs.Grid.{IsCell, champion_item_pairs-IsGrid}
use tft_stats_analytics.Tests.Samples.{rate_entry}

abbrev entries : List (StatEntry fixed.F)
entries = rate_entry "GOLD" 150 ∷ rate_entry "SILVER" 90 ∷ rate_entry "GOLD" 30 ∷ []

abbrev any_entity : String → Bool
any_entity entity_id = true

aggregate_by_entity_conserves_example :
    (sum_of (λ r. r.sample_size) (aggregate_by_entity fixed entries) ≡ 270)
    × (count (λ r. str_eq r.entity_id "TFT_Ahri") (aggregate_by_entity fixed entries) ≤ 1)
aggregate_by_entity_conserves_example =
    aggregate_by_entity_conserves fixed any_entity "TFT_Ahri" entries

-- The row of the champion's entries.
abbrev champion_row : Row fixed.F
champion_row =
    row_of fixed "TFT_Ahri" (rate_entry "GOLD" 150)
      (rate_entry "SILVER" 90 ∷ rate_entry "GOLD" 30 ∷ [])

found_row : get_entity fixed "champion" "TFT_Ahri" "" "" entries ≡ found champion_row
unfolding get_entity aggregate_by_entity rows_of row_of group_by insert get_or decorate
found_row = refl

abbrev by_rank : List (StatEntry fixed.F)
by_rank = rate_entry "MASTER" 300 ∷ rate_entry "GOLD" 250 ∷ rate_entry "SILVER" 90 ∷ []

abbrev walk : List String → List String
walk ids = ids

gap_found : length (rank_gap fixed walk 20 by_rank) ≡ 1
unfolding rank_gap
gap_found = refl

rank_gap-IsRanked_example :
    (length (rank_gap fixed walk 20 by_rank) ≤ 20)
    × IsSorted ⦃o = down_order ⦃o = fixed.order⦄⦄
        (λ r. record { value = abs fixed r.gap })
        (rank_gap fixed walk 20 by_rank)
    × All (IsGap fixed by_rank) (rank_gap fixed walk 20 by_rank)
rank_gap-IsRanked_example = rank_gap-IsRanked fixed walk 20 by_rank

abbrev pair_entries : List (StatEntry fixed.F)
pair_entries = record (rate_entry "GOLD" 250) { entity_id = "TFT_Ahri|Guinsoo" } ∷ []

abbrev grid : Heatmap fixed.F
grid = champion_item_pairs fixed "GOLD" 14 12 pair_entries

cell_found : length grid.cells ≡ 1
unfolding champion_item_pairs
cell_found = refl

champion_item_pairs-IsGrid_example :
    (length grid.champions ≤ 14)
    × (length grid.items ≤ 12)
    × (length grid.cells ≤ 168)
    × All (IsCell grid.champions grid.items) grid.cells
champion_item_pairs-IsGrid_example = champion_item_pairs-IsGrid fixed "GOLD" 14 12 pair_entries
