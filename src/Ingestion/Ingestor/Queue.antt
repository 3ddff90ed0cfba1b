-- ===== src/Ingestion/Ingestor/Queue.antt =====
-- The order in which a round of `Ingestor.run` in ingestion/main.py serves its tasks. The loop that
-- fills the priority queue does not wait, so no worker takes a task before all are there, and the
-- queue, which returns a least item, serves them in ascending order.
use tft_stats_analytics.Base.{ℕ, String, ◌≡◌, true, List, [], ◌∷◌, ◌++◌, All, arith, leb}
use tft_stats_analytics.Base.Count.{SameItems}
use tft_stats_analytics.Base.Dict.{get_or, string_eq}
use tft_stats_analytics.Base.Order.{nat_order, str_order, pair_order, str_leq}
use tft_stats_analytics.Base.Sort.{sort_by, sort_by-SameItems, sort_by-IsSorted, IsSorted}
use tft_stats_analytics.TftData.{tier_rank}

-- `(priority, region, tier)`
abbrev pub Task : Type 0
Task = ℕ × (String × String)

unfoldable pub region_tasks : String → List String → List Task
unfolding get_or tier_rank
region_tasks region [] = []
region_tasks region (tier ∷ tiers) =
    (get_or 99 tier tier_rank, (region, tier)) ∷ region_tasks region tiers

-- The two loops that fill the queue.
unfoldable pub round_tasks : List String → List String → List Task
unfolding region_tasks
round_tasks [] tiers = []
round_tasks (region ∷ regions) tiers = region_tasks region tiers ++ round_tasks regions tiers

unfoldable pub serve_order : List String → List String → List Task
unfolding round_tasks sort_by str_leq
serve_order regions tiers = sort_by (λ t. t) (round_tasks regions tiers)

by_rank : (tasks : List Task) → IsSorted (λ t. t) tasks → IsSorted (λ (t : Task). t.0) tasks
by_rank [] h = tt
by_rank (t ∷ tasks) h = (ranks t tasks h.0, by_rank tasks h.1)
  where
    ranks :
        (t : Task) (ts : List Task)
        → All (λ u. pair_order.leq t u ≡ true) ts
        → All (λ u. leb t.0 u.0 ≡ true) ts
    ranks t [] a = tt
    ranks t (u ∷ us) a = (ground arith, ranks t us a.1)

-- A round serves each region and tier as often as they are configured, and in ascending tier rank, the
-- highest tier first.
pub serve_order-IsSorted :
    (regions tiers : List String)
    → SameItems (serve_order regions tiers) (round_tasks regions tiers)
      × IsSorted (λ (t : Task). t.0) (serve_order regions tiers)
unfolding serve_order
serve_order-IsSorted regions tiers = (
  sort_by-SameItems (λ t. t) (round_tasks regions tiers),
  by_rank (sort_by (λ t. t) (round_tasks regions tiers))
      (sort_by-IsSorted (λ t. t) (round_tasks regions tiers)),
)
