-- ===== src/Processor/Service/Clocks.antt =====
-- The vector clocks that processor/main.py stamps on its statistics.
use tft_stats_analytics.Base.{ℕ, ◌≤◌, ◌<◌, String, ◌≡◌, [], ◌∷◌, arith, eq_iff, ltb, if◌then◌else◌}
use tft_stats_analytics.Base.Dict.{get_or, get_or-insert, insert, string_eq}
use tft_stats_analytics.Base.Float.{Float}
use tft_stats_analytics.Base.NumPy.{NumPy}
use tft_stats_analytics.Proto.{VectorClock}
use tft_stats_analytics.Processor.Service.{Processor, merge_clock}

abbrev pub component : VectorClock → String → ℕ
component clock node = get_or 0 node clock

-- Merging a clock lowers no component.
pub merge_clock_mono :
    (c m : VectorClock) (node : String) → component m node ≤ component (merge_clock c m) node
unfolding merge_clock
merge_clock_mono [] m node = omega arith
merge_clock_mono ((n, s) ∷ c) m node = ground (
  arith,
  merge_clock_mono c (if ltb (get_or 0 n m) s then insert n s m else m) node,
  get_or-insert 0 n node s m,
  eq_iff n node,
)

-- What a later state keeps: the name, the flush counter or a greater one, and a merged clock that is
-- nowhere lower.
record Ascends (p q : Processor) : Type 0 where
  name : q.node_id ≡ p.node_id
  flushes : p.flush_seq ≤ q.flush_seq
  merged : (node : String) → component p.merged_clock node ≤ component q.merged_clock node

-- The second clock is above the first in every component, and strictly so in the node's own.
abbrev pub Supersedes : String → VectorClock → VectorClock → Type 0
Supersedes own c d =
    ((node : String) → component c node ≤ component d node) × (component c own < component d own)
