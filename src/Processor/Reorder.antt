-- ===== src/Processor/Reorder.antt =====
-- processor/reorder.py: the causal reorder buffer. Times are ticks of one clock; `now - arrival >=
-- timeout` is written without a subtraction, so a clock that steps back behaves as in the source.
pub mod Watermark
pub mod Conserve
pub mod Held
pub mod Causal
pub mod Gaps
pub mod CatchUp
pub mod Waits
use tft_stats_analytics.Base.{
  ℕ, zero, suc, ◌+◌, String, Bool, true, false, not, ◌&&◌, ◌||◌, List, [], ◌∷◌, ◌++◌, ltb, leb,
  ◌==◌, if◌then◌else◌, length, sum_of,
}
use tft_stats_analytics.Base.Dict.{get_or, insert}
use tft_stats_analytics.Base.Heapq.{heappush, heapify}
use tft_stats_analytics.Base.Sort.{sort_by}
use tft_stats_analytics.Base.Order.{nat_order}
use tft_stats_analytics.Base.Dict.{string_eq}
use tft_stats_analytics.Proto.{VectorClock, MatchEvent}

unfoldable pub vc_sum : MatchEvent → ℕ
vc_sum event = sum_of (λ entry. entry.1) event.clock

-- An entry of `_heap`; the counter differs between entries, so a comparison of tuples never
-- reaches the arrival time.
pub record HeapItem : Type 0 where
  pub vc_total : ℕ
  pub counter : ℕ
  pub arrival : ℕ
  pub event : MatchEvent

unfoldable pub item_less : HeapItem → HeapItem → Bool
item_less a b = ltb a.vc_total b.vc_total || (a.vc_total == b.vc_total && ltb a.counter b.counter)

pub record ReorderBuffer : Type 0 where
  pub timeout : ℕ
  pub heap : List HeapItem
  pub counter : ℕ
  pub delivered : VectorClock
  pub forced : ℕ

unfoldable pub new_buffer : ℕ → ReorderBuffer
new_buffer timeout = record {
  timeout = timeout;
  heap = [];
  counter = 0;
  delivered = [];
  forced = 0;
}

unfoldable pub push : MatchEvent → ℕ → ReorderBuffer → ReorderBuffer
unfolding item_less heappush
push event now b = record b {
  heap =
      heappush item_less b.heap
        (record { vc_total = vc_sum event; counter = b.counter; arrival = now; event = event });
  counter = b.counter + 1;
}

-- `self.delivered[node]`: the watermark of a node, 0 where none is recorded.
abbrev pub watermark : VectorClock → String → ℕ
watermark delivered node = get_or 0 node delivered

unfoldable pub is_ready : VectorClock → VectorClock → Bool
is_ready delivered [] = true
is_ready delivered ((node, seq) ∷ clock) =
    let rest = is_ready delivered clock in
    if ltb (watermark delivered node + 1) seq then false else rest

-- The body of the loop in `_deliver`.
unfoldable pub raise : String → ℕ → VectorClock → VectorClock
unfolding insert get_or
raise node seq delivered =
    if ltb (watermark delivered node) seq then insert node seq delivered else delivered

unfoldable pub deliver : VectorClock → VectorClock → VectorClock
unfolding raise
deliver delivered [] = delivered
deliver delivered ((node, seq) ∷ clock) = deliver (raise node seq delivered) clock

unfoldable pub timed_out : ℕ → ℕ → HeapItem → Bool
timed_out now timeout item = leb (item.arrival + timeout) now

-- The variables of the loop in `pop_ready`; `heap` holds `keep` while a pass runs.
pub record Drain : Type 0 where
  pub delivered : VectorClock
  pub out : List MatchEvent
  pub forced : ℕ
  pub progressed : Bool
  pub heap : List HeapItem

-- The body of the `for`.
unfoldable pub scan_item : ℕ → ℕ → HeapItem → Drain → Drain
unfolding is_ready deliver timed_out
scan_item now timeout item d =
    if is_ready d.delivered item.event.clock
    then record d {
      delivered = deliver d.delivered item.event.clock;
      out = d.out ++ (item.event ∷ []);
      progressed = true;
    }
    else if timed_out now timeout item
    then record d {
      delivered = deliver d.delivered item.event.clock;
      out = d.out ++ (item.event ∷ []);
      forced = d.forced + 1;
      progressed = true;
    }
    else record d { heap = d.heap ++ (item ∷ []) }

unfoldable pub scan : ℕ → ℕ → List HeapItem → Drain → Drain
unfolding scan_item
scan now timeout [] d = d
scan now timeout (item ∷ items) d = scan now timeout items (scan_item now timeout item d)

-- One round of the `while`.
unfoldable pub pass : ℕ → ℕ → Drain → Drain
unfolding scan
pass now timeout d = scan now timeout d.heap (record d { progressed = false; heap = [] })

abbrev pub is_empty {ℓ} : {A : Type ℓ} → List A → Bool
is_empty [] = true
is_empty (x ∷ xs) = false

-- The `while`, on fuel: a round that made progress has shortened the heap.
unfoldable pub drain : ℕ → ℕ → ℕ → Drain → Drain
unfolding pass
drain zero now timeout d = d
drain (suc fuel) now timeout d =
    let next = drain fuel now timeout (pass now timeout d) in
    if d.progressed && not (is_empty d.heap) then next else d

unfoldable pub start_drain : ReorderBuffer → Drain
start_drain b = record {
  delivered = b.delivered;
  out = [];
  forced = b.forced;
  progressed = true;
  heap = b.heap;
}

unfoldable pub drained : ℕ → ReorderBuffer → Drain
unfolding start_drain drain
drained now b = drain (suc (length b.heap)) now b.timeout (start_drain b)

unfoldable pub pop_ready : ℕ → ReorderBuffer → ReorderBuffer × List MatchEvent
unfolding drained heapify item_less sort_by vc_sum
pop_ready now b =
    let d = drained now b in
    (
      record b { heap = heapify item_less d.heap; delivered = d.delivered; forced = d.forced },
      sort_by vc_sum d.out,
    )

unfoldable pub size : ReorderBuffer → ℕ
size b = length b.heap
