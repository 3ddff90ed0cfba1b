-- ===== src/Processor/Reorder/Conserve.antt =====
-- `pop_ready` and `push` of processor/reorder.py lose no event and invent none, and the loop of
-- `pop_ready` ends.
use tft_stats_analytics.Base.{
  ℕ, zero, suc, ◌+◌, ◌≤◌, ◌≡◌, refl, ◌∙◌, inl, inr, Bool, false, not, ◌&&◌, List, [], ◌∷◌, arith,
  length, length-append, Bool-cases,
}
use tft_stats_analytics.Base.Count.{count, bit, count-append}
use tft_stats_analytics.Base.Sort.{sort_by-SameItems}
use tft_stats_analytics.Base.Heapq.{heappush-SameItems, heapify-SameItems}
use tft_stats_analytics.Proto.{MatchEvent}
use tft_stats_analytics.Processor.Reorder.{
  HeapItem, ReorderBuffer, Drain, item_less, vc_sum, push, scan_item, scan, pass, drain, drained,
  start_drain, pop_ready, is_empty,
}

module _ (p : MatchEvent → Bool) where
  -- How many of the buffered events pass the test.
  abbrev pub buffered : List HeapItem → ℕ
  buffered heap = count (λ item. p item.event) heap

  abbrev weight : Drain → ℕ
  weight d = count p d.out + buffered d.heap

  weight-scan_item :
      (now timeout : ℕ) (item : HeapItem) (d : Drain)
      → weight (scan_item now timeout item d) ≡ weight d + bit (p item.event)
  unfolding scan_item
  weight-scan_item now timeout item d = ground (
    arith,
    count-append p d.out (item.event ∷ []),
    count-append (λ (i : HeapItem). p i.event) d.heap (item ∷ []),
  )

  weight-scan :
      (now timeout : ℕ) (items : List HeapItem) (d : Drain)
      → weight (scan now timeout items d) ≡ weight d + buffered items
  unfolding scan
  weight-scan now timeout [] d = omega arith
  weight-scan now timeout (item ∷ items) d = omega (
    arith,
    weight-scan now timeout items (scan_item now timeout item d),
    weight-scan_item now timeout item d,
  )

  weight-pass : (now timeout : ℕ) (d : Drain) → weight (pass now timeout d) ≡ weight d
  unfolding pass
  weight-pass now timeout d =
      omega (arith, weight-scan now timeout d.heap (record d { progressed = false; heap = [] }))

  weight-drain : (fuel now timeout : ℕ) (d : Drain) → weight (drain fuel now timeout d) ≡ weight d
  unfolding drain
  weight-drain zero now timeout d = refl
  weight-drain (suc fuel) now timeout d =
      elim (Bool-cases (d.progressed && not (is_empty d.heap))) [
        | inl e ↦
            rw e (weight-drain fuel now timeout (pass now timeout d) ∙ weight-pass now timeout d)
        | inr e ↦ rw e
      ]

  -- The events that `pop_ready` returns and those that it leaves in the buffer are together the
  -- events that were in the buffer, each as often.
  pub pop_ready_conserves :
      (now : ℕ) (b : ReorderBuffer)
      → count p (pop_ready now b).1 + buffered (pop_ready now b).0.heap ≡ buffered b.heap
  unfolding pop_ready start_drain
  pop_ready_conserves now b = omega (
    arith,
    sort_by-SameItems vc_sum (drained now b).out p,
    heapify-SameItems item_less (drained now b).heap (λ (i : HeapItem). p i.event),
    weight-drain (suc (length b.heap)) now b.timeout (start_drain b),
  )

  -- `push` adds its event and nothing else.
  pub push_adds :
      (event : MatchEvent) (now : ℕ) (b : ReorderBuffer)
      → buffered (push event now b).heap ≡ bit (p event) + buffered b.heap
  unfolding push
  push_adds event now b =
      heappush-SameItems item_less b.heap
        (record { vc_total = vc_sum event; counter = b.counter; arrival = now; event = event })
        (λ (i : HeapItem). p i.event)

-- A pass keeps at most what it read, and drops something if it made progress.
length-scan_item :
    (now timeout : ℕ) (item : HeapItem) (d : Drain)
    → length (scan_item now timeout item d).heap + bit (scan_item now timeout item d).progressed
      ≤ length d.heap + 1 + bit d.progressed
unfolding scan_item
length-scan_item now timeout item d = ground (arith, length-append d.heap (item ∷ []))

scan_shrinks :
    (now timeout : ℕ) (items : List HeapItem) (d : Drain)
    → length (scan now timeout items d).heap + bit (scan now timeout items d).progressed
      ≤ length d.heap + length items + bit d.progressed
unfolding scan
scan_shrinks now timeout [] d = omega arith
scan_shrinks now timeout (item ∷ items) d = omega (
  arith,
  length-scan_item now timeout item d,
  scan_shrinks now timeout items (scan_item now timeout item d),
)

pass_shrinks :
    (now timeout : ℕ) (d : Drain)
    → length (pass now timeout d).heap + bit (pass now timeout d).progressed ≤ length d.heap
unfolding pass
pass_shrinks now timeout d =
    omega (arith, scan_shrinks now timeout d.heap (record d { progressed = false; heap = [] }))

-- The condition of the `while` fails.
abbrev pub HasEnded : Drain → Type 0
HasEnded d = (d.progressed && not (is_empty d.heap)) ≡ false

drain_ends :
    (fuel now timeout : ℕ) (d : Drain)
    → length d.heap + bit d.progressed ≤ fuel
    → HasEnded (drain fuel now timeout d)
unfolding drain
drain_ends zero now timeout d h = ground arith
drain_ends (suc fuel) now timeout d h = elim (Bool-cases (d.progressed && not (is_empty d.heap))) [
  | inl e ↦ rw e (
      drain_ends fuel now timeout (pass now timeout d) (ground (arith, pass_shrinks now timeout d)))
  | inr e ↦ rw e e
]

-- The rounds that `pop_ready` allows are enough: its loop ends by its own condition.
pub drained-HasEnded : (now : ℕ) (b : ReorderBuffer) → HasEnded (drained now b)
unfolding drained
drained-HasEnded now b =
    drain_ends (suc (length b.heap)) now b.timeout (start_drain b)
      (unfold start_drain in omega arith)
