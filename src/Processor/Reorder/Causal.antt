-- ===== src/Processor/Reorder/Causal.antt =====
-- The order in which `pop_ready` of processor/reorder.py releases events: what the watermarks say
-- about the events that it returns.
use tft_stats_analytics.Base.{
  ℕ, zero, suc, ◌≤◌, String, ◌≡◌, inl, inr, Bool, true, false, not, ◌&&◌, List, [], ◌∷◌, ◌++◌,
  arith, length, All, All-append, All-map, Bool-cases,
}
use tft_stats_analytics.Base.Sort.{sort_by-IsSorted, IsSorted, All-sort_by}
use tft_stats_analytics.Base.Order.{nat_order}
use tft_stats_analytics.Proto.{MatchEvent, VectorClock}
use tft_stats_analytics.Processor.Reorder.{
  HeapItem, ReorderBuffer, Drain, vc_sum, watermark, is_ready, timed_out, deliver, scan_item, scan,
  pass, drain, drained, start_drain, pop_ready, is_empty,
}
use tft_stats_analytics.Processor.Reorder.Watermark.{has, deliver_mono, deliver_covers}

-- The event carries the entry `node: seq`.
abbrev pub carries : String → ℕ → MatchEvent → Bool
carries node seq event = has node seq event.clock

-- The watermarks have reached each entry of the event's clock.
abbrev pub IsCovered : VectorClock → MatchEvent → Type 0
IsCovered delivered event =
    (node : String) (seq : ℕ) → carries node seq event ≡ true → seq ≤ watermark delivered node

-- `pop_ready` returns its events by ascending clock total.
pub pop_ready-IsSorted : (now : ℕ) (b : ReorderBuffer) → IsSorted vc_sum (pop_ready now b).1
unfolding pop_ready
pop_ready-IsSorted now b = sort_by-IsSorted vc_sum (drained now b).out

module _ (now timeout : ℕ) where
  -- A drain from watermarks `d0`: they have not fallen, and cover what was released.
  record IsAbove (d0 : VectorClock) (d : Drain) : Type 0 where
    grown : (node : String) → watermark d0 node ≤ watermark d.delivered node
    covered : All (IsCovered d.delivered) d.out

  release-IsAbove :
      (d0 : VectorClock) (d : Drain) (event : MatchEvent)
      → IsAbove d0 d
      → ((node : String) → watermark d0 node ≤ watermark (deliver d.delivered event.clock) node)
        × All (IsCovered (deliver d.delivered event.clock)) (d.out ++ (event ∷ []))
  release-IsAbove d0 d event a = (
    (λ node. omega (arith, a.grown node, deliver_mono d.delivered event.clock node)),
    All-append _ d.out (event ∷ [])
        (All-map
          (λ e c node seq h. omega (arith, c node seq h, deliver_mono d.delivered event.clock node))
          d.out a.covered)
        ((λ node seq h. deliver_covers d.delivered event.clock node seq h), tt),
  )

  scan_item-IsAbove :
      (d0 : VectorClock) (item : HeapItem) (d : Drain)
      → IsAbove d0 d
      → IsAbove d0 (scan_item now timeout item d)
  unfolding scan_item
  scan_item-IsAbove d0 item d a = elim (Bool-cases (is_ready d.delivered item.event.clock)) [
    | inl e ↦
        let r = release-IsAbove d0 d item.event a in rw e (record { grown = r.0; covered = r.1 })
    | inr e ↦ elim (Bool-cases (timed_out now timeout item)) [
      | inl t ↦
          let r = release-IsAbove d0 d item.event a in
          rw (e, t) (record { grown = r.0; covered = r.1 })
      | inr t ↦ rw (e, t) (record { grown = a.grown; covered = a.covered })
    ]
  ]

  scan-IsAbove :
      (d0 : VectorClock) (items : List HeapItem) (d : Drain)
      → IsAbove d0 d
      → IsAbove d0 (scan now timeout items d)
  unfolding scan
  scan-IsAbove d0 [] d a = a
  scan-IsAbove d0 (item ∷ items) d a =
      scan-IsAbove d0 items (scan_item now timeout item d) (scan_item-IsAbove d0 item d a)

  drain-IsAbove :
      (d0 : VectorClock) (fuel : ℕ) (d : Drain)
      → IsAbove d0 d
      → IsAbove d0 (drain fuel now timeout d)
  unfolding drain pass
  drain-IsAbove d0 zero d a = a
  drain-IsAbove d0 (suc fuel) d a = elim (Bool-cases (d.progressed && not (is_empty d.heap))) [
    | inl e ↦ rw e (
        drain-IsAbove d0 fuel (pass now timeout d) (
          scan-IsAbove d0 d.heap (record d { progressed = false; heap = [] })
            (record { grown = a.grown; covered = a.covered })))
    | inr e ↦ rw e a
  ]

drained-IsAbove : (now : ℕ) (b : ReorderBuffer) → IsAbove now b.timeout b.delivered (drained now b)
unfolding drained start_drain
drained-IsAbove now b =
    drain-IsAbove now b.timeout b.delivered (suc (length b.heap)) (start_drain b)
      (record { grown = λ node. omega arith; covered = tt })

-- `pop_ready` lowers no watermark, and its watermarks cover every event that it returns.
pub pop_ready_covers :
    (now : ℕ) (b : ReorderBuffer)
    → ((node : String) → watermark b.delivered node ≤ watermark (pop_ready now b).0.delivered node)
      × All (IsCovered (pop_ready now b).0.delivered) (pop_ready now b).1
unfolding pop_ready
pop_ready_covers now b =
    let a = drained-IsAbove now b in
    (
      a.grown,
      All-sort_by vc_sum (IsCovered (drained now b).delivered) (drained now b).out a.covered,
    )
