-- ===== src/Processor/Reorder/Gaps.antt =====
-- Without a forced release `pop_ready` of processor/reorder.py skips no sequence number.
use tft_stats_analytics.Base.{
  ℕ, zero, suc, ◌≤◌, ◌<◌, String, ◌≡◌, refl, inl, inr, true, false, not, ◌&&◌, List, [], ◌∷◌, ◌++◌,
  arith, length, leb, All, All-append, any_of, any_of-append, Bool-cases,
}
use tft_stats_analytics.Base.Count.{any_of-SameItems}
use tft_stats_analytics.Base.Sort.{sort_by-SameItems}
use tft_stats_analytics.Base.Order.{nat_order}
use tft_stats_analytics.Proto.{MatchEvent, VectorClock}
use tft_stats_analytics.Processor.Reorder.{
  HeapItem, ReorderBuffer, Drain, vc_sum, watermark, is_ready, timed_out, deliver, scan_item, scan,
  pass, drain, drained, start_drain, pop_ready, is_empty,
}
use tft_stats_analytics.Processor.Reorder.Watermark.{deliver_no_gap}
use tft_stats_analytics.Processor.Reorder.Causal.{carries}

module _ (now timeout : ℕ) where
  -- The item has not been in the buffer for the timeout.
  abbrev pub IsFresh : HeapItem → Type 0
  IsFresh item = timed_out now timeout item ≡ false

  -- A drain from watermarks `d0` and `forced0` forced releases, of fresh items only.
  record HasNoGap (d0 : VectorClock) (forced0 : ℕ) (d : Drain) : Type 0 where
    filled :
        (node : String) (seq : ℕ)
        → watermark d0 node < seq
        → seq ≤ watermark d.delivered node
        → any_of (carries node seq) d.out ≡ true
    fresh : All IsFresh d.heap
    unforced : d.forced ≡ forced0

  module _ (d0 : VectorClock) (forced0 : ℕ) where
    release_filled :
        (d : Drain) (event : MatchEvent)
        → HasNoGap d0 forced0 d
        → is_ready d.delivered event.clock ≡ true
        → (node : String) (seq : ℕ) → watermark d0 node < seq
        → seq ≤ watermark (deliver d.delivered event.clock) node
        → any_of (carries node seq) (d.out ++ (event ∷ [])) ≡ true
    release_filled d event g ready node seq above below =
        rw (any_of-append (carries node seq) d.out (event ∷ []))
          (elim (Bool-cases (leb seq (watermark d.delivered node))) [
            | inl e ↦ ground (arith, g.filled node seq above (ground arith))
            | inr e ↦
                ground (
                  arith,
                  deliver_no_gap d.delivered event.clock node seq ready (ground arith) below,
                )
          ])

    scan_item-HasNoGap :
        (item : HeapItem) (d : Drain)
        → IsFresh item
        → HasNoGap d0 forced0 d
        → HasNoGap d0 forced0 (scan_item now timeout item d)
    unfolding scan_item
    scan_item-HasNoGap item d f g = elim (Bool-cases (is_ready d.delivered item.event.clock)) [
      | inl e ↦ rw e (record {
        filled = release_filled d item.event g e;
        fresh = g.fresh;
        unforced = g.unforced;
      })
      | inr e ↦
          rw (e, f)
            (record {
              filled = g.filled;
              fresh = All-append _ d.heap (item ∷ []) g.fresh (f, tt);
              unforced = g.unforced;
            })
    ]

    scan-HasNoGap :
        (items : List HeapItem) (d : Drain)
        → All IsFresh items
        → HasNoGap d0 forced0 d
        → HasNoGap d0 forced0 (scan now timeout items d)
    unfolding scan
    scan-HasNoGap [] d f g = g
    scan-HasNoGap (item ∷ items) d f g =
        scan-HasNoGap items (scan_item now timeout item d) f.1 (scan_item-HasNoGap item d f.0 g)

    drain-HasNoGap :
        (fuel : ℕ) (d : Drain)
        → HasNoGap d0 forced0 d
        → HasNoGap d0 forced0 (drain fuel now timeout d)
    unfolding drain pass
    drain-HasNoGap zero d g = g
    drain-HasNoGap (suc fuel) d g = elim (Bool-cases (d.progressed && not (is_empty d.heap))) [
      | inl e ↦ rw e (
          drain-HasNoGap fuel (pass now timeout d) (
            scan-HasNoGap d.heap (record d { progressed = false; heap = [] }) g.fresh
              (record { filled = g.filled; fresh = tt; unforced = g.unforced })))
      | inr e ↦ rw e g
    ]

module _ (now : ℕ) (b : ReorderBuffer) (fresh : All (IsFresh now b.timeout) b.heap) where
  drained-HasNoGap : HasNoGap now b.timeout b.delivered b.forced (drained now b)
  unfolding drained start_drain
  drained-HasNoGap =
      drain-HasNoGap now b.timeout b.delivered b.forced (suc (length b.heap)) (start_drain b)
        (record {
          filled = λ node seq above below. absurd (omega arith);
          fresh = fresh;
          unforced = refl;
        })

  -- If no buffered event has reached the timeout, `pop_ready` forces none out, and every sequence
  -- number by which it raises a node's watermark is carried by an event that it returns.
  pub pop_ready_no_gap :
      ((pop_ready now b).0.forced ≡ b.forced)
      × ((node : String) (seq : ℕ)
          → watermark b.delivered node < seq
          → seq ≤ watermark (pop_ready now b).0.delivered node
          → any_of (carries node seq) (pop_ready now b).1 ≡ true)
  unfolding pop_ready
  pop_ready_no_gap = (
    drained-HasNoGap.unforced,
    λ node seq above below.
        any_of-SameItems (carries node seq) _ (drained now b).out
          (sort_by-SameItems vc_sum (drained now b).out)
          (drained-HasNoGap.filled node seq above below),
  )
