-- ===== src/Processor/Reorder/Held.antt =====
-- What `pop_ready` of processor/reorder.py leaves in the buffer.
use tft_stats_analytics.Base.{
  ℕ, zero, suc, ◌≡◌, refl, inl, inr, Bool, true, false, not, ◌&&◌, List, [], ◌∷◌, arith, length,
  All, All-append, Bool-cases,
}
use tft_stats_analytics.Base.Count.{All-SameItems}
use tft_stats_analytics.Base.Heapq.{heapify-SameItems}
use tft_stats_analytics.Proto.{VectorClock}
use tft_stats_analytics.Processor.Reorder.{
  HeapItem, ReorderBuffer, Drain, item_less, is_ready, timed_out, scan_item, scan, pass, drain,
  drained, start_drain, pop_ready, is_empty,
}
use tft_stats_analytics.Processor.Reorder.Conserve.{HasEnded, drained-HasEnded}

-- An item stays when it waits for a predecessor and its time is not over.
abbrev pub is_held : ℕ → ℕ → VectorClock → HeapItem → Bool
is_held now timeout delivered item =
    not (is_ready delivered item.event.clock) && not (timed_out now timeout item)

module _ (now timeout : ℕ) where
  abbrev AllHeld : VectorClock → List HeapItem → Type 0
  AllHeld delivered = All (λ item. is_held now timeout delivered item ≡ true)

  -- Until an item is delivered, all that was kept is held by the watermarks as they are.
  abbrev IsQuiet : Drain → Type 0
  IsQuiet d = d.progressed ≡ false → AllHeld d.delivered d.heap

  scan_item-IsQuiet :
      (item : HeapItem) (d : Drain) → IsQuiet d → IsQuiet (scan_item now timeout item d)
  unfolding scan_item
  scan_item-IsQuiet item d q = elim (Bool-cases (is_ready d.delivered item.event.clock)) [
    | inl e ↦ rw e (λ h. cc)
    | inr e ↦ elim (Bool-cases (timed_out now timeout item)) [
      | inl t ↦ rw (e, t) (λ h. cc)
      | inr t ↦ rw (e, t) (λ h. All-append _ d.heap (item ∷ []) (q h) (ground arith, tt))
    ]
  ]

  scan-IsQuiet :
      (items : List HeapItem) (d : Drain) → IsQuiet d → IsQuiet (scan now timeout items d)
  unfolding scan
  scan-IsQuiet [] d q = q
  scan-IsQuiet (item ∷ items) d q =
      scan-IsQuiet items (scan_item now timeout item d) (scan_item-IsQuiet item d q)

  pass-IsQuiet : (d : Drain) → IsQuiet (pass now timeout d)
  unfolding pass
  pass-IsQuiet d = scan-IsQuiet d.heap (record d { progressed = false; heap = [] }) (λ _. tt)

  drain-IsQuiet : (fuel : ℕ) (d : Drain) → IsQuiet d → IsQuiet (drain fuel now timeout d)
  unfolding drain
  drain-IsQuiet zero d q = q
  drain-IsQuiet (suc fuel) d q = elim (Bool-cases (d.progressed && not (is_empty d.heap))) [
    | inl e ↦ rw e (drain-IsQuiet fuel (pass now timeout d) (pass-IsQuiet d))
    | inr e ↦ rw e q
  ]

  AllHeld-of_ended : (d : Drain) → HasEnded d → IsQuiet d → AllHeld d.delivered d.heap
  AllHeld-of_ended d ended q = go d.heap d.progressed ended q
    where
      go :
          (heap : List HeapItem) (progressed : Bool)
          → (progressed && not (is_empty heap)) ≡ false
          → (progressed ≡ false → AllHeld d.delivered heap)
          → AllHeld d.delivered heap
      go [] progressed e k = tt
      go (x ∷ xs) true e k = absurd (ground arith)
      go (x ∷ xs) false e k = k refl

-- After `pop_ready`, every event still in the buffer waits for a predecessor at the new
-- watermarks, and none has been there for the timeout: nothing that is deliverable is left behind.
pub pop_ready-is_held :
    (now : ℕ) (b : ReorderBuffer)
    → All
        (λ item. is_held now b.timeout (pop_ready now b).0.delivered item ≡ true)
        (pop_ready now b).0.heap
unfolding pop_ready drained start_drain
pop_ready-is_held now b =
    All-SameItems (is_held now b.timeout (drained now b).delivered) _ (drained now b).heap
      (heapify-SameItems item_less (drained now b).heap)
      (AllHeld-of_ended now b.timeout (drained now b) (drained-HasEnded now b) quiet)
  where
    quiet : IsQuiet now b.timeout (drained now b)
    quiet = drain-IsQuiet now b.timeout (suc (length b.heap)) (start_drain b) (λ h. cc)
