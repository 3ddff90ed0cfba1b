-- ===== src/Processor/Reorder/CatchUp.antt =====
-- The reorder buffer of processor/reorder.py on the events of one producer, in whatever order they
-- have come: `pop_ready` delivers all that is contiguous.
use tft_stats_analytics.Base.{
  ℕ, zero, suc, ◌+◌, ◌≤◌, ◌<◌, String, ◌≡◌, refl, Bool, true, false, ◌&&◌, List, [], ◌∷◌, arith,
  str_eq, ◌==◌, All, Bool-cases, inl, inr, eq_iff, leb,
}
use tft_stats_analytics.Base.Count.{count}
use tft_stats_analytics.Proto.{MatchEvent, VectorClock}
use tft_stats_analytics.Processor.Reorder.{HeapItem, ReorderBuffer, watermark, is_ready, pop_ready}
use tft_stats_analytics.Processor.Reorder.Watermark.{has}
use tft_stats_analytics.Processor.Reorder.Conserve.{buffered, pop_ready_conserves}
use tft_stats_analytics.Processor.Reorder.Held.{is_held, pop_ready-is_held}
use tft_stats_analytics.Processor.Reorder.Causal.{IsCovered, pop_ready_covers}

abbrev pub clock_is : String → ℕ → VectorClock → Bool
clock_is node seq ((n, s) ∷ []) = str_eq n node && s == seq
clock_is node seq _ = false

-- The producer's event with this number and no other entry in its clock.
abbrev pub is_event : String → ℕ → MatchEvent → Bool
is_event node seq event = clock_is node seq event.clock

clock_is-ready :
    (d c : VectorClock) (node : String) (seq : ℕ)
    → clock_is node seq c ≡ true
    → seq ≤ watermark d node + 1
    → is_ready d c ≡ true
unfolding is_ready
clock_is-ready d [] node seq h le = absurd (cc)
clock_is-ready d ((n, s) ∷ []) node seq h le = ground (arith, eq_iff n node)
clock_is-ready d ((n, s) ∷ e ∷ c) node seq h le = absurd (cc)

none_held :
    (now timeout : ℕ) (d : VectorClock) (node : String) (seq : ℕ) (heap : List HeapItem)
    → All (λ item. is_held now timeout d item ≡ true) heap
    → seq ≤ watermark d node + 1
    → buffered (is_event node seq) heap ≡ 0
none_held now timeout d node seq [] held le = refl
none_held now timeout d node seq (item ∷ heap) held le =
    elim (Bool-cases (is_event node seq item.event)) [
      | inl e ↦
          let ready : is_ready d item.event.clock ≡ true =
            clock_is-ready d item.event.clock node seq e le in
          absurd (ground arith)
      | inr e ↦ rw e (omega (arith, none_held now timeout d node seq heap held.1 le))
    ]

clock_is-has :
    (node : String) (seq : ℕ) (c : VectorClock) → clock_is node seq c ≡ true → has node seq c ≡ true
clock_is-has node seq [] h = absurd (cc)
clock_is-has node seq ((n, s) ∷ []) h = ground arith
clock_is-has node seq ((n, s) ∷ e ∷ c) h = absurd (cc)

covered_le :
    (d : VectorClock) (node : String) (seq : ℕ) (events : List MatchEvent)
    → All (IsCovered d) events
    → 0 < count (is_event node seq) events
    → seq ≤ watermark d node
covered_le d node seq [] a h = absurd (omega arith)
covered_le d node seq (e ∷ es) a h = elim (Bool-cases (is_event node seq e)) [
  | inl q ↦ a.0 node seq (clock_is-has node seq e.clock q)
  | inr q ↦ covered_le d node seq es a.1 (ground arith)
]

module _ (now : ℕ) (b : ReorderBuffer) (node : String) where
  abbrev reached : ℕ
  reached = watermark (pop_ready now b).0.delivered node

  next_reached :
      (s : ℕ) → s ≤ reached → 0 < buffered (is_event node (suc s)) b.heap → suc s ≤ reached
  next_reached s below there =
      covered_le (pop_ready now b).0.delivered node (suc s) (pop_ready now b).1
        (pop_ready_covers now b).1
        (omega (
          arith,
          pop_ready_conserves (is_event node (suc s)) now b,
          none_held now b.timeout (pop_ready now b).0.delivered node (suc s)
              (pop_ready now b).0.heap (pop_ready-is_held now b) (omega arith),
          there,
        ))

  abbrev pub IsContiguous : ℕ → Type 0
  IsContiguous n =
      (seq : ℕ)
      → watermark b.delivered node < seq
      → seq ≤ n
      → 0 < buffered (is_event node seq) b.heap

  all_reached : (n s : ℕ) → s ≤ n → IsContiguous n → s ≤ reached
  all_reached n zero h there = omega arith
  all_reached n (suc s) h there = elim (Bool-cases (leb (suc s) (watermark b.delivered node))) [
    | inl e ↦ ground (arith, (pop_ready_covers now b).0 node)
    | inr e ↦ next_reached s (all_reached n s (omega arith) there) (there (suc s) (ground arith) h)
  ]

  -- If the buffer has an event of the producer for each number from its watermark up to `n`, in
  -- whatever order they came, then `pop_ready` raises the watermark to `n`, and leaves no event of the
  -- producer with a number up to `n` behind.
  pub pop_ready_catches_up :
      (n : ℕ)
      → IsContiguous n
      → (n ≤ watermark (pop_ready now b).0.delivered node)
        × ((seq : ℕ) → seq ≤ n → buffered (is_event node seq) (pop_ready now b).0.heap ≡ 0)
  pop_ready_catches_up n there = (
    all_reached n n (omega arith) there,
    (λ seq le.
        none_held now b.timeout (pop_ready now b).0.delivered node seq (pop_ready now b).0.heap
          (pop_ready-is_held now b) (omega (arith, all_reached n n (omega arith) there, le))),
  )
