-- ===== src/Processor/Reorder/Waits.antt =====
-- A missing number holds up the later events of its producer in the reorder buffer of
-- processor/reorder.py.
use tft_stats_analytics.Base.{
  ℕ, ◌+◌, ◌≤◌, ◌<◌, String, ◌≡◌, refl, Bool, true, false, not, ◌&&◌, List, [], ◌∷◌, arith, str_eq,
  ltb, All, any_of, eq_iff,
}
use tft_stats_analytics.Base.Count.{count_zero-All, All-count_zero}
use tft_stats_analytics.Proto.{MatchEvent, VectorClock}
use tft_stats_analytics.Processor.Reorder.{ReorderBuffer, watermark, pop_ready}
use tft_stats_analytics.Processor.Reorder.Watermark.{has}
use tft_stats_analytics.Processor.Reorder.Conserve.{pop_ready_conserves}
use tft_stats_analytics.Processor.Reorder.Causal.{carries, IsCovered, pop_ready_covers}
use tft_stats_analytics.Processor.Reorder.Gaps.{IsFresh, pop_ready_no_gap}

abbrev clock_after : String → ℕ → VectorClock → Bool
clock_after node w ((n, s) ∷ []) = str_eq n node && ltb (w + 1) s
clock_after node w _ = false

-- The producer's event, with a number above the next one.
abbrev pub is_late : String → ℕ → MatchEvent → Bool
is_late node w event = clock_after node w event.clock

module _ (node : String) (w : ℕ) where
  late_number :
      (c : VectorClock)
      → clock_after node w c ≡ true
      → (s : ℕ) × (w + 1 < s) × (has node s c ≡ true)
  late_number [] h = absurd (cc)
  late_number ((n, s) ∷ []) h = (s, ground arith, ground (arith, eq_iff n node))
  late_number ((n, s) ∷ e ∷ c) h = absurd (cc)

  late_not_next : (c : VectorClock) → clock_after node w c ≡ true → has node (w + 1) c ≡ false
  late_not_next [] h = refl
  late_not_next ((n, s) ∷ []) h = ground arith
  late_not_next ((n, s) ∷ e ∷ c) h = absurd (cc)

  none_next :
      (events : List MatchEvent)
      → All (λ e. is_late node w e ≡ true) events
      → any_of (carries node (w + 1)) events ≡ false
  none_next [] a = refl
  none_next (e ∷ es) a = rw (late_not_next e.clock a.0, none_next es a.1) refl

none_returned :
    (node : String) (d : VectorClock) (w : ℕ) (events : List MatchEvent)
    → All (λ e. is_late node w e ≡ true) events
    → All (IsCovered d) events
    → (w + 1 ≤ watermark d node → any_of (carries node (w + 1)) events ≡ true)
    → events ≡ []
none_returned node d w [] late covered next = refl
none_returned node d w (e ∷ es) late covered next =
    let (s, above, there) = late_number node w e.clock late.0 in
    let reached : s ≤ watermark d node = covered.0 node s there in
    let found : any_of (carries node (w + 1)) (e ∷ es) ≡ true = next (omega arith) in
    let missing : any_of (carries node (w + 1)) (e ∷ es) ≡ false = none_next node w (e ∷ es) late in
    absurd (cc)

-- While the event after a producer's watermark is missing, and the buffer has only later events of
-- the producer, none of which has reached the timeout, `pop_ready` returns nothing.
pub pop_ready_waits :
    (now : ℕ) (b : ReorderBuffer) (node : String)
    → All (IsFresh now b.timeout) b.heap
    → All (λ item. is_late node (watermark b.delivered node) item.event ≡ true) b.heap
    → (pop_ready now b).1 ≡ []
pop_ready_waits now b node fresh late =
    let w : ℕ = watermark b.delivered node in
    let (_, filled) = pop_ready_no_gap now b fresh in
    none_returned node (pop_ready now b).0.delivered w (pop_ready now b).1
      (count_zero-All (is_late node w) (pop_ready now b).1 (
        omega (
          arith,
          pop_ready_conserves (λ e. not (is_late node w e)) now b,
          All-count_zero (λ item. is_late node w item.event) b.heap late,
        )))
      (pop_ready_covers now b).1 (λ le. filled node (w + 1) (omega arith) le)
