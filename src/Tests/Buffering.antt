-- ===== src/Tests/Buffering.antt =====
-- The reorder buffer on the gapped events.
use tft_stats_analytics.Base.{
  List, ℕ, zero, suc, ◌∷◌, refl, arith, ◌+◌, ◌≤◌, ◌<◌, String, ◌≡◌, Bool, true, [], All, any_of,
}
use tft_stats_analytics.Base.Count.{count}
use tft_stats_analytics.Base.Order.{nat_order}
use tft_stats_analytics.Proto.{MatchEvent}
use tft_stats_analytics.Base.Dict.{get_or}
use tft_stats_analytics.Processor.Reorder.CatchUp.{is_event, IsContiguous, pop_ready_catches_up}
use tft_stats_analytics.Processor.Reorder.Waits.{pop_ready_waits}
use tft_stats_analytics.Processor.Reorder.{ReorderBuffer, pop_ready, watermark, drained, timed_out}
use tft_stats_analytics.Processor.Reorder.Conserve.{
  pop_ready_conserves, buffered, drained-HasEnded, HasEnded,
}
use tft_stats_analytics.Processor.Reorder.Held.{pop_ready-is_held, is_held}
use tft_stats_analytics.Processor.Reorder.Causal.{pop_ready_covers, carries, IsCovered}
use tft_stats_analytics.Processor.Reorder.Gaps.{pop_ready_no_gap}
use tft_stats_analytics.Processor.Subscriber.{
  Subscriber, Signal, message, lost, elsewhere, path, load, start, run,
}
use tft_stats_analytics.Processor.Subscriber.Tail.{IsApart, IsTailing}
use tft_stats_analytics.Processor.Subscriber.Delivery.{passed_over, run-IsTailing}
use tft_stats_analytics.Tests.Samples.{gapped, buffered_at, event_from}

abbrev all_events : MatchEvent → Bool
all_events event = true

pop_ready_conserves_example :
    count all_events (pop_ready 12 gapped).1 + buffered all_events (pop_ready 12 gapped).0.heap ≡ 2
pop_ready_conserves_example = pop_ready_conserves all_events 12 gapped

drained-HasEnded_example : HasEnded (drained 12 gapped)
drained-HasEnded_example = drained-HasEnded 12 gapped

pop_ready-is_held_example :
    All
      (λ item. is_held 12 5 (pop_ready 12 gapped).0.delivered item ≡ true)
      (pop_ready 12 gapped).0.heap
pop_ready-is_held_example = pop_ready-is_held 12 gapped

pop_ready_covers_example :
    ((node : String) → watermark [] node ≤ watermark (pop_ready 12 gapped).0.delivered node)
    × All (IsCovered (pop_ready 12 gapped).0.delivered) (pop_ready 12 gapped).1
pop_ready_covers_example = pop_ready_covers 12 gapped

pop_ready_no_gap_example :
    ((pop_ready 12 gapped).0.forced ≡ 0)
    × ((node : String) (seq : ℕ)
        → watermark [] node < seq
        → seq ≤ watermark (pop_ready 12 gapped).0.delivered node
        → any_of (carries node seq) (pop_ready 12 gapped).1 ≡ true)
unfolding timed_out
pop_ready_no_gap_example = pop_ready_no_gap 12 gapped (refl, (refl, tt))

-- The events 1 to 3, the last one first.
abbrev shuffled : ReorderBuffer
shuffled = record gapped {
  heap =
      buffered_at 3 9 (event_from "ingest" 3)
      ∷ buffered_at 1 10 (event_from "ingest" 1)
      ∷ buffered_at 2 11 (event_from "ingest" 2)
      ∷ [];
}

shuffled-IsContiguous : IsContiguous 12 shuffled "ingest" 3
shuffled-IsContiguous zero above below = absurd (omega arith)
shuffled-IsContiguous (suc zero) above below = omega arith
shuffled-IsContiguous (suc (suc zero)) above below = omega arith
shuffled-IsContiguous (suc (suc (suc zero))) above below = omega arith
shuffled-IsContiguous (suc (suc (suc (suc s)))) above below = absurd (omega arith)

pop_ready_catches_up_example :
    (3 ≤ watermark (pop_ready 12 shuffled).0.delivered "ingest")
    × ((seq : ℕ) → seq ≤ 3 → buffered (is_event "ingest" seq) (pop_ready 12 shuffled).0.heap ≡ 0)
pop_ready_catches_up_example = pop_ready_catches_up 12 shuffled "ingest" 3 shuffled-IsContiguous

-- Event 3 alone, after event 1.
abbrev stalled : ReorderBuffer
stalled = record gapped {
  heap = buffered_at 3 11 (event_from "ingest" 3) ∷ [];
  delivered = ("ingest", 1) ∷ [];
}

pop_ready_waits_example : (pop_ready 12 stalled).1 ≡ []
unfolding timed_out get_or
pop_ready_waits_example = pop_ready_waits 12 stalled "ingest" (refl, tt) (refl, tt)

-- A session of three messages is lost, another partition is saved, and two messages come: the first
-- one again, and then, as the broker has dropped all before it, the one at offset 7.
abbrev signals : List Signal
signals =
    message 0
    ∷ message 0
    ∷ message 0
    ∷ lost
    ∷ elsewhere "raw_matches/EUW/GOLD" 9
    ∷ message 0
    ∷ message 7
    ∷ []

abbrev tail_start : Subscriber
tail_start = start "raw_matches/NA/GOLD" (event_from "ingest") []

signals-IsApart : All (IsApart "raw_matches/NA/GOLD") signals
unfolding path
signals-IsApart = (tt, (tt, (tt, (tt, (refl, (tt, (tt, tt)))))))

run-IsTailing_example :
    IsTailing "raw_matches/NA/GOLD"
      (event_from "ingest")
      0
      1
      (passed_over "raw_matches/NA/GOLD" (event_from "ingest") signals tail_start)
      (run "raw_matches/NA/GOLD" (event_from "ingest") signals tail_start)
unfolding load
run-IsTailing_example =
    run-IsTailing "raw_matches/NA/GOLD" (event_from "ingest") [] signals signals-IsApart
