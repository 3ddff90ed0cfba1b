-- ===== src/Processor/Service.antt =====
-- processor/main.py: the service around the reorder buffer and the aggregator. Times are ticks of
-- one clock. What the meta store answers to a write is an argument; counters and prints that
-- nothing reads are left out, except the count of acknowledged writes.
pub mod Rounds
pub mod Clocks
use tft_stats_analytics.Base.{
  ℕ, zero, suc, ◌+◌, String, Bool, true, false, ◌||◌, List, [], ◌∷◌, ◌++◌, ltb, leb, ◌==◌,
  if◌then◌else◌, length, take, drop,
}
use tft_stats_analytics.Base.Dict.{get_or, insert, string_eq}
use tft_stats_analytics.Base.Float.{Float}
use tft_stats_analytics.Base.NumPy.{NumPy}
use tft_stats_analytics.Proto.{VectorClock, MatchEvent, StatEntry}
use tft_stats_analytics.Processor.Reorder.{ReorderBuffer, push, pop_ready}
use tft_stats_analytics.Processor.Aggregator.{StatAggregator, process_batch}
use tft_stats_analytics.Processor.Aggregator.Flush.{flush}

-- `MetaStoreClient.write`: success, no quorum, or an exception.
pub data WriteReply : Type 0 where
  acked refused raised : WriteReply

-- An event with the time at which it is taken off the queue.
abbrev pub Arrival : Type 0
Arrival = ℕ × MatchEvent

pub data Turn : Type 0 where
  arrives : ℕ → MatchEvent → Turn
  rounds : ℕ → Turn

pub record Processor : Type 0 where
  pub node_id : String
  pub flush_interval : ℕ
  pub flush_match_threshold : ℕ
  pub incoming : List Arrival
  pub reorder : ReorderBuffer
  pub aggregator : StatAggregator
  pub merged_clock : VectorClock
  pub flush_seq : ℕ
  pub last_flush : ℕ
  pub entries_written : ℕ

-- `_merge_clock`, on the entries of an event's clock
unfoldable pub merge_clock : VectorClock → VectorClock → VectorClock
unfolding insert get_or
merge_clock [] merged = merged
merge_clock ((node, seq) ∷ clock) merged =
    merge_clock clock (if ltb (get_or 0 node merged) seq then insert node seq merged else merged)

-- `{**self.merged_clock, self.node_id: self.flush_seq}`
unfoldable pub stamp : String → ℕ → VectorClock → VectorClock
unfolding insert
stamp node_id flush_seq merged = insert node_id flush_seq merged

-- The clock of a flush that happens now.
unfoldable pub flush_clock : Processor → VectorClock
unfolding stamp
flush_clock p = stamp p.node_id (p.flush_seq + 1) p.merged_clock

-- The loop over the queue, at most 5000 events: the clock is merged and the event buffered.
unfoldable pub absorb : List Arrival → Processor → Processor
unfolding merge_clock push
absorb [] p = p
absorb ((now, event) ∷ arrivals) p = absorb arrivals (record p {
  merged_clock = merge_clock event.clock p.merged_clock;
  reorder = push event now p.reorder;
})

abbrev pub drain_limit : ℕ
drain_limit = 5000

unfoldable pub take_incoming : Processor → Processor
unfolding absorb
take_incoming p =
    absorb (take drain_limit p.incoming) (record p { incoming = drop drain_limit p.incoming })

-- What is ready goes to the aggregator.
unfoldable pub aggregate_ready : ℕ → Processor → Processor
unfolding pop_ready process_batch
aggregate_ready now p =
    let popped = pop_ready now p.reorder in
    record p { reorder = popped.0; aggregator = process_batch popped.1 p.aggregator }

module _ (fl : Float) (np : NumPy fl) where
  -- What a flush that happens now writes.
  unfoldable pub emitted : Processor → List (StatEntry fl.F)
  unfolding flush flush_clock
  emitted p = (flush fl np (flush_clock p) p.aggregator).1

module _ (fl : Float) (np : NumPy fl) (write : StatEntry fl.F → WriteReply) where
  unfoldable pub count_acked : List (StatEntry fl.F) → ℕ
  count_acked [] = 0
  count_acked (e ∷ es) = elim (write e) [
    | acked ↦ count_acked es + 1
    | refused ↦ count_acked es
    | raised ↦ count_acked es
  ]

  -- `_flush`; the returned time is the new `last_flush`
  unfoldable pub flush_processor : ℕ → Processor → Processor
  unfolding flush flush_clock count_acked emitted
  flush_processor now p =
      let flushed = flush fl np (flush_clock p) p.aggregator in
      let acked_entries = count_acked (emitted fl np p) in
      if p.aggregator.matches_seen == 0 then record p { last_flush = now } else record p {
        aggregator = flushed.0;
        flush_seq = p.flush_seq + 1;
        last_flush = now;
        entries_written = p.entries_written + acked_entries;
      }

  -- `_maybe_flush`
  unfoldable pub maybe_flush : ℕ → Processor → Processor
  unfolding flush_processor
  maybe_flush now p =
      if leb (p.last_flush + p.flush_interval) now
        || leb p.flush_match_threshold p.aggregator.matches_seen
      then flush_processor now p
      else p

  -- One round of the loop in `run`.
  unfoldable pub round : ℕ → Processor → Processor
  unfolding take_incoming aggregate_ready maybe_flush
  round now p = maybe_flush now (aggregate_ready now (take_incoming p))

  -- What happens to the processor: a thread puts an event on the queue, or the loop runs a round.
  unfoldable pub turn : Turn → Processor → Processor
  unfolding round
  turn (arrives now event) p = record p { incoming = p.incoming ++ ((now, event) ∷ []) }
  turn (rounds now) p = round now p

  unfoldable pub run_turns : List Turn → Processor → Processor
  unfolding turn
  run_turns [] p = p
  run_turns (t ∷ turns) p = run_turns turns (turn t p)
