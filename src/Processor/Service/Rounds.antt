-- ===== src/Processor/Service/Rounds.antt =====
-- A round of the loop in processor/main.py: no match is lost between the queue and the aggregator,
-- and the aggregator stays below the flush threshold.
use tft_stats_analytics.Base.{
  ℕ, ◌+◌, ◌<◌, ◌≡◌, refl, ◌∙◌, ◌⊎◌, inl, inr, true, List, [], ◌∷◌, arith, length, length-take,
  length-drop, take, drop,
}
use tft_stats_analytics.Base.Count.{count-true}
use tft_stats_analytics.Base.Float.{Float}
use tft_stats_analytics.Base.NumPy.{NumPy}
use tft_stats_analytics.Proto.{MatchEvent, PlayerResult, StatEntry}
use tft_stats_analytics.Processor.Reorder.{ReorderBuffer, push, pop_ready, size}
use tft_stats_analytics.Processor.Reorder.Conserve.{pop_ready_conserves, push_adds}
use tft_stats_analytics.Processor.Aggregator.{
  StatAggregator, add_players, process_match, process_batch, new_aggregator, Segment, segment_of,
}
use tft_stats_analytics.Processor.Aggregator.Flush.{flush}
use tft_stats_analytics.Processor.Service.{
  Processor, WriteReply, Arrival, absorb, drain_limit, take_incoming, aggregate_ready,
  flush_processor, maybe_flush, round,
}

matches-add_players :
    (segment : Segment) (players : List PlayerResult) (agg : StatAggregator)
    → (add_players segment players agg).matches_seen ≡ agg.matches_seen
unfolding add_players
matches-add_players segment [] agg = refl
matches-add_players segment (player ∷ players) agg = matches-add_players segment players _

matches-process_batch :
    (ms : List MatchEvent) (agg : StatAggregator)
    → (process_batch ms agg).matches_seen ≡ agg.matches_seen + length ms
unfolding process_batch process_match
matches-process_batch [] agg = omega arith
matches-process_batch (m ∷ ms) agg = omega (
  arith,
  matches-process_batch ms (process_match m agg),
  matches-add_players (segment_of m) m.players agg,
)

size-push :
    (event : MatchEvent) (now : ℕ) (b : ReorderBuffer) → size (push event now b) ≡ size b + 1
unfolding size
size-push event now b = omega (
  arith,
  push_adds (λ _. true) event now b,
  count-true b.heap,
  count-true (push event now b).heap,
)

size-pop_ready :
    (now : ℕ) (b : ReorderBuffer) → length (pop_ready now b).1 + size (pop_ready now b).0 ≡ size b
unfolding size
size-pop_ready now b = omega (
  arith,
  pop_ready_conserves (λ _. true) now b,
  count-true (pop_ready now b).1,
  count-true (pop_ready now b).0.heap,
  count-true b.heap,
)

-- The matches that are queued, buffered, or aggregated since the last flush.
abbrev pub in_flight : Processor → ℕ
in_flight p = length p.incoming + size p.reorder + p.aggregator.matches_seen

absorbed :
    (arrivals : List Arrival) (p : Processor)
    → in_flight (absorb arrivals p) ≡ in_flight p + length arrivals
unfolding absorb
absorbed [] p = omega arith
absorbed ((now, event) ∷ arrivals) p =
    omega (arith, absorbed arrivals _, size-push event now p.reorder)

-- Up to the flush, a round moves matches from the queue through the reorder buffer to the
-- aggregator and loses none: as many are in flight as before.
pub in_flight-round :
    (now : ℕ) (p : Processor) → in_flight (aggregate_ready now (take_incoming p)) ≡ in_flight p
unfolding aggregate_ready take_incoming
in_flight-round now p =
    let q =
      absorb (take drain_limit p.incoming) (record p { incoming = drop drain_limit p.incoming }) in
    omega (
      arith,
      absorbed (take drain_limit p.incoming) (record p { incoming = drop drain_limit p.incoming }),
      length-take drain_limit p.incoming,
      length-drop drain_limit p.incoming,
      size-pop_ready now q.reorder,
      matches-process_batch (pop_ready now q.reorder).1 q.aggregator,
    )

threshold-absorb :
    (arrivals : List Arrival) (p : Processor)
    → (absorb arrivals p).flush_match_threshold ≡ p.flush_match_threshold
unfolding absorb
threshold-absorb [] p = refl
threshold-absorb ((now, event) ∷ arrivals) p = threshold-absorb arrivals _

threshold-round :
    (now : ℕ) (p : Processor)
    → (aggregate_ready now (take_incoming p)).flush_match_threshold ≡ p.flush_match_threshold
unfolding aggregate_ready take_incoming
threshold-round now p = threshold-absorb (take drain_limit p.incoming) _

-- Either nothing is flushed, or the aggregator is emptied.
maybe_flush_empties :
    (fl : Float) (np : NumPy fl) (write : StatEntry fl.F → WriteReply) (now : ℕ) (q : Processor)
    → 0 < q.flush_match_threshold
    → ((maybe_flush fl np write now q).aggregator.matches_seen < q.flush_match_threshold)
      × (((maybe_flush fl np write now q).aggregator.matches_seen ≡ 0)
          ⊎ (in_flight (maybe_flush fl np write now q) ≡ in_flight q))
unfolding maybe_flush flush_processor flush new_aggregator
maybe_flush_empties fl np write now q h = ground arith

-- With a positive flush threshold, a round leaves fewer matches in the aggregator than the
-- threshold; and it either leaves the aggregator empty or keeps every match in flight that was.
pub round_below_threshold :
    (fl : Float) (np : NumPy fl) (write : StatEntry fl.F → WriteReply) (now : ℕ) (p : Processor)
    → 0 < p.flush_match_threshold
    → ((round fl np write now p).aggregator.matches_seen < p.flush_match_threshold)
      × (((round fl np write now p).aggregator.matches_seen ≡ 0)
          ⊎ (in_flight (round fl np write now p) ≡ in_flight p))
unfolding round
round_below_threshold fl np write now p h =
    let q = aggregate_ready now (take_incoming p) in
    let same = threshold-round now p in
    let whole = in_flight-round now p in
    let r = maybe_flush_empties fl np write now q (omega arith) in
    (omega (arith, r.0), elim r.1 [ inl e ↦ inl e | inr e ↦ inr (e ∙ whole) ])
