-- ===== src/Processor/Aggregator/Bounds.antt =====
-- The totals of processor/aggregator.py bound the samples of an item or a composition, so that
-- their play rates are at most 1 without the clamp.
use tft_stats_analytics.Base.{
  ℕ, zero, suc, ◌+◌, ◌≤◌, ◌<◌, String, ◌≡◌, refl, ap, ◌∙◌, List, [], ◌∷◌, arith, length,
  length-append, replicate,
}
use tft_stats_analytics.Base.Dict.{get_or, get_or-insert, insert}
use tft_stats_analytics.Base.Float.{Float}
use tft_stats_analytics.Proto.{PlayerResult, MatchEvent}
use tft_stats_analytics.Processor.Aggregator.{
  Segment, EntityKey, StatAggregator, segment_eq, segment_beq, segment_beq_iff, samples, key_of,
  add_players, segment_of, process_match, process_batch, new_aggregator,
}
use tft_stats_analytics.Processor.Aggregator.Flush.{raw_play_rate, play_rate_of}
use tft_stats_analytics.Processor.Aggregator.Occurs.{gate, occurrences}
use tft_stats_analytics.Processor.Aggregator.Samples.{recorded, samples-process_match}

length-replicate : (n a : ℕ) → length (replicate n a) ≡ n
length-replicate zero a = refl
length-replicate (suc n) a = omega (arith, length-replicate n a)

-- A kind of entity of which a board shows each at most once.
abbrev pub IsOncePerBoard : String → Type 0
IsOncePerBoard entity_type =
    (segment : Segment) (entity_id : String) (player : PlayerResult)
    → occurrences (key_of segment entity_type entity_id) player ≤ 1

pub item-IsOncePerBoard : IsOncePerBoard "item"
item-IsOncePerBoard segment entity_id player = ground arith

pub composition-IsOncePerBoard : IsOncePerBoard "composition"
composition-IsOncePerBoard segment entity_id player = ground arith

length-recorded-le :
    (segment : Segment) (k : EntityKey) (players : List PlayerResult)
    → ((player : PlayerResult) → occurrences k player ≤ 1)
    → length (recorded segment k players) ≤ gate (segment_beq segment k.segment) (length players)
length-recorded-le segment k [] once = ground arith
length-recorded-le segment k (player ∷ players) once = ground (
  arith,
  once player,
  length-recorded-le segment k players once,
  length-append
      (replicate (gate (segment_beq segment k.segment) (occurrences k player)) player.placement)
      (recorded segment k players),
  length-replicate (gate (segment_beq segment k.segment) (occurrences k player)) player.placement,
)

get_or-bump :
    (segment s : Segment) (m : List (Segment × ℕ)) (n : ℕ)
    → get_or 0 s (insert segment (get_or 0 segment m + 1) m) + gate (segment_beq segment s) n
      ≡ get_or 0 s m + gate (segment_beq segment s) (suc n)
get_or-bump segment s m n =
    ground (arith, get_or-insert 0 segment s (get_or 0 segment m + 1) m, segment_beq_iff segment s)

totals-add_players :
    (segment s : Segment) (players : List PlayerResult) (agg : StatAggregator)
    → get_or 0 s (add_players segment players agg).totals
      ≡ get_or 0 s agg.totals + gate (segment_beq segment s) (length players)
unfolding add_players
totals-add_players segment s [] agg = ground arith
totals-add_players segment s (player ∷ players) agg =
    totals-add_players segment s players _ ∙ get_or-bump segment s agg.totals (length players)

-- No entity of the kind has more samples in a segment than boards were counted there.
abbrev pub IsBounded : String → StatAggregator → Type 0
IsBounded entity_type agg =
    (segment : Segment) (entity_id : String)
    → length (samples (key_of segment entity_type entity_id) agg.buffers)
      ≤ get_or 0 segment agg.totals

process_match-IsBounded :
    (entity_type : String) (event : MatchEvent) (agg : StatAggregator)
    → IsOncePerBoard entity_type
    → IsBounded entity_type agg
    → IsBounded entity_type (process_match event agg)
unfolding process_match
process_match-IsBounded entity_type event agg once bounded segment entity_id =
    let k = key_of segment entity_type entity_id in
    omega (
      arith,
      bounded segment entity_id,
      ap length (samples-process_match event k agg),
      length-append (samples k agg.buffers) (recorded (segment_of event) k event.players),
      length-recorded-le (segment_of event) k event.players (once segment entity_id),
      totals-add_players (segment_of event) segment event.players agg,
    )

-- For items and for compositions alike: if no entity of the kind has more samples in a segment than
-- boards were counted there, this still holds after a batch of matches.
pub process_batch-IsBounded :
    (entity_type : String) (ms : List MatchEvent) (agg : StatAggregator)
    → IsOncePerBoard entity_type
    → IsBounded entity_type agg
    → IsBounded entity_type (process_batch ms agg)
unfolding process_batch
process_batch-IsBounded entity_type [] agg once bounded = bounded
process_batch-IsBounded entity_type (m ∷ ms) agg once bounded =
    process_batch-IsBounded entity_type ms (process_match m agg) once
      (process_match-IsBounded entity_type m agg once bounded)

pub new_aggregator-IsBounded : (entity_type : String) → IsBounded entity_type new_aggregator
unfolding new_aggregator get_or
new_aggregator-IsBounded entity_type segment entity_id = omega arith

unclamped :
    (fl : Float) (n total : ℕ)
    → 0 < n
    → n ≤ total
    → play_rate_of fl n total ≡ fl.div (fl.of_nat n) (fl.of_nat total)
unfolding play_rate_of raw_play_rate
unclamped fl n total h le =
    ground (arith, fl.div_mono n total total le (omega arith), fl.div_self total (omega arith))

-- From an empty aggregator, after any batch, an item or composition with samples has a play rate
-- that the clamp of `flush` leaves as it is: the quotient of its samples by the boards counted.
pub play_rate_unclamped :
    (fl : Float) (entity_type : String) (ms : List MatchEvent) (segment : Segment)
    (entity_id : String)
    → IsOncePerBoard entity_type
    → 0
      < length
          (samples (key_of segment entity_type entity_id) (process_batch ms new_aggregator).buffers)
    → play_rate_of fl
        (length (
          samples (key_of segment entity_type entity_id) (process_batch ms new_aggregator).buffers))
        (get_or 0 segment (process_batch ms new_aggregator).totals)
      ≡ fl.div
          (fl.of_nat (
            length (
              samples
                (key_of segment entity_type entity_id)
                (process_batch ms new_aggregator).buffers)))
          (fl.of_nat (get_or 0 segment (process_batch ms new_aggregator).totals))
play_rate_unclamped fl entity_type ms segment entity_id once sampled = unclamped fl _ _ sampled (
    process_batch-IsBounded entity_type ms new_aggregator once
      (new_aggregator-IsBounded entity_type) segment entity_id)
