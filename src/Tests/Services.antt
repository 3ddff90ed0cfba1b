-- ===== src/Tests/Services.antt =====
-- A round of the processor with the gapped buffer.
use tft_stats_analytics.Base.{◌<◌, ◌⊎◌, ◌≡◌, List, [], ◌∷◌, arith}
use tft_stats_analytics.Base.Fixed.{fixed}
use tft_stats_analytics.Base.Sample.{numpy}
use tft_stats_analytics.Proto.{StatEntry}
use tft_stats_analytics.Processor.Aggregator.{new_aggregator, process_match}
use tft_stats_analytics.Processor.Service.{
  WriteReply, acked, Processor, Turn, arrives, rounds, emitted, flush_processor, run_turns, round,
  aggregate_ready, take_incoming,
}
use tft_stats_analytics.Processor.Service.Rounds.{in_flight, in_flight-round, round_below_threshold}
use tft_stats_analytics.Tests.Samples.{gapped, event_from}

abbrev node : Processor
node = record {
  node_id = "processor";
  flush_interval = 60;
  flush_match_threshold = 1;
  incoming = (12, event_from "ingest" 2) ∷ [];
  reorder = gapped;
  aggregator = new_aggregator;
  merged_clock = [];
  flush_seq = 0;
  last_flush = 0;
  entries_written = 0;
}

abbrev always : StatEntry fixed.F → WriteReply
always e = acked

-- The node when it has aggregated a match of another producer.
abbrev fed : Processor
fed = record node {
  aggregator = process_match (event_from "ingest" 1) new_aggregator;
  merged_clock = ("ingest", 1) ∷ [];
}

abbrev later_turns : List Turn
later_turns = arrives 13 (event_from "ingest" 3) ∷ rounds 14 ∷ []

abbrev statistics : Processor → List (StatEntry fixed.F)
statistics p = emitted fixed numpy p

abbrev fed_later : Processor
fed_later = run_turns fixed numpy always later_turns (flush_processor fixed numpy always 12 fed)

in_flight-round_example : in_flight (aggregate_ready 12 (take_incoming node)) ≡ in_flight node
in_flight-round_example = in_flight-round 12 node

round_below_threshold_example :
    ((round fixed numpy always 12 node).aggregator.matches_seen < 1)
    × (((round fixed numpy always 12 node).aggregator.matches_seen ≡ 0)
        ⊎ (in_flight (round fixed numpy always 12 node) ≡ in_flight node))
round_below_threshold_example = round_below_threshold fixed numpy always 12 node (omega arith)
