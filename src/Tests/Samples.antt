-- ===== src/Tests/Samples.antt =====
-- Messages on which the theorems are tried: events of one producer, and their boards.
use tft_stats_analytics.Base.{ℕ, String, [], ◌∷◌}
use tft_stats_analytics.Proto.{BoardUnit, PlayerResult, MatchEvent, StatEntry}
use tft_stats_analytics.Base.Fixed.{fixed}
use tft_stats_analytics.Processor.Reorder.{HeapItem, ReorderBuffer}
use tft_stats_analytics.Processor.Aggregator.{Segment}

abbrev pub ahri : BoardUnit
ahri = record { character_id = "TFT_Ahri"; tier = 2; items = "Guinsoo" ∷ "Guinsoo" ∷ [] }

abbrev pub winner : PlayerResult
winner = record {
  puuid = "p1";
  placement = 1;
  units = ahri ∷ [];
  augments = "Trap" ∷ [];
  rounds_played = 33;
}

abbrev pub event_from : String → ℕ → MatchEvent
event_from node seq = record {
  match_id = "m";
  region = "NA";
  patch = "14.1";
  tier = "GOLD";
  players = winner ∷ [];
  clock = (node, seq) ∷ [];
  timestamp = 0;
}

abbrev pub gold : Segment
gold = record { patch = "14.1"; tier = "GOLD"; region = "NA" }

abbrev pub buffered_at : ℕ → ℕ → MatchEvent → HeapItem
buffered_at n arrival event = record { vc_total = n; counter = n; arrival = arrival; event = event }

-- The events 1 and 3 of a producer: event 2 has not come.
abbrev pub gapped : ReorderBuffer
gapped = record {
  timeout = 5;
  heap = buffered_at 1 10 (event_from "ingest" 1) ∷ buffered_at 3 11 (event_from "ingest" 3) ∷ [];
  counter = 2;
  delivered = [];
  forced = 0;
}

abbrev pub rate_entry : String → ℕ → StatEntry fixed.F
rate_entry tier n = record {
  entity_id = "TFT_Ahri";
  entity_type = "champion";
  patch = "14.1";
  region = "NA";
  tier = tier;
  win_rate = fixed.of_nat 1;
  avg_placement = fixed.of_nat 2;
  play_rate = fixed.of_nat 1;
  sample_size = n;
  clock = [];
}
