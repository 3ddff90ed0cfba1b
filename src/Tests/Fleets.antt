-- ===== src/Tests/Fleets.antt =====
-- Two workers that publish out of order.
use tft_stats_analytics.Base.{
  ℕ, ◌≤◌, String, ◌≡◌, refl, Bool, true, List, [], ◌∷◌, map, arith, take,
}
use tft_stats_analytics.Base.Count.{count}
use tft_stats_analytics.Base.Fixed.{fixed}
use tft_stats_analytics.Proto.{MatchEvent}
use tft_stats_analytics.Processor.Reorder.{ReorderBuffer, pop_ready}
use tft_stats_analytics.Processor.Reorder.Conserve.{buffered}
use tft_stats_analytics.Processor.Reorder.CatchUp.{is_event}
use tft_stats_analytics.Ingestion.Ingestor.{next_seq, publish_match}
use tft_stats_analytics.Ingestion.Synthetic.{Rng}
use tft_stats_analytics.Ingestion.Fleet.{
  Config, Turn, serves, makes, publishes, Fleet, run_turns, started, turn, take_task, make_match,
  end_match,
}
use tft_stats_analytics.Ingestion.Fleet.Delivery.{holds, IsDelivered, synthetic_delivered}
use tft_stats_analytics.Tests.Samples.{buffered_at}

-- A generator that always draws the first.
abbrev first_drawn : Rng fixed.F
first_drawn = record {
  State = ℕ;
  randint = λ low high s. (low, s);
  pick = λ a b s. (a.0, s);
  choice = λ x xs s. (x, s);
  sample = λ xs n s. (take n xs, s);
  gauss = λ s. (fixed.of_nat 0, s);
  uuid = λ n s. ("0", s);
}

abbrev first_patch : List String → List ℕ → ℕ → String × ℕ
first_patch [] weights s = ("", s)
first_patch (patch ∷ patches) weights s = (patch, s)

abbrev takes_any : MatchEvent → Bool
takes_any event = true

takes_all : (event : MatchEvent) → takes_any event ≡ true
takes_all event = refl

abbrev config : Config
config = record { node_id = "ingest"; patches = "14.1" ∷ []; matches_per_task = 1 }

-- The match of the second worker, with the number 2, is published first.
abbrev crossing : List Turn
crossing =
    serves 0 "NA" "GOLD"
    ∷ serves 1 "EUW" "IRON"
    ∷ makes 0 7
    ∷ makes 1 8
    ∷ publishes 1
    ∷ publishes 0
    ∷ []

abbrev md5_head : String → ℕ
md5_head text = 50

abbrev crossed : Fleet ℕ
crossed =
    run_turns fixed md5_head first_drawn first_patch takes_any config crossing
      (started fixed md5_head first_drawn first_patch takes_any config 2 0)

two_taken : 2 ≤ crossed.ingestor.seq
unfolding run_turns turn take_task make_match end_match next_seq publish_match started
two_taken = omega arith

none_held : (s : ℕ) → s ≤ 2 → count (holds "ingest" s) crossed.workers ≡ 0
unfolding run_turns turn take_task make_match end_match next_seq publish_match started
none_held s le = refl

-- The buffer with all that was published, as it came.
abbrev filled : ReorderBuffer
filled = record {
  timeout = 5;
  heap = map (buffered_at 1 9) crossed.ingestor.published;
  counter = 2;
  delivered = [];
  forced = 0;
}

buffered-map :
    (p : MatchEvent → Bool) (events : List MatchEvent)
    → count p events ≤ buffered p (map (buffered_at 1 9) events)
buffered-map p [] = omega arith
buffered-map p (e ∷ es) = omega (arith, buffered-map p es)

synthetic_delivered_example : IsDelivered "ingest" 2 filled (pop_ready 12 filled)
synthetic_delivered_example =
    synthetic_delivered fixed md5_head first_drawn first_patch takes_any config takes_all 2 0
      crossing 2 12 filled two_taken none_held
      (λ s above le. buffered-map (is_event "ingest" s) crossed.ingestor.published)
