-- ===== src/Tests/Statistics.antt =====
-- The aggregator on a match with one board.
use tft_stats_analytics.Base.{◌≡◌, Bool, true, [], ◌∷◌, ◌++◌, All, length, sum_of}
use tft_stats_analytics.Base.Fixed.{fixed}
use tft_stats_analytics.Base.Sample.{numpy}
use tft_stats_analytics.Processor.Aggregator.{
  EntityKey, StatAggregator, samples, key_of, process_match, new_aggregator, segment_eq,
}
use tft_stats_analytics.Processor.Aggregator.Flush.{flush, flush-IsSound, flush_conserves, IsSound}
use tft_stats_analytics.Processor.Aggregator.Samples.{samples-process_match}
use tft_stats_analytics.Tests.Samples.{gold, event_from}

abbrev one_match : StatAggregator
unfolding process_match
one_match = process_match (event_from "ingest" 1) new_aggregator

abbrev every : EntityKey → Bool
every key = true

flush-IsSound_example :
    All (IsSound fixed numpy (("node", 1) ∷ [])) (flush fixed numpy (("node", 1) ∷ []) one_match).1
flush-IsSound_example = flush-IsSound fixed numpy (("node", 1) ∷ []) one_match

flush_conserves_example :
    (sum_of (λ e. e.sample_size) (flush fixed numpy [] one_match).1
      ≡ sum_of (λ b. length b.1) one_match.buffers)
    × ((flush fixed numpy [] one_match).0 ≡ new_aggregator)
flush_conserves_example = flush_conserves fixed numpy every [] one_match

samples-process_match_example :
    samples
      (key_of gold "champion" "TFT_Ahri")
      (process_match (event_from "ingest" 2) one_match).buffers
    ≡ samples (key_of gold "champion" "TFT_Ahri") one_match.buffers ++ (1 ∷ [])
samples-process_match_example =
    samples-process_match (event_from "ingest" 2) (key_of gold "champion" "TFT_Ahri") one_match
