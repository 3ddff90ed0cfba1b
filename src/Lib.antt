-- ===== src/Lib.antt =====
-- TFT_Stats_Analytics: the Python services that turn a stream of match events into statistics of
-- champions, items, augments and compositions, and serve them.
--
-- The parts and how they interact. Ingestion publishes match events with a vector clock. The
-- processor (processor/main.py) takes them off a queue, puts them in causal order with the reorder
-- buffer (processor/reorder.py), collects placements in the aggregator (processor/aggregator.py) and
-- from time to time writes the statistics of the aggregator to the meta store. The anomaly service
-- (anomaly/main.py) scans the meta store and publishes the entries whose win rate has risen out of
-- its rolling window (anomaly/detector.py). The API guards its routes (api/security.py), caches scans
-- (api/cache.py), aggregates them per entity (api/service.py) and builds player profiles (api/riot.py).
--
-- The files, with what they model:
--   Proto                  the messages of proto/tft.proto as records
--   TftData, TftData/*     the tables of common/tft_data.py
--   RiotPayload            the JSON of the Riot API, as far as the code reads it
--   Ingestion/RateLimiter  `RateLimiter` of ingestion/rate_limiter.py
--   Ingestion/RiotClient   `RiotClient` of ingestion/riot_client.py: `_get` on fuel, and the calls on
--                          it; in Normalize `normalize`
--   Ingestion/Ingestor     `SeqCounter`, `publish_match` and `process_real` of ingestion/main.py; in
--                          Queue the order in which a round serves the tasks
--   Ingestion/Fleet        `worker` and `process_synthetic`: the workers take turns; in Delivery they
--                          stand together with the reorder buffer
--   Ingestion/Synthetic    `generate_match` of ingestion/synthetic.py
--   Processor/Reorder      `ReorderBuffer`: `push`, `pop_ready`; the loop is `drain` on fuel
--   Processor/Aggregator   `StatAggregator`: `process_match`, `process_batch`; in Label
--                          `composition_label`, in Flush `flush`
--   Processor/Service      `Processor`: `_merge_clock`, `_maybe_flush`, `_flush`, a round of `run`
--   Processor/Subscriber   `OffsetStore`, and the thread of `_subscribe_partition`
--   Anomaly/Detector       `AnomalyDetector.check`
--   Anomaly/Service        `AnomalyService.run_once`
--   Api/Security/Window    `_SlidingWindow.allow`
--   Api/Security/Daily     `_DailyCap.allow`
--   Api/Security/Params    `clean_param`, `validate_riot_id`, `clamp`
--   Api/Security/Middleware  `rate_limit_middleware`, up to the response headers
--   Api/Cache              `TTLCache`
--   Api/Service            `aggregate_by_entity`, `list_entities`, `get_entity`; in Compare
--                          `tier_comparison` and `patch_history`, in Gap `rank_gap`, in Pairs
--                          `champion_item_pairs`, in Players `player_analysis` and `suggest` of
--                          api/riot.py, in Feed the alert feed
--   Api/Routes             the list and entity routes of api/main.py, `_scan`, `_select_tiers`
--   Api/Riot/Client        `RiotTFT.route`, `_get`, the clamp of `match_ids`
--   Api/Riot/Units, Match  `_parse_match`
--   Api/Riot/Stats         the aggregates of `build_player_profile`
--   Api/Riot/Standing      `_rank_from_league`, the peak rank
--   Api/Riot/Profile       `build_player_profile`, `register`
--   Api/Riot/Rounds        `_stage_round`
--   Api/Riot/Rank          `rank_value`, `record_rank`
--   Base, Base/*           numbers, lists, texts, orders, Python's dict, sort and heapq, results that
--                          may be exceptions; floats and NumPy as interfaces (Float, NumPy), with an
--                          instance on six decimals (Fixed, Sample)
--   Tests/*                the theorems on concrete inputs
-- The children of a component hold its theorems.
--
-- Conventions. State is a record that an operation takes and returns. A clock reading is an argument,
-- as is what a remote service answers. A dict is an association list in insertion order. Sequence
-- numbers, counts and placements are natural numbers; Python's integers have no width, and the int32
-- and int64 fields of the messages only carry values that the services count up from 0. Floats are a
-- parameter with the few laws of IEEE 754 that the theorems use.
--
-- Fuel. `drain` runs for one round more than the buffer has events, which is enough, since every
-- round but the last shortens it (drained-HasEnded). `_get` of the ingestion's client asks again for
-- as long as the server answers 429; fuel above the number of these answers is enough (get-ends). The
-- API's `_get` calls itself once at most, so fuel for two runs is enough (get-eq). The sift loops of
-- heapq get the place or the length of the list, which they cannot outlast.
--
-- Not modelled: the Go services (metastore, broker, gossip, hasher), which are reached over gRPC;
-- the start of threads, the metrics and the settings of the services; the other routes of
-- api/main.py, which clean their parameters and call one query; the dashboard; the scripts.
pub mod Base
pub mod Proto
pub mod TftData
pub mod RiotPayload
pub mod Ingestion
pub mod Processor
pub mod Anomaly
pub mod Api
pub mod Tests
