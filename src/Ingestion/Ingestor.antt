-- ===== src/Ingestion/Ingestor.antt =====
-- `SeqCounter` and the tasks of `Ingestor` in ingestion/main.py. What the Riot client answers
-- and the broker's answer to a publication are parameters; metrics are left out.
-- An exception of the client ends a task where the given payloads end.
pub mod Numbers
pub mod Queue
use tft_stats_analytics.Base.{
  ℕ, zero, suc, ◌+◌, ◌^◌, String, Bool, Option, none, some, List, [], ◌∷◌, ◌++◌, take,
  if◌then◌else◌,
}
use tft_stats_analytics.Base.Result.{Result, ok, err}
use tft_stats_analytics.Proto.{MatchEvent}
use tft_stats_analytics.RiotPayload.{RawMatch}
use tft_stats_analytics.Ingestion.RiotClient.{Raised}

-- The counter, and what the broker has taken, in order.
pub record Ingestor : Type 0 where
  pub seq : ℕ
  pub published : List MatchEvent

-- `SeqCounter.next`
unfoldable pub next_seq : Ingestor → Ingestor × ℕ
next_seq s = (record s { seq = s.seq + 1 }, s.seq + 1)

-- How a task ends: with its loop, or by an exception, which the worker catches. Either way the state
-- that it reached stays.
pub data Ending : Type 0 where
  finished failed : Ending

-- `patch_weights`: 1, 2, 4, …
unfoldable pub patch_weights : ℕ → List String → List ℕ
patch_weights i [] = []
patch_weights i (patch ∷ patches) = 2 ^ i ∷ patch_weights (i + 1) patches

module _ (accepts : MatchEvent → Bool) where
  -- `publish_match`
  unfoldable pub publish_match : MatchEvent → Ingestor → Ingestor × Ending
  publish_match event s =
      if accepts event
      then (record s { published = s.published ++ (event ∷ []) }, finished)
      else (s, failed)

  -- A step of a task after one that did not raise.
  abbrev pub and_then : Ingestor × Ending → (Ingestor → Ingestor × Ending) → Ingestor × Ending
  and_then (s, finished) k = k s
  and_then (s, failed) k = (s, failed)

  -- What the worker does with the normalized match: `None` is passed over.
  abbrev pub publish_result : Result Raised (Option MatchEvent) → Ingestor → Ingestor × Ending
  publish_result (err e) s = (s, failed)
  publish_result (ok none) s = (s, finished)
  publish_result (ok (some event)) s = publish_match event s

  -- One match id: without a payload nothing happens, and otherwise a number is taken first.
  unfoldable pub process_match_id :
      (RawMatch → ℕ → Result Raised (Option MatchEvent))
      → Option RawMatch
      → Ingestor
      → Ingestor × Ending
  unfolding publish_match next_seq
  process_match_id normalize none s = (s, finished)
  process_match_id normalize (some raw) s =
      publish_result (normalize raw (next_seq s).1) (next_seq s).0

  unfoldable pub process_matches :
      (RawMatch → ℕ → Result Raised (Option MatchEvent))
      → List (Option RawMatch)
      → Ingestor
      → Ingestor × Ending
  unfolding process_match_id
  process_matches normalize [] s = (s, finished)
  process_matches normalize (raw ∷ raws) s =
      and_then (process_match_id normalize raw s) (process_matches normalize raws)

  -- `process_real`, on the payloads of each player's matches, of which it takes the first five.
  unfoldable pub process_real :
      (RawMatch → ℕ → Result Raised (Option MatchEvent))
      → List (List (Option RawMatch))
      → Ingestor
      → Ingestor × Ending
  unfolding process_matches
  process_real normalize [] s = (s, finished)
  process_real normalize (raws ∷ players) s =
      and_then (process_matches normalize (take 5 raws) s) (process_real normalize players)
