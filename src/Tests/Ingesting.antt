-- ===== src/Tests/Ingesting.antt =====
-- A producer: answers of Riot, their normalization, and generated matches.
use tft_stats_analytics.Base.{
  ℕ, zero, suc, ◌<◌, ◌≡◌, refl, subst, Bool, true, false, Option, none, some, [], ◌∷◌, arith,
  if◌then◌else◌, ◌==◌,
}
use tft_stats_analytics.Base.Result.{Result, ok, missing, null, given}
use tft_stats_analytics.Base.Text.{is_ascii_digit}
use tft_stats_analytics.Proto.{MatchEvent}
use tft_stats_analytics.RiotPayload.{RawPlayer, RawMatch}
use tft_stats_analytics.Processor.Reorder.CatchUp.{is_event}
use tft_stats_analytics.Ingestion.RiotClient.{Raised, Reply, body, throttled, get}
use tft_stats_analytics.Ingestion.RiotClient.Retry.{get-ends, IsThrottled, waits}
use tft_stats_analytics.Ingestion.RiotClient.Normalize.{normalize}
use tft_stats_analytics.Ingestion.RiotClient.Normalize.Shape.{is_err, normalize_raises}
use tft_stats_analytics.Ingestion.RiotClient.Normalize.Stamp.{IsStamped, normalize-IsStamped}
use tft_stats_analytics.Ingestion.Ingestor.{Ingestor, process_real}
use tft_stats_analytics.Ingestion.Ingestor.Numbers.{HasRun, process_real-HasRun}
use tft_stats_analytics.Tests.Samples.{event_from}

-- Throttled once, then answered.
abbrev busy : ℕ → Reply ℕ
busy zero = throttled 3
busy (suc n) = body 7

busy_first : (i : ℕ) → i < 1 → IsThrottled busy i
busy_first zero less = refl
busy_first (suc i) less = absurd (omega arith)

get-ends_example : get busy 5 ≡ some (record { answer = some 7; tokens = 2; slept = 3 })
unfolding waits
get-ends_example = get-ends busy 1 5 (some 7) busy_first refl (omega arith)

-- A payload of one player.
abbrev raw_player : RawPlayer
raw_player = record {
  puuid = given "p1";
  placement = given 1;
  level = given 8;
  last_round = missing;
  gold_left = missing;
  damage = missing;
  eliminations = missing;
  augments = null;
  units = given [];
  traits = missing;
}

abbrev payload : RawMatch
payload = record {
  info = given (record {
    game_version = given "Version 14.1.555";
    game_datetime = given 5;
    queue_id = missing;
    participants = given (raw_player ∷ []);
  });
  metadata = given (record { match_id = given "NA_1" });
}

-- Without its metadata.
abbrev headless : RawMatch
headless = record payload { metadata = null }

abbrev is_space : ℕ → Bool
is_space c = c == b' '

normalize_raises_example :
    is_err (normalize is_ascii_digit is_space headless "NA" "GOLD" "ingest" 4 9) ≡ true
normalize_raises_example =
    normalize_raises is_ascii_digit is_space "NA" "GOLD" "ingest" 4 9 headless

abbrev normalized : MatchEvent
normalized = record {
  match_id = "NA_1";
  region = "NA";
  patch = "14.1";
  tier = "GOLD";
  players =
      record { puuid = "p1"; placement = 1; units = []; augments = []; rounds_played = 0 } ∷ [];
  clock = ("ingest", 4) ∷ [];
  timestamp = 5;
}

normalize-IsStamped_example : IsStamped "NA" "GOLD" "ingest" 4 1 normalized
unfolding normalize
normalize-IsStamped_example =
    normalize-IsStamped is_ascii_digit is_space "NA" "GOLD" "ingest" 4 9 payload normalized refl

-- The second match normalizes to nothing.
abbrev normalize_some : RawMatch → ℕ → Result Raised (Option MatchEvent)
normalize_some raw seq = if seq == 2 then ok none else ok (some (event_from "ingest" seq))

abbrev takes : MatchEvent → Bool
takes event = true

normalize_some-stamps :
    (raw : RawMatch) (seq : ℕ) (e : MatchEvent)
    → normalize_some raw seq ≡ ok (some e)
    → is_event "ingest" seq e ≡ true
normalize_some-stamps raw seq e h = by_case (seq == 2) h
  where
    by_case :
        (b : Bool)
        → ◌≡◌ {A = Result Raised (Option MatchEvent)}
            (if b then ok none else ok (some (event_from "ingest" seq)))
            (ok (some e))
        → is_event "ingest" seq e ≡ true
    by_case true q = absurd (cc)
    by_case false q =
        let same : event_from "ingest" seq ≡ e = cc in
        subst (λ x. is_event "ingest" seq x ≡ true) same (ground arith)

abbrev fresh_ingestor : Ingestor
fresh_ingestor = record { seq = 0; published = [] }

process_real-HasRun_example :
    HasRun "ingest" fresh_ingestor
      (process_real takes normalize_some
        ((some payload ∷ none ∷ some payload ∷ some payload ∷ []) ∷ [])
        fresh_ingestor).0
process_real-HasRun_example =
    process_real-HasRun takes "ingest" normalize_some normalize_some-stamps
      ((some payload ∷ none ∷ some payload ∷ some payload ∷ []) ∷ []) fresh_ingestor
