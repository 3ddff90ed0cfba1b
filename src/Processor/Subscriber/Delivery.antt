-- ===== src/Processor/Subscriber/Delivery.antt =====
-- Which messages of a partition the subscriber thread of processor/main.py puts on the queue.
use tft_stats_analytics.Base.{
  ℕ, ◌+◌, String, refl, Bool, ◌||◌, false, List, [], ◌∷◌, arith, All, sum_of,
}
use tft_stats_analytics.Base.Dict.{string_eq}
use tft_stats_analytics.Proto.{MatchEvent}
use tft_stats_analytics.Processor.Subscriber.{
  OffsetStore, load, Subscriber, Signal, message, lost, elsewhere, subscribe, start, step, run,
}
use tft_stats_analytics.Processor.Subscriber.Tail.{
  IsApart, IsTailing, trimmed_at, receive-IsTailing, subscribe-IsTailing, elsewhere-IsTailing,
  IsTailing-same,
}

abbrev pub losses : Signal → ℕ
losses lost = 1
losses _ = 0

-- The thread passed over the offset during the run, because the broker had dropped it by then.
unfoldable pub passed_over : String → (ℕ → MatchEvent) → List Signal → Subscriber → ℕ → Bool
passed_over partition log [] s o = false
passed_over partition log (signal ∷ signals) s o =
    trimmed_at signal s o || passed_over partition log signals (step partition log signal s) o

module _ (partition : String) (log : ℕ → MatchEvent) (lo : ℕ) where
  step-IsTailing :
      (signal : Signal) (n : ℕ) (gone : ℕ → Bool) (s : Subscriber)
      → IsApart partition signal
      → IsTailing partition log lo n gone s
      → IsTailing partition log lo
          (n + losses signal)
          (λ o. gone o || trimmed_at signal s o)
          (step partition log signal s)
  unfolding step
  step-IsTailing (message base) n gone s apart v =
      IsTailing-same partition log lo n (n + 0) (λ o. gone o || trimmed_at (message base) s o)
        (λ o. gone o || trimmed_at (message base) s o) _ (omega arith) (λ o. refl)
        (receive-IsTailing partition log lo base n gone s v)
  step-IsTailing lost n gone s apart v =
      IsTailing-same partition log lo (n + 1) (n + 1) gone (λ o. gone o || false) _ refl
        (λ o. ground arith) (subscribe-IsTailing partition log lo n gone s v)
  step-IsTailing (elsewhere other offset) n gone s apart v =
      IsTailing-same partition log lo n (n + 0) gone (λ o. gone o || false) _ (omega arith)
        (λ o. ground arith) (elsewhere-IsTailing partition log lo n gone s other offset apart v)

  run-from :
      (signals : List Signal) (n : ℕ) (gone : ℕ → Bool) (s : Subscriber)
      → All (IsApart partition) signals
      → IsTailing partition log lo n gone s
      → IsTailing partition log lo
          (n + sum_of losses signals)
          (λ o. gone o || passed_over partition log signals s o)
          (run partition log signals s)
  unfolding run passed_over
  run-from [] n gone s apart v =
      IsTailing-same partition log lo n (n + 0) gone (λ o. gone o || false) s (omega arith)
        (λ o. ground arith) v
  run-from (signal ∷ signals) n gone s apart v =
      let s' = step partition log signal s in
      let gone' : ℕ → Bool = λ o. gone o || trimmed_at signal s o in
      IsTailing-same partition log lo (n + losses signal + sum_of losses signals)
        (n + sum_of losses (signal ∷ signals))
        (λ o. gone' o || passed_over partition log signals s' o)
        (λ o. gone o || passed_over partition log (signal ∷ signals) s o) _ (omega arith)
        (λ o. ground arith)
        (run-from signals (n + losses signal) gone' s' apart.1
          (step-IsTailing signal n gone s apart.0 v))

-- In any order of messages, lost sessions and saves for other partitions, whose files have other
-- names, a thread that starts on the saved offset puts every message from there up to its next one on
-- the queue, as the log has it, except those that the broker had dropped before the thread came to
-- them; each lost session repeats at most 50 messages; and the saved offset is not ahead of the next
-- message, so a restart skips only messages that are on the queue or were dropped.
pub run-IsTailing :
    (partition : String) (log : ℕ → MatchEvent) (files : OffsetStore) (signals : List Signal)
    → All (IsApart partition) signals
    → IsTailing partition log
        (load partition files)
        (sum_of losses signals)
        (passed_over partition log signals (start partition log files))
        (run partition log signals (start partition log files))
unfolding start subscribe
run-IsTailing partition log files signals apart =
    let lo = load partition files in
    let s = start partition log files in
    let first : IsTailing partition log lo 0 (λ o. false) s = record {
      complete = λ o above below kept. absurd (omega arith);
      faithful = tt;
      began = omega arith;
      not_ahead = omega arith;
      not_behind = omega arith;
      marked = (omega arith, omega arith);
      repeated = omega arith;
    } in
    IsTailing-same partition log lo (0 + sum_of losses signals) (sum_of losses signals)
      (λ o. false || passed_over partition log signals s o) (passed_over partition log signals s) _
      (omega arith) (λ o. refl) (run-from partition log lo signals 0 (λ o. false) s apart first)
