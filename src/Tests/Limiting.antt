-- ===== src/Tests/Limiting.antt =====
-- Workers that share the limiter of ingestion/rate_limiter.py.
use tft_stats_analytics.Base.{◌+◌, ◌≤◌, List, [], ◌∷◌, arith}
use tft_stats_analytics.Ingestion.RateLimiter.{
  RateLimiter, Step, tried, refilled, run_steps, run_steps-IsWithin,
}

abbrev two_a_second : RateLimiter
two_a_second = record { tokens = 2; rate = 2 }

abbrev schedule : List Step
schedule = tried ∷ tried ∷ tried ∷ refilled ∷ tried ∷ []

run_steps-IsWithin_example :
    ((run_steps schedule two_a_second).0.tokens ≤ 2)
    × ((run_steps schedule two_a_second).1 + (run_steps schedule two_a_second).0.tokens ≤ 4)
run_steps-IsWithin_example = run_steps-IsWithin schedule two_a_second (omega arith)
