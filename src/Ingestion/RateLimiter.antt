-- ===== src/Ingestion/RateLimiter.antt =====
-- `RateLimiter` of ingestion/rate_limiter.py. A worker's `acquire` tries until it gets a token, with
-- sleeps between the tries; each try and each refill takes the lock once, so a run of the process is
-- a sequence of tries and refills in the order in which they get it.
use tft_stats_analytics.Base.{
  ℕ, zero, suc, ◌+◌, ◌-◌, ◌*◌, ◌≤◌, min, ◌≡◌, Bool, true, false, List, [], ◌∷◌, arith, ltb,
  if◌then◌else◌, replicate,
}
use tft_stats_analytics.Base.Count.{bit}

pub record RateLimiter : Type 0 where
  pub tokens : ℕ
  pub rate : ℕ

unfoldable pub new_limiter : ℕ → RateLimiter
new_limiter rate = record { tokens = rate; rate = rate }

-- The locked block of `acquire`, and whether the worker returns.
unfoldable pub try_acquire : RateLimiter → RateLimiter × Bool
try_acquire r = if ltb 0 r.tokens then (record r { tokens = r.tokens - 1 }, true) else (r, false)

-- The locked block of `_refill_loop`.
unfoldable pub refill : RateLimiter → RateLimiter
refill r = record r { tokens = r.rate }

pub data Step : Type 0 where
  tried refilled : Step

-- The limiter after the steps, and how many tries got a token.
unfoldable pub run_steps : List Step → RateLimiter → RateLimiter × ℕ
unfolding try_acquire refill
run_steps [] r = (r, 0)
run_steps (tried ∷ ss) r =
    let first = try_acquire r in let rest = run_steps ss first.0 in (rest.0, bit first.1 + rest.1)
run_steps (refilled ∷ ss) r = run_steps ss (refill r)

abbrev pub refills : List Step → ℕ
refills [] = 0
refills (tried ∷ ss) = refills ss
refills (refilled ∷ ss) = refills ss + 1

tokens-try_acquire : (r : RateLimiter) → bit (try_acquire r).1 + (try_acquire r).0.tokens ≡ r.tokens
unfolding try_acquire
tokens-try_acquire r = ground arith

rate-try_acquire : (r : RateLimiter) → (try_acquire r).0.rate ≡ r.rate
unfolding try_acquire
rate-try_acquire r = ground arith

-- In any order of the workers' tries and the refills, if no more tokens than the rate are there at
-- first, then none are in the end, and the tries that got a token are at most those that were there
-- and the rate for every refill.
pub run_steps-IsWithin :
    (ss : List Step) (r : RateLimiter)
    → r.tokens ≤ r.rate
    → ((run_steps ss r).0.tokens ≤ r.rate)
      × ((run_steps ss r).1 + (run_steps ss r).0.tokens ≤ r.tokens + r.rate * refills ss)
unfolding run_steps
run_steps-IsWithin [] r h = (h, omega arith)
run_steps-IsWithin (tried ∷ ss) r h =
    let ih = run_steps-IsWithin ss (try_acquire r).0 in
    let spent = tokens-try_acquire r in let same = rate-try_acquire r in ground arith
run_steps-IsWithin (refilled ∷ ss) r h = let ih = run_steps-IsWithin ss (refill r) in ground arith

-- Without a refill as many of the tries get a token as there are tokens.
pub run_steps_granted :
    (n : ℕ) (r : RateLimiter) → (run_steps (replicate n tried) r).1 ≡ min n r.tokens
unfolding run_steps try_acquire
run_steps_granted zero r = omega arith
run_steps_granted (suc n) r = let ih = run_steps_granted n (try_acquire r).0 in ground arith
