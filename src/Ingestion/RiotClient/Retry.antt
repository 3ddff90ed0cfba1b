-- ===== src/Ingestion/RiotClient/Retry.antt =====
-- When `_get` of ingestion/riot_client.py ends.
use tft_stats_analytics.Base.{ℕ, zero, suc, ◌+◌, ◌<◌, ◌≡◌, refl, ◌∙◌, Option, some, arith, subst}
use tft_stats_analytics.Ingestion.RiotClient.{Reply, Next, done, again, next_of, get_from, get}

module _ {A : Type 0} (server : ℕ → Reply A) where
  abbrev pub seconds_of : Next A → ℕ
  seconds_of (done a) = 0
  seconds_of (again seconds) = seconds

  -- The seconds that the answers `n`, …, `n + k - 1` ask for.
  unfoldable pub waits : ℕ → ℕ → ℕ
  waits n zero = 0
  waits n (suc k) = seconds_of (next_of (server n)) + waits (n + 1) k

  get_from-done :
      (fuel n slept : ℕ) (a : Option A)
      → next_of (server n) ≡ done a
      → get_from server (suc fuel) n slept
        ≡ some (record { answer = a; tokens = n + 1; slept = slept })
  unfolding get_from
  get_from-done fuel n slept a e = rw (get_from, e) refl

  get_from-again :
      (fuel n slept seconds : ℕ)
      → next_of (server n) ≡ again seconds
      → get_from server (suc fuel) n slept ≡ get_from server fuel (n + 1) (slept + seconds)
  unfolding get_from
  get_from-again fuel n slept seconds e = rw (get_from, e) refl

  -- The answer `n` asks to wait.
  abbrev pub IsThrottled : ℕ → Type 0
  IsThrottled n = next_of (server n) ≡ again (seconds_of (next_of (server n)))

  get_from-ends :
      (k n slept fuel : ℕ) (a : Option A)
      → ((i : ℕ) → i < k → IsThrottled (n + i))
      → next_of (server (n + k)) ≡ done a
      → k < fuel
      → get_from server fuel n slept
        ≡ some (record { answer = a; tokens = n + k + 1; slept = slept + waits n k })
  unfolding waits
  get_from-ends k n slept zero a t e less = absurd (omega arith)
  get_from-ends zero n slept (suc fuel) a t e less =
      let now : next_of (server n) ≡ done a =
        subst (λ m. next_of (server m) ≡ done a) (omega arith) e in
      get_from-done fuel n slept a now ∙ ground arith
  get_from-ends (suc k) n slept (suc fuel) a t e less =
      let first : IsThrottled n = subst IsThrottled (omega arith) (t 0 (omega arith)) in
      let seconds : ℕ = seconds_of (next_of (server n)) in
      get_from-again fuel n slept seconds first
      ∙ get_from-ends k (n + 1) (slept + seconds) fuel a
          (λ i l. subst IsThrottled (omega arith) (t (suc i) (omega arith)))
          (subst (λ m. next_of (server m) ≡ done a) (omega arith) e) (omega arith)
      ∙ ground arith

  -- If the server answers the first `k` requests with 429 and then something else, `_get` returns,
  -- with fuel above `k`: the body, or nothing where the status is not 200; after `k + 1` tokens, and
  -- the sleeps that the `k` answers asked for.
  pub get-ends :
      (k fuel : ℕ) (a : Option A)
      → ((i : ℕ) → i < k → IsThrottled i)
      → next_of (server k) ≡ done a
      → k < fuel
      → get server fuel ≡ some (record { answer = a; tokens = k + 1; slept = waits 0 k })
  unfolding get
  get-ends k fuel a t e less =
      get_from-ends k 0 0 fuel a (λ i l. subst IsThrottled (omega arith) (t i l))
        (subst (λ m. next_of (server m) ≡ done a) (omega arith) e) less
      ∙ ground arith
