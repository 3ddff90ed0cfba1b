-- ===== src/Api/Riot/Client/Settled.antt =====
-- How `_get` of api/riot.py ends.
use tft_stats_analytics.Base.{
  ℕ, zero, suc, ◌≤◌, ◌≡◌, refl, Bool, true, false, ◌||◌, Option, none, some, arith, ltb, ◌==◌,
  if◌then◌else◌, Bool-cases, inl, inr,
}
use tft_stats_analytics.Base.Result.{Result, ok, err}
use tft_stats_analytics.Api.Riot.Client.{
  Answer, body, http_error, unreachable, Failure, too_large, invalid_key, network, api, not_json,
  attempt, returned, retried, get, get_from, max_response_bytes,
}

module _ {A : Type 0} where
  abbrev pub of_content : Option A → Result Failure (Option A)
  of_content none = err not_json
  of_content (some a) = ok (some a)

  -- What an answer stands for when it is the last one.
  abbrev pub outcome : Answer A → Result Failure (Option A)
  outcome (body size content) =
      if ltb max_response_bytes size then err too_large else of_content content
  outcome (http_error code) =
      if code == 404
      then ok none
      else if code == 401 || code == 403
      then err invalid_key
      else err (api code)
  outcome unreachable = err network

  abbrev pub is_throttled : Answer A → Bool
  is_throttled (body size content) = false
  is_throttled (http_error code) = code == 429
  is_throttled unreachable = false

  attempt_last : (a : Answer A) → attempt true a ≡ returned (outcome a)
  unfolding attempt
  attempt_last (body size none) = ground arith
  attempt_last (body size (some c)) = ground arith
  attempt_last (http_error code) = ground arith
  attempt_last unreachable = refl

  attempt_first :
      (a : Answer A) → attempt false a ≡ (if is_throttled a then retried else returned (outcome a))
  unfolding attempt
  attempt_first (body size none) = ground arith
  attempt_first (body size (some c)) = ground arith
  attempt_first (http_error code) = ground arith
  attempt_first unreachable = refl

  -- With fuel for two runs, whatever the server answers to any number of requests, `_get` ends: it
  -- makes one request, or two if the first is answered with 429, and never a third. The last answer
  -- decides: a decoded body, nothing for 404, and an error for a body that is too large or does not
  -- decode, for 401 and 403, for any other status (a second 429 as well), and for no connection.
  pub get-eq :
      (server : ℕ → Answer A) (fuel : ℕ)
      → 2 ≤ fuel
      → get server fuel
        ≡ some
            (if is_throttled (server 0) then (outcome (server 1), 2) else (outcome (server 0), 1))
  unfolding get get_from
  get-eq server zero enough = absurd (omega arith)
  get-eq server (suc zero) enough = absurd (omega arith)
  get-eq server (suc (suc fuel)) enough = elim (Bool-cases (is_throttled (server 0))) [
    | inl e ↦ rw (get, get_from, attempt_first (server 0), e, attempt_last (server 1)) refl
    | inr e ↦ rw (get, get_from, attempt_first (server 0), e) refl
  ]
