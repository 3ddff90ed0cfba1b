-- ===== src/Api/Service/Feed.antt =====
-- The alert feed of api/service.py: a deque of at most 500 alerts, the latest one first. What an
-- alert is beside its timestamp does not matter here; a payload that is no JSON is passed over.
use tft_stats_analytics.Base.{
  ℕ, zero, suc, ◌+◌, ◌-◌, ◌*◌, ◌≤◌, ◌≡◌, refl, ap, ◌∙◌, Option, none, some, List, [], ◌∷◌, arith,
  take, leb, keep_if, All, All-keep_if,
}

module _ {A : Type 0} (timestamp : A → ℕ) where
  -- `appendleft` on the full deque drops the last alert.
  unfoldable pub append_left : A → List A → List A
  append_left alert feed = take 500 (alert ∷ feed)

  -- The loop over the subscription.
  unfoldable pub feed_all : List (Option A) → List A → List A
  unfolding append_left
  feed_all [] feed = feed
  feed_all (none ∷ payloads) feed = feed_all payloads feed
  feed_all (some alert ∷ payloads) feed = feed_all payloads (append_left alert feed)

  -- `get_anomalies`, at a time in milliseconds; before the first window nothing is cut off.
  unfoldable pub get_anomalies : ℕ → ℕ → List A → List A
  get_anomalies now window_hours feed =
      keep_if (λ a. leb (now - window_hours * 3600 * 1000) (timestamp a)) feed

  -- The feed without a bound.
  abbrev pub unbounded : List (Option A) → List A → List A
  unbounded [] feed = feed
  unbounded (none ∷ payloads) feed = unbounded payloads feed
  unbounded (some alert ∷ payloads) feed = unbounded payloads (alert ∷ feed)

  take-take : (n : ℕ) (xs : List A) → take n (take n xs) ≡ take n xs
  take-take zero xs = refl
  take-take (suc n) [] = refl
  take-take (suc n) (x ∷ xs) = ap (◌∷◌ x) (take-take n xs)

  take-cons-take : (n : ℕ) (x : A) (xs : List A) → take n (x ∷ take n xs) ≡ take n (x ∷ xs)
  take-cons-take zero x xs = refl
  take-cons-take (suc n) x xs = ap (◌∷◌ x) (take-take_suc n xs)
    where
      take-take_suc : (m : ℕ) (ys : List A) → take m (take (suc m) ys) ≡ take m ys
      take-take_suc zero ys = refl
      take-take_suc (suc m) [] = refl
      take-take_suc (suc m) (y ∷ ys) = ap (◌∷◌ y) (take-take_suc m ys)

  feed_all-take :
      (payloads : List (Option A)) (feed : List A)
      → feed_all payloads (take 500 feed) ≡ take 500 (unbounded payloads feed)
  unfolding feed_all append_left
  feed_all-take [] feed = refl
  feed_all-take (none ∷ payloads) feed = feed_all-take payloads feed
  feed_all-take (some alert ∷ payloads) feed =
      ap (feed_all payloads) (take-cons-take 500 alert feed) ∙ feed_all-take payloads (alert ∷ feed)

  -- Whatever payloads came, the feed is the first 500 alerts of the one without a bound, the latest
  -- first, and every alert that is served is of the window.
  pub get_anomalies-IsRecent :
      (payloads : List (Option A)) (now window_hours : ℕ)
      → (feed_all payloads [] ≡ take 500 (unbounded payloads []))
        × All
            (λ a. now ≤ timestamp a + window_hours * 3600000)
            (get_anomalies now window_hours (feed_all payloads []))
  unfolding get_anomalies
  get_anomalies-IsRecent payloads now window_hours = (
    feed_all-take payloads [],
    All-keep_if (λ a. now ≤ timestamp a + window_hours * 3600000)
        (λ a. leb (now - window_hours * 3600 * 1000) (timestamp a)) (feed_all payloads [])
        (λ a h. ground arith),
  )
