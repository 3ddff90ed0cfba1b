-- ===== src/Api/Cache.antt =====
-- `TTLCache` of api/cache.py. A call of `get_or_compute` takes the lock twice, so it is two steps
-- between which other calls may run: a look at the store, and after a miss the write of what was
-- computed, under the time that was read at the start. Times are ticks.
use tft_stats_analytics.Base.{
  ℕ, ◌+◌, ◌<◌, ◌≡◌, refl, subst, Option, none, some, List, [], ◌∷◌, arith, ltb, if◌then◌else◌,
  Bool-cases, inl, inr,
}
use tft_stats_analytics.Base.Dict.{Eq, lookup, insert, lookup-insert, beq_refl}

pub record Cache (K V : Type 0) : Type 0 where
  pub ttl : ℕ
  pub store : List (K × (ℕ × V))

abbrev pub fresh : {V : Type 0} → ℕ → ℕ → Option (ℕ × V) → Option V
fresh ttl now none = none
fresh ttl now (some (t, v)) = if ltb now (t + ttl) then some v else none

-- The writes of all threads, in the order in which they get the lock.
pub data Write (K V : Type 0) : Type 0 where
  filled : ℕ → K → V → Write K V
  cleared : Write K V

module _ {K V : Type 0} ⦃e : Eq K⦄ where
  -- The first locked block: a hit that is younger than the ttl.
  unfoldable pub probe : ℕ → K → Cache K V → Option V
  unfolding lookup
  probe now key c = fresh c.ttl now (lookup key c.store)

  -- The second locked block.
  unfoldable pub fill : ℕ → K → V → Cache K V → Cache K V
  unfolding insert
  fill now key value c = record c { store = insert key (now, value) c.store }

  -- A call that nothing interrupts, with what `compute` would return.
  unfoldable pub get_or_compute : ℕ → K → V → Cache K V → Cache K V × V
  unfolding probe fill
  get_or_compute now key computed c = elim (probe now key c) [
    | none ↦ (fill now key computed c, computed)
    | some v ↦ (c, v)
  ]

  -- `invalidate`
  unfoldable pub invalidate : Cache K V → Cache K V
  invalidate c = record c { store = [] }

  unfoldable pub run : List (Write K V) → Cache K V → Cache K V
  unfolding fill invalidate
  run [] c = c
  run (filled now key value ∷ ws) c = run ws (fill now key value c)
  run (cleared ∷ ws) c = run ws (invalidate c)

  probe-fill :
      (now later : ℕ) (key : K) (value : V) (c : Cache K V)
      → later < now + c.ttl
      → probe later key (fill now key value c) ≡ some value
  unfolding probe fill
  probe-fill now later key value c soon =
      rw (lookup-insert key key (now, value) c.store, beq_refl key) (ground arith)

  module _ (P : K → ℕ → V → Type 0) where
    -- Every write was of a value computed for its key by a call that began at its time, where `P`
    -- says so of a key, a time and a value.
    abbrev pub WritesHold : List (Write K V) → Type 0
    WritesHold [] = Unit
    WritesHold (filled now key value ∷ ws) = P key now value × WritesHold ws
    WritesHold (cleared ∷ ws) = WritesHold ws

    abbrev pub Holds : Cache K V → Type 0
    Holds c = (key : K) (t : ℕ) (v : V) → lookup key c.store ≡ some (t, v) → P key t v

    fill-Holds :
        (now : ℕ) (key : K) (value : V) (c : Cache K V)
        → P key now value
        → Holds c
        → Holds (fill now key value c)
    unfolding fill
    fill-Holds now key value c p h k t v found =
        let step : lookup k (insert key (now, value) c.store)
            ≡ (if e.beq key k then some (now, value) else lookup k c.store) =
          lookup-insert key k (now, value) c.store in
        elim (Bool-cases (e.beq key k)) [
          | inl q ↦
              let same_time : now ≡ t = ground arith in
              let same_value : value ≡ v = ground arith in
              let same_key : key ≡ k = (e.beq_iff key k).0 q in
              subst (λ j. P j t v) same_key
                (subst (P key t) same_value (subst (λ i. P key i value) same_time p))
          | inr q ↦ let kept : lookup k c.store ≡ some (t, v) = ground arith in h k t v kept
        ]

    run-Holds : (ws : List (Write K V)) (c : Cache K V) → WritesHold ws → Holds c → Holds (run ws c)
    unfolding run
    run-Holds [] c w h = h
    run-Holds (filled now key value ∷ ws) c w h =
        run-Holds ws (fill now key value c) w.1 (fill-Holds now key value c w.0 h)
    run-Holds (cleared ∷ ws) c w h = run-Holds ws (invalidate c) w cleared-Holds
      where
        cleared-Holds : Holds (invalidate c)
        cleared-Holds k t v found = absurd (unfold invalidate lookup in cc found)

    fresh_from :
        (ttl now : ℕ) (key : K) (entry : Option (ℕ × V)) (v : V)
        → ((t : ℕ) (w : V) → entry ≡ some (t, w) → P key t w)
        → fresh ttl now entry ≡ some v
        → (t : ℕ) × P key t v × (now < t + ttl)
    fresh_from ttl now key none v h served = absurd (cc)
    fresh_from ttl now key (some (t, w)) v h served = elim (Bool-cases (ltb now (t + ttl))) [
      | inl q ↦
          let same : w ≡ v = ground arith in (t, subst (P key t) same (h t w refl), ground arith)
      | inr q ↦ absurd (ground arith)
    ]

    -- Whatever the order in which the calls of all threads write and invalidate, a value served as a
    -- hit is one that was written for that key, by a call that began less than the ttl ago.
    pub probe_fresh :
        (ws : List (Write K V)) (c : Cache K V) (now : ℕ) (key : K) (v : V)
        → WritesHold ws
        → Holds c
        → probe now key (run ws c) ≡ some v
        → (t : ℕ) × P key t v × (now < t + (run ws c).ttl)
    unfolding probe
    probe_fresh ws c now key v w h served =
        fresh_from (run ws c).ttl now key (lookup key (run ws c).store) v
          (λ t x found. run-Holds ws c w h key t x found) served

  get_or_compute-miss :
      (now : ℕ) (key : K) (value : V) (c : Cache K V)
      → probe now key c ≡ none
      → get_or_compute now key value c ≡ (fill now key value c, value)
  unfolding get_or_compute
  get_or_compute-miss now key value c miss = rw (get_or_compute, miss) refl

  get_or_compute-hit :
      (now : ℕ) (key : K) (value served : V) (c : Cache K V)
      → probe now key c ≡ some served
      → get_or_compute now key value c ≡ (c, served)
  unfolding get_or_compute
  get_or_compute-hit now key value served c hit = rw (get_or_compute, hit) refl

  -- After a call at time `now`, a call for the same key less than the ttl later returns the same value
  -- and computes nothing, if the first one computed its value.
  pub get_or_compute_again :
      (now later : ℕ) (key : K) (first second : V) (c : Cache K V)
      → probe now key c ≡ none
      → later < now + c.ttl
      → get_or_compute later key second (get_or_compute now key first c).0
        ≡ (fill now key first c, first)
  get_or_compute_again now later key first second c miss soon =
      rw (get_or_compute-miss now key first c miss) (
        get_or_compute-hit later key second first (fill now key first c)
          (probe-fill now later key first c soon))
