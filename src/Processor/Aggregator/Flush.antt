-- ===== src/Processor/Aggregator/Flush.antt =====
-- `StatAggregator.flush` of processor/aggregator.py: the statistics that it emits, and the reset.
use tft_stats_analytics.Base.{
  ℕ, suc, ◌<◌, ◌≡◌, refl, ◌∙◌, ap, Bool, true, List, [], ◌∷◌, map, arith, leb, ◌==◌, if◌then◌else◌,
  length, sum_of, All, Bool-cases, inl, inr,
}
use tft_stats_analytics.Base.Count.{bit, count, count-le-length}
use tft_stats_analytics.Base.Dict.{get_or}
use tft_stats_analytics.Base.Float.{Float, less}
use tft_stats_analytics.Base.NumPy.{NumPy}
use tft_stats_analytics.Proto.{StatEntry, VectorClock}
use tft_stats_analytics.Processor.Aggregator.{
  Segment, EntityKey, Buffers, StatAggregator, new_aggregator, segment_eq,
}

length-map : (f : ℕ → ℕ) (xs : List ℕ) → length (map f xs) ≡ length xs
length-map f [] = refl
length-map f (x ∷ xs) = ap suc (length-map f xs)

sum_of-bits : (p : ℕ → Bool) (xs : List ℕ) → sum_of (λ x. x) (map (λ x. bit (p x)) xs) ≡ count p xs
sum_of-bits p [] = refl
sum_of-bits p (x ∷ xs) = omega (arith, sum_of-bits p xs)

module _ (fl : Float) where
  open fl use {F, of_nat, div, order}

  -- `float(arr.size) / float(total) if total else 0.0`
  unfoldable pub raw_play_rate : ℕ → ℕ → F
  raw_play_rate n total = if total == 0 then of_nat 0 else div (of_nat n) (of_nat total)

  -- `min(play_rate, 1.0)`
  unfoldable pub play_rate_of : ℕ → ℕ → F
  unfolding raw_play_rate
  play_rate_of n total =
      let rate = raw_play_rate n total in if less fl (of_nat 1) rate then of_nat 1 else rate

  play_rate_of-le : (n total : ℕ) → order.leq (play_rate_of n total) (of_nat 1) ≡ true
  unfolding play_rate_of
  play_rate_of-le n total = elim (Bool-cases (order.leq (raw_play_rate n total) (of_nat 1))) [
    | inl e ↦ rw (e, play_rate_of) e
    | inr e ↦ rw (e, play_rate_of) (fl.of_nat_mono 1 1 (omega arith))
  ]

module _ (fl : Float) (np : NumPy fl) where
  open fl use {F, of_nat, div, order}

  -- `(arr <= 4).mean()`
  unfoldable pub win_rate_of : List ℕ → F
  win_rate_of arr = np.mean (map of_nat (map (λ p. bit (leb p 4)) arr))

  -- The entry of one key, from its placements.
  unfoldable pub stat_entry : VectorClock → List (Segment × ℕ) → EntityKey → List ℕ → StatEntry F
  unfolding play_rate_of win_rate_of get_or
  stat_entry clock totals key arr =
      let n = length arr in
      record {
        entity_id = key.entity_id;
        entity_type = key.entity_type;
        patch = key.segment.patch;
        region = key.segment.region;
        tier = key.segment.tier;
        win_rate = win_rate_of arr;
        avg_placement = np.mean (map of_nat arr);
        play_rate = play_rate_of fl n (get_or n key.segment totals);
        sample_size = n;
        clock = clock;
      }

  unfoldable pub flush_entries : VectorClock → List (Segment × ℕ) → Buffers → List (StatEntry F)
  unfolding stat_entry
  flush_entries clock totals [] = []
  flush_entries clock totals ((key, arr) ∷ rest) =
      let entries = flush_entries clock totals rest in
      if length arr == 0 then entries else stat_entry clock totals key arr ∷ entries

  -- The aggregator after the flush, and the entries.
  unfoldable pub flush : VectorClock → StatAggregator → StatAggregator × List (StatEntry F)
  unfolding flush_entries new_aggregator
  flush clock agg = (new_aggregator, flush_entries clock agg.totals agg.buffers)

  -- What each emitted entry promises: samples, rates between 0 and 1, and the clock of the flush.
  pub record IsSound (clock : VectorClock) (e : StatEntry F) : Type 0 where
    pub sampled : 0 < e.sample_size
    pub win_rate_low : order.leq (of_nat 0) e.win_rate ≡ true
    pub win_rate_high : order.leq e.win_rate (of_nat 1) ≡ true
    pub play_rate_high : order.leq e.play_rate (of_nat 1) ≡ true
    pub stamped : e.clock ≡ clock

  win_rate_of-eq :
      (arr : List ℕ)
      → 0 < length arr
      → win_rate_of arr ≡ div (of_nat (count (λ p. leb p 4) arr)) (of_nat (length arr))
  unfolding win_rate_of
  win_rate_of-eq arr h =
      np.mean_nat (map (λ p. bit (leb p 4)) arr) (rw length-map h)
      ∙ rw (length-map, sum_of-bits (λ p. leb p 4))

  stat_entry-IsSound :
      (clock : VectorClock) (totals : List (Segment × ℕ)) (key : EntityKey) (arr : List ℕ)
      → 0 < length arr
      → IsSound clock (stat_entry clock totals key arr)
  unfolding stat_entry
  stat_entry-IsSound clock totals key arr h = record {
    sampled = h;
    win_rate_low =
        rw (win_rate_of-eq arr h, ← fl.zero_div (length arr) h)
          (fl.div_mono 0 (count (λ p. leb p 4) arr) (length arr) (omega arith) h);
    win_rate_high =
        rw (win_rate_of-eq arr h, ← fl.div_self (length arr) h)
          (fl.div_mono (count (λ p. leb p 4) arr) (length arr) (length arr)
            (count-le-length (λ p. leb p 4) arr) h);
    play_rate_high = play_rate_of-le fl (length arr) (get_or (length arr) key.segment totals);
    stamped = refl;
  }

  flush_entries-IsSound :
      (clock : VectorClock) (totals : List (Segment × ℕ)) (buffers : Buffers)
      → All (IsSound clock) (flush_entries clock totals buffers)
  unfolding flush_entries
  flush_entries-IsSound clock totals [] = tt
  flush_entries-IsSound clock totals ((key, arr) ∷ rest) = elim (Bool-cases (length arr == 0)) [
    | inl e ↦ rw e (flush_entries-IsSound clock totals rest)
    | inr e ↦ rw e (
      stat_entry-IsSound clock totals key arr (ground arith),
      flush_entries-IsSound clock totals rest,
    )
  ]

  -- Every entry of a flush is backed by samples, its win rate lies between 0 and 1, its play rate is
  -- at most 1, and it carries the clock of the flush.
  pub flush-IsSound :
      (clock : VectorClock) (agg : StatAggregator) → All (IsSound clock) (flush clock agg).1
  unfolding flush
  flush-IsSound clock agg = flush_entries-IsSound clock agg.totals agg.buffers

  -- The key that an entry stands for.
  abbrev pub entry_key : StatEntry F → EntityKey
  entry_key e = record {
    entity_id = e.entity_id;
    entity_type = e.entity_type;
    segment = record { patch = e.patch; tier = e.tier; region = e.region };
  }

  flush_entries_total :
      (q : EntityKey → Bool) (clock : VectorClock) (totals : List (Segment × ℕ)) (buffers : Buffers)
      → sum_of
          (λ e. if q (entry_key e) then e.sample_size else 0)
          (flush_entries clock totals buffers)
        ≡ sum_of (λ b. if q b.0 then length b.1 else 0) buffers
  unfolding flush_entries stat_entry
  flush_entries_total q clock totals [] = refl
  flush_entries_total q clock totals ((key, arr) ∷ rest) =
      ground (arith, flush_entries_total q clock totals rest)

  -- For every class `q` of keys, the sample sizes of the entries of a flush add up to the number of
  -- placements that were buffered for the class; and the flush leaves the aggregator as new.
  pub flush_conserves :
      (q : EntityKey → Bool) (clock : VectorClock) (agg : StatAggregator)
      → (sum_of (λ e. if q (entry_key e) then e.sample_size else 0) (flush clock agg).1
          ≡ sum_of (λ b. if q b.0 then length b.1 else 0) agg.buffers)
        × ((flush clock agg).0 ≡ new_aggregator)
  unfolding flush
  flush_conserves q clock agg = (flush_entries_total q clock agg.totals agg.buffers, refl)
