-- ===== src/Api/Riot/Stats/Counts.antt =====
-- How the counts of a profile in api/riot.py agree with one another.
use tft_stats_analytics.Base.{
  ℕ, zero, suc, ◌+◌, ◌-◌, ◌≤◌, ◌<◌, max, min, ◌≡◌, refl, Bool, List, [], ◌∷◌, arith, map, length,
  leb, sum_of, take, if◌then◌else◌,
}
use tft_stats_analytics.Base.Float.{Float}
use tft_stats_analytics.Api.Riot.Match.{MatchView}
use tft_stats_analytics.Api.Riot.Stats.{
  bump, distribute, empty_dist, places_of, top4_of, firsts_of, streak_of, Stats, stats_of,
}

abbrev pub sum : List ℕ → ℕ
sum xs = sum_of (λ x. x) xs

sum-bump : (i : ℕ) (xs : List ℕ) → i < length xs → sum (bump i xs) ≡ sum xs + 1
unfolding bump
sum-bump i [] h = absurd (omega arith)
sum-bump zero (x ∷ xs) h = omega arith
sum-bump (suc i) (x ∷ xs) h = omega (arith, sum-bump i xs (omega arith))

length-bump : (i : ℕ) (xs : List ℕ) → length (bump i xs) ≡ length xs
unfolding bump
length-bump i [] = refl
length-bump zero (x ∷ xs) = refl
length-bump (suc i) (x ∷ xs) = omega (arith, length-bump i xs)

-- The entries before the place `k`.
sum-take-bump :
    (k i : ℕ) (xs : List ℕ)
    → i < length xs
    → sum (take k (bump i xs)) ≡ sum (take k xs) + (if leb k i then 0 else 1)
unfolding bump
sum-take-bump k i [] h = absurd (omega arith)
sum-take-bump zero i (x ∷ xs) h = ground arith
sum-take-bump (suc k) zero (x ∷ xs) h = ground arith
sum-take-bump (suc k) (suc i) (x ∷ xs) h = ground (arith, sum-take-bump k i xs (omega arith))

sum-distribute :
    (places dist : List ℕ)
    → length dist ≡ 8
    → sum (distribute places dist) ≡ sum dist + length places
unfolding distribute
sum-distribute [] dist h = omega arith
sum-distribute (p ∷ places) dist h =
    let i : ℕ = min 8 (max 1 p) - 1 in
    omega (
      arith,
      sum-distribute places (bump i dist) (omega (arith, length-bump i dist)),
      sum-bump i dist (omega arith),
    )

sum-take-distribute :
    (places dist : List ℕ)
    → length dist ≡ 8
    → sum (take 4 (distribute places dist)) ≡ sum (take 4 dist) + top4_of places
unfolding distribute
sum-take-distribute [] dist h = omega arith
sum-take-distribute (p ∷ places) dist h =
    let i : ℕ = min 8 (max 1 p) - 1 in
    let first = sum-take-bump 4 i dist (omega arith) in
    let rest = sum-take-distribute places (bump i dist) (omega (arith, length-bump i dist)) in
    ground arith

streak-le : (places : List ℕ) → streak_of places ≤ top4_of places
unfolding streak_of
streak-le [] = omega arith
streak-le (p ∷ places) = ground (arith, streak-le places)

firsts-le : (places : List ℕ) → firsts_of places ≤ top4_of places
firsts-le [] = omega arith
firsts-le (p ∷ places) = ground (arith, firsts-le places)

length-map : {A B : Type 0} (f : A → B) (xs : List A) → length (map f xs) ≡ length xs
length-map f [] = refl
length-map f (x ∷ xs) = omega (arith, length-map f xs)

module _ (fl : Float) where
  -- The counts that the profile shows beside each other.
  pub record IsConsistent (s : Stats fl) : Type 0 where
    pub all_counted : sum s.distribution ≡ s.sample
    pub top_counted : sum (take 4 s.distribution) ≡ s.top4
    pub wins_in_top : s.firsts ≤ s.top4
    pub streak_in_top : s.streak ≤ s.top4

  -- In every profile the placement distribution adds up to the sample, its first four places to the
  -- top-four count, and neither the wins nor the current streak exceed that count.
  pub stats_of-IsConsistent :
      (is_digit : ℕ → Bool) (season wins losses : ℕ) (matches : List MatchView)
      → IsConsistent (stats_of fl is_digit season wins losses matches)
  unfolding stats_of
  stats_of-IsConsistent is_digit season wins losses matches = record {
    all_counted = omega (
      arith,
      sum-distribute (places_of matches) empty_dist refl,
      length-map (λ (m : MatchView). m.placement) matches,
    );
    top_counted = omega (arith, sum-take-distribute (places_of matches) empty_dist refl);
    wins_in_top = firsts-le (places_of matches);
    streak_in_top = streak-le (places_of matches);
  }
