-- ===== src/Base/Sample.antt =====
-- Mean and population standard deviation on numbers with six decimals: an instance of `NumPy`.
use tft_stats_analytics.Base.{ℕ, suc, ◌<◌, ◌≡◌, refl, ap, List, [], ◌∷◌, map, length, sum_of}
use tft_stats_analytics.Base.Fixed.{
  Fixed, fixed, plus, times, over, root, opposite, whole, plus-whole,
}
use tft_stats_analytics.Base.NumPy.{NumPy}

unfoldable pub sum_fixed : List Fixed → Fixed
sum_fixed [] = whole 0
sum_fixed (x ∷ xs) = plus x (sum_fixed xs)

unfoldable pub mean_fixed : List Fixed → Fixed
unfolding sum_fixed
mean_fixed xs = over (sum_fixed xs) (whole (length xs))

-- The squared distances from `m`.
unfoldable pub squares : Fixed → List Fixed → List Fixed
squares m [] = []
squares m (x ∷ xs) = times (plus x (opposite m)) (plus x (opposite m)) ∷ squares m xs

unfoldable pub std_fixed : List Fixed → Fixed
unfolding squares mean_fixed
std_fixed xs = root (mean_fixed (squares (mean_fixed xs) xs))

sum_whole : (xs : List ℕ) → sum_fixed (map whole xs) ≡ whole (sum_of (λ x. x) xs)
unfolding sum_fixed
sum_whole [] = refl
sum_whole (x ∷ xs) = rw (sum_whole xs) (plus-whole x (sum_of (λ y. y) xs))

length-map : (xs : List ℕ) → length (map whole xs) ≡ length xs
length-map [] = refl
length-map (x ∷ xs) = ap suc (length-map xs)

pub mean_fixed_nat :
    (xs : List ℕ)
    → 0 < length xs
    → mean_fixed (map whole xs) ≡ over (whole (sum_of (λ x. x) xs)) (whole (length xs))
unfolding mean_fixed
mean_fixed_nat xs h = rw (sum_whole xs, length-map xs)

unfoldable pub numpy : NumPy fixed
unfolding fixed mean_fixed std_fixed
numpy = record { mean = mean_fixed; std = std_fixed; mean_nat = mean_fixed_nat }
