-- ===== src/Base/NumPy.antt =====
-- What the program takes from NumPy: the mean and the standard deviation of a list of floats.
use tft_stats_analytics.Base.{ℕ, ◌<◌, ◌≡◌, List, map, length, sum_of}
use tft_stats_analytics.Base.Float.{Float}

pub record NumPy (fl : Float) : Type 0 where
  pub mean : List fl.F → fl.F
  pub std : List fl.F → fl.F
  -- On whole numbers the mean is the sum by the length.
  pub mean_nat :
      (xs : List ℕ)
      → 0 < length xs
      → mean (map fl.of_nat xs) ≡ fl.div (fl.of_nat (sum_of (λ x. x) xs)) (fl.of_nat (length xs))
