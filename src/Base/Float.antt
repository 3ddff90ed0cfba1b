-- ===== src/Base/Float.antt =====
-- Python's floats as the program uses them: operations with no laws but those that IEEE 754
-- arithmetic has on the values that are no NaN. The program's own divisions are guarded, so no NaN
-- arises in it.
use tft_stats_analytics.Base.{ℕ, ◌<◌, ◌≤◌, ◌≡◌, Bool, true, not, List}
use tft_stats_analytics.Base.Order.{Order}
use mathlib.Core.List.{foldl}

pub record Float : Type 1 where
  pub F : Type 0
  pub of_nat : ℕ → F
  pub neg : F → F
  pub add : F → F → F
  pub mul : F → F → F
  pub div : F → F → F
  pub sqrt : F → F
  -- `round(x, n)`
  pub round : F → ℕ → F
  -- `x <= y`
  pub order : Order F
  -- A quotient by the same number keeps the order of what is divided.
  pub div_mono :
      (k m n : ℕ)
      → k ≤ m
      → 0 < n
      → order.leq (div (of_nat k) (of_nat n)) (div (of_nat m) (of_nat n)) ≡ true
  -- `n / n` is 1.
  pub div_self : (n : ℕ) → 0 < n → div (of_nat n) (of_nat n) ≡ of_nat 1
  -- `0 / n` is 0.
  pub zero_div : (n : ℕ) → 0 < n → div (of_nat 0) (of_nat n) ≡ of_nat 0
  -- The order of whole numbers is kept.
  pub of_nat_mono : (m n : ℕ) → m ≤ n → order.leq (of_nat m) (of_nat n) ≡ true

abbrev pub sub : (fl : Float) → fl.F → fl.F → fl.F
sub fl x y = fl.add x (fl.neg y)

-- `x < y`, on values that are no NaN
abbrev pub less : (fl : Float) → fl.F → fl.F → Bool
less fl x y = not (fl.order.leq y x)

-- `sum(xs)`
abbrev pub total : (fl : Float) → List fl.F → fl.F
total fl xs = foldl fl.add (fl.of_nat 0) xs
