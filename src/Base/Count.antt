-- ===== src/Base/Count.antt =====
-- Counting the items of a list that pass a test. Two lists hold the same items, as often, when
-- every test counts the same in both.
use Prim.Native.Nat.{ℕ, zero, suc, ◌+◌, ◌<◌, ◌≤◌}
use mathlib.Core.Path.{◌≡◌, refl, ◌∙◌}
use mathlib.Core.Bool.{Bool, true, false, not}
use mathlib.Core.Option.{some}
use mathlib.Core.List.{List, [], ◌∷◌, ◌++◌}
use native.Mathlib.Omega.{arith}
use tft_stats_analytics.Base.Lists.{get_elem?, set, length, All, any_of}

abbrev pub bit : Bool → ℕ
bit true = 1
bit false = 0

module _ {ℓ} {A : Type ℓ} where
  abbrev pub count : (A → Bool) → List A → ℕ
  count p [] = 0
  count p (x ∷ xs) = bit (p x) + count p xs

  abbrev pub SameItems : List A → List A → Type ℓ
  SameItems xs ys = (p : A → Bool) → count p xs ≡ count p ys

  pub count-append : (p : A → Bool) (xs ys : List A) → count p (xs ++ ys) ≡ count p xs + count p ys
  count-append p [] ys = omega arith
  count-append p (x ∷ xs) ys = omega (arith, count-append p xs ys)

  -- Overwriting an item takes the old one out of the count and the new one in.
  pub count-set :
      (p : A → Bool) (xs : List A) (i : ℕ) (v w : A)
      → get_elem? xs i ≡ some w
      → count p (set xs i v) + bit (p w) ≡ count p xs + bit (p v)
  count-set p [] i v w h = ground arith
  count-set p (x ∷ xs) zero v w h = ground arith
  count-set p (x ∷ xs) (suc i) v w h = omega (arith, count-set p xs i v w h)

  pub count-true : (xs : List A) → count (λ _. true) xs ≡ length xs
  count-true [] = refl
  count-true (x ∷ xs) = omega (arith, count-true xs)

-- A test that never fails holds everywhere, so it goes over to a list of the same items.
module _ {ℓ} {A : Type ℓ} (p : A → Bool) where
  pub count_zero-All : (xs : List A) → count (λ x. not (p x)) xs ≡ 0 → All (λ x. p x ≡ true) xs
  count_zero-All [] h = tt
  count_zero-All (x ∷ xs) h = (ground arith, count_zero-All xs (ground arith))

  pub All-count_zero : (xs : List A) → All (λ x. p x ≡ true) xs → count (λ x. not (p x)) xs ≡ 0
  All-count_zero [] h = refl
  All-count_zero (x ∷ xs) h = ground (arith, All-count_zero xs)

  pub All-SameItems :
      (xs ys : List A) → SameItems xs ys → All (λ x. p x ≡ true) ys → All (λ x. p x ≡ true) xs
  All-SameItems xs ys same h = count_zero-All xs (same (λ x. not (p x)) ∙ All-count_zero ys h)

  pub any_of-SameItems :
      (xs ys : List A) → SameItems xs ys → any_of p ys ≡ true → any_of p xs ≡ true
  any_of-SameItems xs ys same h = any_of-count xs (omega (arith, same p, count-any_of ys h))
    where
      any_of-count : (zs : List A) → 0 < count p zs → any_of p zs ≡ true
      any_of-count [] h = elim h [ ]
      any_of-count (z ∷ zs) h = ground (arith, any_of-count zs)

      count-any_of : (zs : List A) → any_of p zs ≡ true → 0 < count p zs
      count-any_of [] h = ground arith
      count-any_of (z ∷ zs) h = ground (arith, count-any_of zs)

pub count-le-length {ℓ} : {A : Type ℓ} (p : A → Bool) (xs : List A) → count p xs ≤ length xs
count-le-length p [] = omega arith
count-le-length p (x ∷ xs) = ground (arith, count-le-length p xs)
