-- ===== src/Base/Sort.antt =====
-- Python's stable `list.sort(key=…)`: a sorted rearrangement that keeps the order of equal keys.
use Prim.Native.Nat.{ℕ, zero, suc}
use mathlib.Core.Path.{◌≡◌, refl}
use mathlib.Core.Bool.{Bool, true}
use mathlib.Core.List.{List, [], ◌∷◌}
use native.Mathlib.Omega.{arith}
use tft_stats_analytics.Base.Tests.{if◌then◌else◌, Bool-cases}
use tft_stats_analytics.Base.Lists.{All, All-map, All-take, length, take}
use tft_stats_analytics.Base.Count.{count, SameItems, count-true}
use tft_stats_analytics.Base.Order.{Order}
use mathlib.Core.Logic.{inl, inr}

module _ {ℓ κ} {A : Type ℓ} {K : Type κ} ⦃o : Order K⦄ (key : A → K) where
  -- In front of the first item whose key is no smaller.
  unfoldable pub insert_by : A → List A → List A
  insert_by x [] = x ∷ []
  insert_by x (y ∷ ys) = if o.leq (key x) (key y) then x ∷ y ∷ ys else y ∷ insert_by x ys

  unfoldable pub sort_by : List A → List A
  unfolding insert_by
  sort_by [] = []
  sort_by (x ∷ xs) = insert_by x (sort_by xs)

  -- No item stands behind one with a greater key.
  abbrev pub IsSorted : List A → Type ℓ
  IsSorted [] = Unit
  IsSorted (x ∷ xs) = All (λ y. o.leq (key x) (key y) ≡ true) xs × IsSorted xs

  count-insert_by :
      (p : A → Bool) (x : A) (xs : List A) → count p (insert_by x xs) ≡ count p (x ∷ xs)
  unfolding insert_by
  count-insert_by p x [] = refl
  count-insert_by p x (y ∷ ys) = ground (arith, count-insert_by p x ys)

  -- Sorting keeps every item, as often.
  pub sort_by-SameItems : (xs : List A) → SameItems (sort_by xs) xs
  unfolding sort_by
  sort_by-SameItems [] p = refl
  sort_by-SameItems (x ∷ xs) p =
      omega (arith, count-insert_by p x (sort_by xs), sort_by-SameItems xs p)

  pub length-sort_by : (xs : List A) → length (sort_by xs) ≡ length xs
  length-sort_by xs =
      omega (arith, sort_by-SameItems xs (λ _. true), count-true xs, count-true (sort_by xs))

  pub All-insert_by {μ} :
      (P : A → Type μ) (x : A) (xs : List A) → P x → All P xs → All P (insert_by x xs)
  unfolding insert_by
  All-insert_by P x [] h k = (h, tt)
  All-insert_by P x (y ∷ ys) h k = elim (Bool-cases (o.leq (key x) (key y))) [
    | inl e ↦ rw e (h, k)
    | inr e ↦ rw e (k.0, All-insert_by P x ys h k.1)
  ]

  pub All-sort_by {μ} : (P : A → Type μ) (xs : List A) → All P xs → All P (sort_by xs)
  unfolding sort_by
  All-sort_by P [] h = tt
  All-sort_by P (x ∷ xs) h = All-insert_by P x (sort_by xs) h.0 (All-sort_by P xs h.1)

  insert_by-IsSorted : (x : A) (xs : List A) → IsSorted xs → IsSorted (insert_by x xs)
  unfolding insert_by
  insert_by-IsSorted x [] h = (tt, tt)
  insert_by-IsSorted x (y ∷ ys) h = elim (Bool-cases (o.leq (key x) (key y))) [
    | inl e ↦ rw e ((e, All-map (λ z q. o.trans (key x) (key y) (key z) e q) ys h.0), h)
    | inr e ↦ rw e (
      All-insert_by (λ z. o.leq (key y) (key z) ≡ true) x ys (o.total (key x) (key y) e) h.0,
      insert_by-IsSorted x ys h.1,
    )
  ]

  -- Sorting puts no item behind one with a greater key.
  pub sort_by-IsSorted : (xs : List A) → IsSorted (sort_by xs)
  unfolding sort_by
  sort_by-IsSorted [] = tt
  sort_by-IsSorted (x ∷ xs) = insert_by-IsSorted x (sort_by xs) (sort_by-IsSorted xs)

  pub take-IsSorted : (n : ℕ) (xs : List A) → IsSorted xs → IsSorted (take n xs)
  take-IsSorted zero xs h = tt
  take-IsSorted (suc n) [] h = tt
  take-IsSorted (suc n) (x ∷ xs) h = (All-take _ n xs h.0, take-IsSorted n xs h.1)
