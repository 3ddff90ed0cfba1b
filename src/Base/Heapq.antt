-- ===== src/Base/Heapq.antt =====
-- Python's `heapq` on a list: `heappush` and `heapify`, with the sift loops of the standard
-- library. A sift moves an item by exchanges with its parent or its smaller child.
use Prim.Native.Nat.{ℕ, zero, suc, ◌+◌, ◌-◌, ◌*◌, ◌/◌}
use mathlib.Core.Path.{◌≡◌, refl, ◌∙◌}
use mathlib.Core.Bool.{Bool, false, not, ◌&&◌}
use mathlib.Core.Option.{none, some}
use mathlib.Core.List.{List, [], ◌∷◌, ◌++◌}
use mathlib.Core.Logic.{inl, inr}
use native.Mathlib.Omega.{arith}
use tft_stats_analytics.Base.Tests.{ltb, if◌then◌else◌, Bool-cases, Option-cases}
use tft_stats_analytics.Base.Lists.{length, get_elem?, set}
use tft_stats_analytics.Base.Count.{SameItems, count-append, count-set}

module _ {ℓ} {A : Type ℓ} where
  -- An exchange of two places that are there.
  unfoldable pub swap : List A → ℕ → ℕ → List A
  swap xs i j = elim (get_elem? xs i) [
    | none ↦ xs
    | some a ↦ elim (get_elem? xs j) [ none ↦ xs | some b ↦ set (set xs i b) j a ]
  ]

  get_elem?-set_found :
      (xs : List A) (i j : ℕ) (a b : A)
      → get_elem? xs i ≡ some a
      → get_elem? xs j ≡ some b
      → get_elem? (set xs i b) j ≡ some b
  get_elem?-set_found [] i j a b h k = k
  get_elem?-set_found (x ∷ xs) zero zero a b h k = refl
  get_elem?-set_found (x ∷ xs) zero (suc j) a b h k = k
  get_elem?-set_found (x ∷ xs) (suc i) zero a b h k = k
  get_elem?-set_found (x ∷ xs) (suc i) (suc j) a b h k = get_elem?-set_found xs i j a b h k

  pub swap-SameItems : (xs : List A) (i j : ℕ) → SameItems (swap xs i j) xs
  unfolding swap
  swap-SameItems xs i j p = elim (Option-cases (get_elem? xs i)) [
    | inl e ↦ rw (e, swap)
    | inr (a, e) ↦ elim (Option-cases (get_elem? xs j)) [
      | inl e' ↦ rw (e, e', swap)
      | inr (b, e') ↦
          rw (e, e', swap)
            (omega (
              arith,
              count-set p xs i b a e,
              count-set p (set xs i b) j a b (get_elem?-set_found xs i j a b e e'),
            ))
    ]
  ]

module _ {ℓ} {A : Type ℓ} (less : A → A → Bool) where
  unfoldable pub less_at : List A → ℕ → ℕ → Bool
  less_at xs i j = elim (get_elem? xs i) [
    | none ↦ false
    | some a ↦ elim (get_elem? xs j) [ none ↦ false | some b ↦ less a b ]
  ]

  -- `_siftdown(heap, start, pos)`: towards the root while smaller than the parent. The place falls
  -- in every round, so `pos` rounds are enough.
  unfoldable pub sift_down : ℕ → List A → ℕ → ℕ → List A
  unfolding less_at swap
  sift_down zero heap start place = heap
  sift_down (suc fuel) heap start place =
      let parent = (place - 1) / 2 in
      let next = sift_down fuel (swap heap parent place) start parent in
      if ltb start place && less_at heap place parent then next else heap

  -- The smaller child of a place, the right one on a tie.
  unfoldable pub small_child : List A → ℕ → ℕ
  unfolding less_at
  small_child heap place =
      let child = 2 * place + 1 in
      if ltb (child + 1) (length heap) && not (less_at heap child (child + 1))
      then child + 1
      else child

  -- `_siftup(heap, pos)`: the smaller child moves up until a leaf is reached, then `_siftdown`.
  unfoldable pub sift_up : ℕ → List A → ℕ → ℕ → List A
  unfolding small_child sift_down
  sift_up zero heap start place = sift_down place heap start place
  sift_up (suc fuel) heap start place =
      let child = small_child heap place in
      let next = sift_up fuel (swap heap place child) start child in
      let last = sift_down place heap start place in
      if ltb (2 * place + 1) (length heap) then next else last

  unfoldable pub heappush : List A → A → List A
  unfolding sift_down
  heappush heap x = sift_down (length heap) (heap ++ (x ∷ [])) 0 (length heap)

  -- `for i in reversed(range(n)): _siftup(heap, i)`
  unfoldable pub sift_all : ℕ → List A → List A
  unfolding sift_up
  sift_all zero heap = heap
  sift_all (suc n) heap = sift_all n (sift_up (length heap) heap n n)

  unfoldable pub heapify : List A → List A
  unfolding sift_all
  heapify heap = sift_all (length heap / 2) heap

  sift_down-SameItems :
      (fuel : ℕ) (heap : List A) (start place : ℕ)
      → SameItems (sift_down fuel heap start place) heap
  unfolding sift_down
  sift_down-SameItems zero heap start place p = refl
  sift_down-SameItems (suc fuel) heap start place p =
      elim (Bool-cases (ltb start place && less_at heap place ((place - 1) / 2))) [
        | inl e ↦ rw e (
            sift_down-SameItems fuel (swap heap ((place - 1) / 2) place) start ((place - 1) / 2) p
            ∙ swap-SameItems heap ((place - 1) / 2) place p)
        | inr e ↦ rw e
      ]

  sift_up-SameItems :
      (fuel : ℕ) (heap : List A) (start place : ℕ) → SameItems (sift_up fuel heap start place) heap
  unfolding sift_up
  sift_up-SameItems zero heap start place p = sift_down-SameItems place heap start place p
  sift_up-SameItems (suc fuel) heap start place p =
      elim (Bool-cases (ltb (2 * place + 1) (length heap))) [
        | inl e ↦ rw e (
            sift_up-SameItems fuel (swap heap place (small_child heap place)) start
              (small_child heap place) p
            ∙ swap-SameItems heap place (small_child heap place) p)
        | inr e ↦ rw e (sift_down-SameItems place heap start place p)
      ]

  pub heappush-SameItems : (heap : List A) (x : A) → SameItems (heappush heap x) (x ∷ heap)
  unfolding heappush
  heappush-SameItems heap x p = omega (
    arith,
    sift_down-SameItems (length heap) (heap ++ (x ∷ [])) 0 (length heap) p,
    count-append p heap (x ∷ []),
  )

  sift_all-SameItems : (n : ℕ) (heap : List A) → SameItems (sift_all n heap) heap
  unfolding sift_all
  sift_all-SameItems zero heap p = refl
  sift_all-SameItems (suc n) heap p =
      sift_all-SameItems n (sift_up (length heap) heap n n) p
      ∙ sift_up-SameItems (length heap) heap n n p

  pub heapify-SameItems : (heap : List A) → SameItems (heapify heap) heap
  unfolding heapify
  heapify-SameItems heap = sift_all-SameItems (length heap / 2) heap
