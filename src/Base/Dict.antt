-- ===== src/Base/Dict.antt =====
-- Python's `dict`, in insertion order, over keys with a Boolean equality.
use Prim.Native.Nat.{ℕ}
use Prim.Native.String.{String}
use mathlib.Core.Path.{◌≡◌, refl}
use mathlib.Core.Logic.{◌↔◌}
use mathlib.Core.Bool.{Bool, true, false, ◌&&◌, ◌||◌}
use mathlib.Core.Option.{Option, none, some}
use mathlib.Core.List.{List, [], ◌∷◌, ◌++◌}
use native.Mathlib.Omega.{arith}
use text.Mathlib.Text.{◌==◌ as str_eq}
use text.Mathlib.TextEquality.{eq_iff}
use tft_stats_analytics.Base.Lists.{All, All-map}
use tft_stats_analytics.Base.Tests.{◌==◌, ==_iff, if◌then◌else◌}

pub record Eq {ℓ} (A : Type ℓ) : Type ℓ where
  pub beq : A → A → Bool
  pub beq_iff : (a b : A) → (beq a b ≡ true) ↔ (a ≡ b)

instance abbrev pub nat_eq : Eq ℕ
nat_eq = record { beq = ◌==◌; beq_iff = ==_iff }

instance abbrev pub string_eq : Eq String
string_eq = record { beq = str_eq; beq_iff = eq_iff }

module _ {ℓ κ} {A : Type ℓ} {B : Type κ} ⦃e : Eq A⦄ ⦃f : Eq B⦄ where
  abbrev pub pair_beq : A × B → A × B → Bool
  pair_beq (a, b) (c, d) = e.beq a c && f.beq b d

  pub pair_beq_iff : (x y : A × B) → (pair_beq x y ≡ true) ↔ (x ≡ y)
  pair_beq_iff (a, b) (c, d) = (
    (λ h. ground (arith, e.beq_iff a c, f.beq_iff b d)),
    (λ h. ground (arith, e.beq_iff a c, f.beq_iff b d)),
  )

  instance abbrev pub pair_eq : Eq (A × B)
  pair_eq = record { beq = pair_beq; beq_iff = pair_beq_iff }

module _ {ℓ κ} {K : Type ℓ} {V : Type κ} ⦃e : Eq K⦄ where
  -- `d.get(k)`
  unfoldable pub lookup : K → List (K × V) → Option V
  lookup k [] = none
  lookup k ((j, v) ∷ m) = if e.beq j k then some v else lookup k m

  -- `d[k] = v`: a key that is there keeps its place
  unfoldable pub insert : K → V → List (K × V) → List (K × V)
  insert k v [] = (k, v) ∷ []
  insert k v ((j, w) ∷ m) = if e.beq j k then (j, v) ∷ m else (j, w) ∷ insert k v m

  -- `d.get(k, v)`, and `d[k]` of a `defaultdict`
  unfoldable pub get_or : V → K → List (K × V) → V
  get_or v k [] = v
  get_or v k ((j, w) ∷ m) = if e.beq j k then w else get_or v k m

  pub lookup-insert :
      (k j : K) (v : V) (m : List (K × V))
      → lookup j (insert k v m) ≡ (if e.beq k j then some v else lookup j m)
  unfolding lookup insert
  lookup-insert k j v [] = refl
  lookup-insert k j v ((i, w) ∷ m) =
      ground (arith, e.beq_iff k j, e.beq_iff i k, e.beq_iff i j, lookup-insert k j v m)

  pub get_or-insert :
      (d : V) (k j : K) (v : V) (m : List (K × V))
      → get_or d j (insert k v m) ≡ (if e.beq k j then v else get_or d j m)
  unfolding get_or insert
  get_or-insert d k j v [] = refl
  get_or-insert d k j v ((i, w) ∷ m) =
      ground (arith, e.beq_iff k j, e.beq_iff i k, e.beq_iff i j, get_or-insert d k j v m)

module _ {ℓ} {K : Type ℓ} ⦃e : Eq K⦄ where
  pub beq_refl : (k : K) → e.beq k k ≡ true
  beq_refl k = (e.beq_iff k k).1 refl

  -- `k in xs`
  unfoldable pub member : K → List K → Bool
  member k [] = false
  member k (x ∷ xs) = e.beq x k || member k xs

  -- `s.add(k)` for a set in insertion order
  unfoldable pub add_key : K → List K → List K
  unfolding member
  add_key k xs = if member k xs then xs else xs ++ (k ∷ [])

  pub member-append : (k : K) (xs ys : List K) → member k (xs ++ ys) ≡ (member k xs || member k ys)
  unfolding member
  member-append k [] ys = refl
  member-append k (x ∷ xs) ys = ground (arith, member-append k xs ys)

  pub member-add_key :
      (k j : K) (xs : List K) → member j (add_key k xs) ≡ (e.beq k j || member j xs)
  unfolding add_key
  member-add_key k j xs = ground (arith, member-append j xs (k ∷ []), e.beq_iff k j)

  member-there : (x y : K) (xs : List K) → member x xs ≡ true → member x (y ∷ xs) ≡ true
  unfolding member
  member-there x y xs h = ground arith

  -- The items of a list are in it.
  pub members : (xs : List K) → All (λ x. member x xs ≡ true) xs
  unfolding member
  members [] = tt
  members (x ∷ xs) =
      (ground (arith, beq_refl x), All-map (λ y h. member-there y x xs h) xs (members xs))
