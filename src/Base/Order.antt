-- ===== src/Base/Order.antt =====
-- Decidable total preorders, the meaning of `<=` on the keys that the program sorts by.
use Prim.Native.Nat.{ℕ}
use Prim.Native.Char.{code}
use Prim.Native.String.{String}
use mathlib.Core.Path.{◌≡◌, refl}
use mathlib.Core.Bool.{Bool, true, false}
use native.Mathlib.Omega.{arith}
use tft_stats_analytics.Base.Tests.{leb, ltb, if◌then◌else◌}

pub record Order {ℓ} (A : Type ℓ) : Type ℓ where
  pub leq : A → A → Bool
  pub total : (a b : A) → leq a b ≡ false → leq b a ≡ true
  pub trans : (a b c : A) → leq a b ≡ true → leq b c ≡ true → leq a c ≡ true

pub nat_trans : (a b c : ℕ) → leb a b ≡ true → leb b c ≡ true → leb a c ≡ true
nat_trans a b c h k = ground arith

pub nat_total : (a b : ℕ) → leb a b ≡ false → leb b a ≡ true
nat_total a b h = ground arith

instance abbrev pub nat_order : Order ℕ
nat_order = record { leq = leb; total = nat_total; trans = nat_trans }

-- Python's order on str: by code points, a proper prefix first.
unfoldable pub str_leq : String → String → Bool
str_leq String.[] t = true
str_leq (String.◌∷◌ c s) String.[] = false
str_leq (String.◌∷◌ c s) (String.◌∷◌ d t) =
    let rest = str_leq s t in
    if ltb (code c) (code d) then true else if ltb (code d) (code c) then false else rest

pub str_total : (s t : String) → str_leq s t ≡ false → str_leq t s ≡ true
unfolding str_leq
str_total String.[] t h = ground arith
str_total (String.◌∷◌ c s) String.[] h = refl
str_total (String.◌∷◌ c s) (String.◌∷◌ d t) h = ground (arith, str_total s t)

pub str_trans : (s t u : String) → str_leq s t ≡ true → str_leq t u ≡ true → str_leq s u ≡ true
unfolding str_leq
str_trans String.[] t u h k = refl
str_trans (String.◌∷◌ c s) String.[] u h k = ground arith
str_trans (String.◌∷◌ c s) (String.◌∷◌ d t) String.[] h k = ground arith
str_trans (String.◌∷◌ c s) (String.◌∷◌ d t) (String.◌∷◌ e u) h k = ground (arith, str_trans s t u)

instance abbrev pub str_order : Order String
str_order = record { leq = str_leq; total = str_total; trans = str_trans }

-- `sort(reverse=True)` and keys with a minus sign.
pub record Down {ℓ} (A : Type ℓ) : Type ℓ where
  pub value : A

instance abbrev pub down_order {ℓ} : {A : Type ℓ} ⦃o : Order A⦄ → Order (Down A)
down_order ⦃o⦄ = record {
  leq = λ a b. o.leq b.value a.value;
  total = λ a b h. o.total b.value a.value h;
  trans = λ a b c h k. o.trans c.value b.value a.value k h;
}

-- Tuples compare by their first components, then by their second ones.
module _ {ℓ κ} {A : Type ℓ} {B : Type κ} ⦃o : Order A⦄ ⦃q : Order B⦄ where
  abbrev pub pair_leq : A × B → A × B → Bool
  pair_leq (a, b) (c, d) = if o.leq a c then (if o.leq c a then q.leq b d else true) else false

  pub pair_total : (x y : A × B) → pair_leq x y ≡ false → pair_leq y x ≡ true
  pair_total (a, b) (c, d) h = ground (arith, o.total a c, o.total c a, q.total b d)

  pub pair_trans : (x y z : A × B) → pair_leq x y ≡ true → pair_leq y z ≡ true → pair_leq x z ≡ true
  pair_trans (a, b) (c, d) (e, f) h k =
      ground (arith, o.trans a c e, o.trans e a c, o.trans c e a, q.trans b d f)

  instance abbrev pub pair_order : Order (A × B)
  pair_order = record { leq = pair_leq; total = pair_total; trans = pair_trans }
