-- ===== src/Base/Result.antt =====
-- Results of Python code that may raise, and the fields of the JSON objects that it reads.
use mathlib.Core.Path.{◌≡◌, refl}
use mathlib.Core.Option.{Option, none, some}
use mathlib.Core.List.{List, [], ◌∷◌}

pub data Result (E A : Type 0) : Type 0 where
  err : E → Result E A
  ok : A → Result E A

-- What follows a step that did not raise.
infixl 10 ◌>>=◌
abbrev pub ◌>>=◌ : {E A B : Type 0} → Result E A → (A → Result E B) → Result E B
r >>= next = elim r [ err raised ↦ err raised | ok value ↦ next value ]

-- `[f(x) for x in xs]`
abbrev pub collect : {E A B : Type 0} → (A → Result E B) → List A → Result E (List B)
collect f [] = ok []
collect f (x ∷ xs) = f x >>= λ y. collect f xs >>= λ ys. ok (y ∷ ys)

-- A chain that ends well has had a first value.
module _ {E A B : Type 0} where
  pub >>=-eq-ok :
      (first : Result E A) (next : A → Result E B) {end : B}
      → (first >>= next) ≡ ok end
      → (value : A) × (first ≡ ok value) × (next value ≡ ok end)
  >>=-eq-ok (err raised) next q = cc
  >>=-eq-ok (ok value) next q = (value, refl, q)

-- The value of a key: not there, `null`, or given.
pub data Field (A : Type 0) : Type 0 where
  missing : Field A
  null : Field A
  given : A → Field A

module _ {A : Type 0} where
  -- `d.get(k, default)`, where `null` is `None`
  abbrev pub get_field : A → Field A → Option A
  get_field default missing = some default
  get_field default null = none
  get_field default (given a) = some a

  -- The same where `None` counts as the default value, as in a message's constructor.
  abbrev pub field_or : A → Field A → A
  field_or default missing = default
  field_or default null = default
  field_or default (given a) = a

  -- Code that fails on `None`.
  abbrev pub not_none : {E : Type 0} → E → Option A → Result E A
  not_none e none = err e
  not_none e (some a) = ok a
