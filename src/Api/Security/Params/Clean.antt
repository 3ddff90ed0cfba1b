-- ===== src/Api/Security/Params/Clean.antt =====
-- What a parameter satisfies that api/security.py lets through.
use tft_stats_analytics.Base.{
  ℕ, suc, ◌≤◌, ◌≡◌, refl, ap, subst, ◌∙◌, Bool, true, false, ◌&&◌, Option, none, some, [], ◌∷◌,
  arith, ltb, ◌==◌, if◌then◌else◌, length, any_of, Bool-cases, inl, inr,
}
use tft_stats_analytics.Base.Int.{ℤ, leb_ℤ}
use tft_stats_analytics.Api.Security.Params.{
  Text, codes, Unicode, Result, ok, err, invalid_riot_id, max_param_len, is_control, is_prefix,
  contains, strip_left, cons_unless_blank, strip_right, strip, clean_param, is_riot_id, non_empty,
  validate_riot_id, clamp, ◌>>=◌,
}

tail_without : (p : Text) (c : ℕ) (cs : Text) → contains p (c ∷ cs) ≡ false → contains p cs ≡ false
unfolding contains
tail_without p c cs h = ground arith

head_without :
    (p : Text) (c : ℕ) (cs : Text) → contains p (c ∷ cs) ≡ false → is_prefix p (c ∷ cs) ≡ false
unfolding contains
head_without p c cs h = ground arith

module _ (u : Unicode) where
  kept_length :
      (c : ℕ) (r cs : Text)
      → length r ≤ length cs
      → length (cons_unless_blank u c r) ≤ suc (length cs)
  kept_length c [] cs h = ground arith
  kept_length c (d ∷ ds) cs h = omega arith

  kept_any :
      (p : ℕ → Bool) (c : ℕ) (r : Text)
      → p c ≡ false
      → any_of p r ≡ false
      → any_of p (cons_unless_blank u c r) ≡ false
  kept_any p c [] h k = ground arith
  kept_any p c (d ∷ ds) h k = ground arith

  -- Stripping only takes away: tests that hold nowhere still hold nowhere, lengths do not grow, and
  -- no substring appears.
  pub record IsPart (s whole : Text) : Type 0 where
    pub shorter : length s ≤ length whole
    pub any : (p : ℕ → Bool) → any_of p whole ≡ false → any_of p s ≡ false
    pub sub : (p : Text) → contains p whole ≡ false → contains p s ≡ false

  -- Putting a character back in front of a stripped rest, or not at all.
  prefix_cons :
      (p : ℕ) (ps : Text) (c : ℕ) (r : Text)
      → (p == c && is_prefix ps r) ≡ false
      → is_prefix (p ∷ ps) (cons_unless_blank u c r) ≡ false
  unfolding is_prefix
  prefix_cons p ps c [] h = ground arith
  prefix_cons p ps c (d ∷ ds) h = h

  prefix_strip_right : (p s : Text) → is_prefix p s ≡ false → is_prefix p (strip_right u s) ≡ false
  unfolding strip_right is_prefix
  prefix_strip_right [] s h = h
  prefix_strip_right (p ∷ ps) [] h = refl
  prefix_strip_right (p ∷ ps) (c ∷ cs) h =
      prefix_cons p ps c (strip_right u cs) (ground (arith, prefix_strip_right ps cs))

  contains_cons :
      (p : Text) (c : ℕ) (r : Text)
      → contains p r ≡ false
      → is_prefix p (cons_unless_blank u c r) ≡ false
      → contains p (cons_unless_blank u c r) ≡ false
  unfolding contains
  contains_cons p c [] h k = ground arith
  contains_cons p c (d ∷ ds) h k = ground arith

  strip_left-IsPart : (s : Text) → IsPart (strip_left u s) s
  unfolding strip_left
  strip_left-IsPart [] = record { shorter = omega arith; any = λ p h. h; sub = λ p h. h }
  strip_left-IsPart (c ∷ cs) =
      let rest = strip_left-IsPart cs in
      elim (Bool-cases (u.is_space c)) [
        | inl e ↦ rw e (record {
          shorter = omega (arith, rest.shorter);
          any = λ p h. rest.any p (ground arith);
          sub = λ p h. rest.sub p (tail_without p c cs h);
        })
        | inr e ↦ rw e (record { shorter = omega arith; any = λ p h. h; sub = λ p h. h })
      ]

  strip_right-IsPart : (s : Text) → IsPart (strip_right u s) s
  unfolding strip_right
  strip_right-IsPart [] = record { shorter = omega arith; any = λ p h. h; sub = λ p h. h }
  strip_right-IsPart (c ∷ cs) =
      let rest = strip_right-IsPart cs in
      record {
        shorter = kept_length c (strip_right u cs) cs rest.shorter;
        any = λ p h. kept_any p c (strip_right u cs) (ground arith) (rest.any p (ground arith));
        sub = λ p h.
            contains_cons p c (strip_right u cs) (rest.sub p (tail_without p c cs h))
              (unfold strip_right in prefix_strip_right p (c ∷ cs) (head_without p c cs h));
      }

  strip-IsPart : (s : Text) → IsPart (strip u s) s
  unfolding strip
  strip-IsPart s =
      let left = strip_left-IsPart s in
      let right = strip_right-IsPart (strip_left u s) in
      record {
        shorter = omega (arith, left.shorter, right.shorter);
        any = λ p h. right.any p (left.any p h);
        sub = λ p h. right.sub p (left.sub p h);
      }

  abbrev pub IsSafe : Text → Type 0
  IsSafe s = (length s ≤ 120) × (any_of is_control s ≡ false) × (contains (codes "..") s ≡ false)

  IsSafe-strip :
      (value : Text)
      → ltb max_param_len (length value) ≡ false
      → any_of is_control value ≡ false
      → contains (codes "..") value ≡ false
      → IsSafe (strip u value)
  IsSafe-strip value short plain flat =
      let part = strip-IsPart value in
      let bound : length value ≤ 120 = ground arith in
      (omega (arith, part.shorter), part.any is_control plain, part.sub (codes "..") flat)

  ok_eq : (s t : Text) → IsSafe s → ok s ≡ ok t → IsSafe t
  ok_eq s t safe e = let p : s ≡ t = cc in subst IsSafe p safe

  IsSafe-nil : IsSafe []
  unfolding contains is_prefix
  IsSafe-nil = (omega arith, refl, refl)

  -- What `clean_param` returns has at most 120 characters, no control character and no "..".
  pub clean_param-IsSafe : (raw : Option Text) (s : Text) → clean_param u raw ≡ ok s → IsSafe s
  unfolding clean_param
  clean_param-IsSafe none s h = ok_eq [] s IsSafe-nil h
  clean_param-IsSafe (some value) s h = elim (Bool-cases (ltb max_param_len (length value))) [
    | inl a ↦ absurd (ground arith)
    | inr a ↦ elim (Bool-cases (any_of is_control value)) [
      | inl b ↦ absurd (ground arith)
      | inr b ↦ elim (Bool-cases (contains (codes "..") value)) [
        | inl c ↦ absurd (ground arith)
        | inr c ↦ ok_eq (strip u value) s (IsSafe-strip value a b c) (ground arith)
      ]
    ]
  ]

  -- What `validate_riot_id` returns is moreover a text that the pattern of a Riot id accepts.
  pub validate_riot_id-IsSafe :
      (raw : Option Text) (s : Text)
      → validate_riot_id u raw ≡ ok s
      → IsSafe s × (is_riot_id u s ≡ true)
  unfolding validate_riot_id
  validate_riot_id-IsSafe raw s h = go (clean_param u raw) refl h
    where
      go :
          (r : Result Text)
          → clean_param u raw ≡ r
          → (r >>= λ cleaned. non_empty u cleaned >>= λ val.
              if is_riot_id u val then ok val else err invalid_riot_id)
            ≡ ok s
          → IsSafe s × (is_riot_id u s ≡ true)
      go (err e) p q = absurd (cc)
      go (ok []) p q = absurd (cc)
      go (ok (c ∷ cs)) p q = elim (Bool-cases (is_riot_id u (c ∷ cs))) [
        | inl e ↦
            let same : (c ∷ cs) ≡ s = ground arith in
            (clean_param-IsSafe raw s (p ∙ ap ok same), subst (λ t. is_riot_id u t ≡ true) same e)
        | inr e ↦ absurd (ground arith)
      ]

-- Between bounds in order, `clamp` lands between them, whatever it is given, and leaves a number
-- that lies between them as it is.
pub clamp_bounds :
    (value : Option ℤ) (lo hi : ℤ)
    → leb_ℤ lo hi ≡ true
    → (leb_ℤ lo (clamp value lo hi) ≡ true)
      × (leb_ℤ (clamp value lo hi) hi ≡ true)
      × ((v : ℤ) → value ≡ some v → leb_ℤ lo v ≡ true → leb_ℤ v hi ≡ true → clamp value lo hi ≡ v)
unfolding clamp
clamp_bounds none lo hi h = (ground arith, ground arith, λ v e a b. cc)
clamp_bounds (some w) lo hi h = (ground arith, ground arith, λ v e a b. ground arith)
