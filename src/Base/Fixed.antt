-- ===== src/Base/Fixed.antt =====
-- Numbers with six decimals as an instance of `Float`, on which the model runs.
use native.Mathlib.Nat.{
  mul-div_cancel, le-div_iff_mul-le, div-mul-le_self, le_trans, zero-div, mul_comm,
}
use tft_stats_analytics.Base.{
  ℕ, zero, suc, ◌+◌, ◌-◌, ◌*◌, ◌/◌, ◌^◌, ◌≤◌, ◌<◌, ◌≡◌, ap, ◌∙◌, true, false, arith, leb, le→leb,
  if◌then◌else◌,
}
use tft_stats_analytics.Base.Int.{ℤ, pos, pos_part, neg_part, sub_ℕ, leb_ℤ}
use tft_stats_analytics.Base.Order.{Order}
use tft_stats_analytics.Base.Float.{Float}

abbrev scale : ℕ
scale = 1000000

-- The number is its value in millionths.
abbrev pub Fixed : Type 0
Fixed = ℤ

unfoldable pub opposite : Fixed → Fixed
opposite x = sub_ℕ (neg_part x) (pos_part x)

unfoldable pub plus : Fixed → Fixed → Fixed
plus x y = sub_ℕ (pos_part x + pos_part y) (neg_part x + neg_part y)

unfoldable pub times : Fixed → Fixed → Fixed
times x y =
    sub_ℕ ((pos_part x * pos_part y + neg_part x * neg_part y) / scale)
      ((pos_part x * neg_part y + neg_part x * pos_part y) / scale)

-- One of the parts of a number is 0.
unfoldable pub over : Fixed → Fixed → Fixed
over x y =
    let below = pos_part y + neg_part y in
    sub_ℕ (pos_part x * scale / below) (neg_part x * scale / below)

-- The integer root, by bisection: `lo * lo <= n < (lo + gap) * (lo + gap)`.
unfoldable pub root_from : ℕ → ℕ → ℕ → ℕ
root_from zero n lo = lo
root_from (suc k) n lo =
    let step = lo + 2 ^ k in root_from k n (if leb (step * step) n then step else lo)

unfoldable pub root : Fixed → Fixed
unfolding root_from
root x = pos (root_from 32 (pos_part x * scale) 0)

unfoldable pub round_to : Fixed → ℕ → Fixed
round_to x digits =
    let unit = 10 ^ (6 - digits) in
    sub_ℕ ((pos_part x + unit / 2) / unit * unit) ((neg_part x + unit / 2) / unit * unit)

unfoldable pub whole : ℕ → Fixed
whole n = pos (n * scale)

pub leb_total : (x y : Fixed) → leb_ℤ x y ≡ false → leb_ℤ y x ≡ true
leb_total x y h = ground arith

pub leb_trans : (x y z : Fixed) → leb_ℤ x y ≡ true → leb_ℤ y z ≡ true → leb_ℤ x z ≡ true
leb_trans x y z h k = ground arith

abbrev pub fixed_order : Order Fixed
fixed_order = record { leq = leb_ℤ; total = leb_total; trans = leb_trans }

div_le_div : (a b n : ℕ) → a ≤ b → 0 < n → a / n ≤ b / n
div_le_div a b n h k = (le-div_iff_mul-le k).1 (le_trans (div-mul-le_self a n) h)

over-whole : (k n : ℕ) → 0 < n → over (whole k) (whole n) ≡ pos (k * scale * scale / (n * scale))
unfolding over whole
over-whole k n h = ground (arith, zero-div (n * scale + 0))

pub div_whole_mono :
    (k m n : ℕ) → k ≤ m → 0 < n → leb_ℤ (over (whole k) (whole n)) (over (whole m) (whole n)) ≡ true
div_whole_mono k m n h p =
    rw (over-whole k n p, over-whole m n p)
      (le→leb _ _ (
        omega (
          arith,
          div_le_div (k * scale * scale) (m * scale * scale) (n * scale) (omega arith)
              (omega arith),
        )))

pub div_whole_self : (n : ℕ) → 0 < n → over (whole n) (whole n) ≡ whole 1
unfolding whole
div_whole_self n h =
    over-whole n n h
    ∙ ap pos (rw (mul_comm (n * scale) scale) (mul-div_cancel scale {n = n * scale} (omega arith)))

pub whole_mono : (m n : ℕ) → m ≤ n → leb_ℤ (whole m) (whole n) ≡ true
unfolding whole
whole_mono m n h = ground arith

pub zero_div_whole : (n : ℕ) → 0 < n → over (whole 0) (whole n) ≡ whole 0
unfolding whole
zero_div_whole n h = over-whole 0 n h ∙ ap pos (zero-div (n * scale))

pub plus-whole : (m n : ℕ) → plus (whole m) (whole n) ≡ whole (m + n)
unfolding plus whole
plus-whole m n = ground arith

unfoldable pub fixed : Float
unfolding whole opposite plus times over root round_to
fixed = record {
  F = Fixed;
  of_nat = whole;
  neg = opposite;
  add = plus;
  mul = times;
  div = over;
  sqrt = root;
  round = round_to;
  order = fixed_order;
  div_mono = div_whole_mono;
  div_self = div_whole_self;
  zero_div = zero_div_whole;
  of_nat_mono = whole_mono;
}
