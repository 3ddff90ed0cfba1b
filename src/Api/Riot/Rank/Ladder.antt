-- ===== src/Api/Riot/Rank/Ladder.antt =====
-- `rank_value` of api/riot.py orders ranks as the ladder does.
use tft_stats_analytics.Base.{
  ℕ, ◌+◌, ◌*◌, ◌≤◌, ◌<◌, String, ◌≡◌, refl, Option, none, some, List, [], ◌∷◌, arith, str_eq,
  eq_iff, leb, All, Bool-cases, Option-cases, inl, inr, subst,
}
use tft_stats_analytics.Base.Dict.{lookup, get_or, string_eq}
use tft_stats_analytics.Base.Order.{nat_order, pair_order, pair_leq}
use tft_stats_analytics.Api.Riot.Rank.{
  ladder_tiers, division_value, apex_base, index_of, rank_value,
}

-- The place of a tier on the ladder.
abbrev pub place : String → Option ℕ
place tier = index_of tier ladder_tiers

abbrev pub steps : String → ℕ
steps division = get_or 0 division division_value

steps-le : (division : String) → steps division ≤ 3
unfolding get_or
steps-le division = ground arith

place-le : (tier : String) (i : ℕ) → place tier ≡ some i → i ≤ 6
unfolding index_of
place-le tier i h = ground arith

order_of_digits :
    (i i' s s' lp lp' : ℕ)
    → s ≤ 3
    → s' ≤ 3
    → lp < 100
    → lp' < 100
    → leb (i * 400 + s * 100 + lp) (i' * 400 + s' * 100 + lp')
      ≡ pair_leq {A = ℕ} {B = ℕ × ℕ} (i, (s, lp)) (i', (s', lp'))
order_of_digits i i' s s' lp lp' h h' low low' = ground arith

apex-base_le : (apex : String) (base : ℕ) → lookup apex apex_base ≡ some base → 2800 ≤ base
unfolding lookup
apex-base_le apex base h = ground arith

-- What holds of every tier of a list holds of one that is found in it.
of_index :
    (P : String → Type 0) (x : String) (xs : List String) (i : ℕ)
    → All P xs
    → index_of x xs ≡ some i
    → P x
unfolding index_of
of_index P x [] i a h = absurd (cc)
of_index P x (y ∷ ys) i a h = elim (Bool-cases (str_eq y x)) [
  | inl e ↦ subst P ((eq_iff y x).0 e) a.0
  | inr e ↦ elim (Option-cases (index_of x ys)) [
    | inl n ↦ absurd (ground arith)
    | inr (j, found) ↦ of_index P x ys j a.1 found
  ]
]

not_apex : (tier : String) (i : ℕ) → place tier ≡ some i → lookup tier apex_base ≡ none
unfolding lookup
not_apex tier i h =
    of_index (λ t. lookup t apex_base ≡ none) tier ladder_tiers i
      (refl, (refl, (refl, (refl, (refl, (refl, (refl, tt))))))) h

value_on_ladder :
    (tier division : String) (lp i : ℕ)
    → place tier ≡ some i
    → rank_value tier division lp ≡ i * 400 + steps division * 100 + lp
unfolding rank_value
value_on_ladder tier division lp i h = rw (not_apex tier i h, h)

-- On the ladder, with fewer than 100 league points, the rating compares two ranks by tier, then by
-- division, then by points.
pub rank_value_order :
    (tier tier' division division' : String) (lp lp' i i' : ℕ)
    → place tier ≡ some i
    → place tier' ≡ some i'
    → lp < 100
    → lp' < 100
    → leb (rank_value tier division lp) (rank_value tier' division' lp')
      ≡ pair_leq {A = ℕ} {B = ℕ × ℕ} (i, (steps division, lp)) (i', (steps division', lp'))
rank_value_order tier tier' division division' lp lp' i i' h h' low low' =
    rw (value_on_ladder tier division lp i h, value_on_ladder tier' division' lp' i' h')
      (order_of_digits i i' (steps division) (steps division') lp lp' (steps-le division)
        (steps-le division') low low')

-- Every ladder rank with at most 100 points is rated no higher than any rank above the ladder.
pub rank_value_below_apex :
    (tier division apex apex_division : String) (lp apex_lp i base : ℕ)
    → place tier ≡ some i
    → lookup apex apex_base ≡ some base
    → lp ≤ 100
    → rank_value tier division lp ≤ rank_value apex apex_division apex_lp
unfolding rank_value
rank_value_below_apex tier division apex apex_division lp apex_lp i base h found low =
    rw (not_apex tier i h, h, found)
      (omega (arith, place-le tier i h, steps-le division, apex-base_le apex base found))
