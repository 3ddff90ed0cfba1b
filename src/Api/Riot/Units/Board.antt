-- ===== src/Api/Riot/Units/Board.antt =====
-- The board that `_parse_match` of api/riot.py shows.
use tft_stats_analytics.Base.{
  ℕ, zero, suc, ◌+◌, ◌≤◌, ◌<◌, String, ◌≡◌, refl, ap, ◌∙◌, true, List, [], ◌∷◌, arith, map, length,
  take, All, length-take,
}
use tft_stats_analytics.Base.Count.{count, bit}
use tft_stats_analytics.Base.Dict.{member, nat_eq}
use tft_stats_analytics.Base.Order.{Down, down_order, nat_order, str_order, pair_order}
use tft_stats_analytics.Base.Sort.{
  sort_by, IsSorted, sort_by-IsSorted, sort_by-SameItems, All-sort_by, length-sort_by,
}
use tft_stats_analytics.Api.Riot.Units.{UnitView, indexed, carry_ids, mark_carries, arrange}

length-map : {A B : Type 0} (f : A → B) (xs : List A) → length (map f xs) ≡ length xs
length-map f [] = refl
length-map f (x ∷ xs) = ap suc (length-map f xs)

-- The places from `i` on that are among the ids, counted.
abbrev marked : List ℕ → ℕ → ℕ → ℕ
marked ids i zero = 0
marked ids i (suc n) = bit (member i ids) + marked ids (i + 1) n

marked-nil : (i n : ℕ) → marked [] i n ≡ 0
unfolding member
marked-nil i zero = refl
marked-nil i (suc n) = omega (arith, marked-nil (i + 1) n)

-- One id is met at most once.
marked_above : (id : ℕ) (i n : ℕ) → id < i → marked (id ∷ []) i n ≡ 0
unfolding member
marked_above id i zero h = refl
marked_above id i (suc n) h = ground (arith, marked_above id (i + 1) n)

marked_one : (id i n : ℕ) → marked (id ∷ []) i n ≤ 1
unfolding member
marked_one id i zero = omega arith
marked_one id i (suc n) = ground (arith, marked_one id (i + 1) n, marked_above id (i + 1) n)

marked-cons :
    (id : ℕ) (ids : List ℕ) (i n : ℕ)
    → marked (id ∷ ids) i n ≤ marked (id ∷ []) i n + marked ids i n
unfolding member
marked-cons id ids i zero = omega arith
marked-cons id ids i (suc n) = ground (arith, marked-cons id ids (i + 1) n)

marked-le : (ids : List ℕ) (i n : ℕ) → marked ids i n ≤ length ids
marked-le [] i n = omega (arith, marked-nil i n)
marked-le (id ∷ ids) i n =
    omega (arith, marked-cons id ids i n, marked_one id i n, marked-le ids i n)

carries-mark_carries :
    (ids : List ℕ) (i : ℕ) (units : List UnitView)
    → count (λ u. u.carry) (mark_carries ids (indexed i units)) ≤ marked ids i (length units)
unfolding mark_carries indexed
carries-mark_carries ids i [] = omega arith
carries-mark_carries ids i (u ∷ units) = ground (arith, carries-mark_carries ids (i + 1) units)

costly-mark_carries :
    (ids : List ℕ) (i : ℕ) (units : List UnitView)
    → All (λ u. u.carry ≡ true → 3 ≤ u.cost) (mark_carries ids (indexed i units))
unfolding mark_carries indexed
costly-mark_carries ids i [] = tt
costly-mark_carries ids i (u ∷ units) = ((λ h. ground arith), costly-mark_carries ids (i + 1) units)

length-mark_carries :
    (ids : List ℕ) (i : ℕ) (units : List UnitView)
    → length (mark_carries ids (indexed i units)) ≡ length units
unfolding mark_carries indexed
length-mark_carries ids i [] = refl
length-mark_carries ids i (u ∷ units) = ap suc (length-mark_carries ids (i + 1) units)

length-carry_ids : (units : List UnitView) → length (carry_ids units) ≤ 2
unfolding carry_ids
length-carry_ids units = omega (
  arith,
  length-map (λ (u : ℕ × UnitView). u.0)
      (take 2 (sort_by {K = Down ℕ} (λ u. record { value = u.1.cost }) (indexed 0 units))),
  length-take 2 (sort_by {K = Down ℕ} (λ u. record { value = u.1.cost }) (indexed 0 units)),
)

-- On a shown board at most two units are carries, each of cost 3 or more; the units ascend by cost and
-- then by champion, and are as many as the match has.
pub arrange-IsBoard :
    (units : List UnitView)
    → (count (λ u. u.carry) (arrange units) ≤ 2)
      × All (λ u. u.carry ≡ true → 3 ≤ u.cost) (arrange units)
      × IsSorted {K = ℕ × String} (λ u. (u.cost, u.champion)) (arrange units)
      × (length (arrange units) ≡ length units)
unfolding arrange
arrange-IsBoard units =
    let ids : List ℕ = carry_ids units in
    let raw : List UnitView = mark_carries ids (indexed 0 units) in
    (
      omega (
        arith,
        sort_by-SameItems {K = ℕ × String} (λ u. (u.cost, u.champion)) raw (λ u. u.carry),
        carries-mark_carries ids 0 units,
        marked-le ids 0 (length units),
        length-carry_ids units,
      ),
      All-sort_by {K = ℕ × String} (λ u. (u.cost, u.champion)) (λ u. u.carry ≡ true → 3 ≤ u.cost)
          raw (costly-mark_carries ids 0 units),
      sort_by-IsSorted {K = ℕ × String} (λ u. (u.cost, u.champion)) raw,
      length-sort_by {K = ℕ × String} (λ u. (u.cost, u.champion)) raw
          ∙ length-mark_carries ids 0 units,
    )
