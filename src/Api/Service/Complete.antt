-- ===== src/Api/Service/Complete.antt =====
-- Which entities `list_entities` of api/service.py lists.
use tft_stats_analytics.Base.{
  ℕ, Bool, zero, suc, ◌≤◌, ◌<◌, String, ◌||◌, ◌≡◌, refl, ap, subst, any_of, any_of-append, take,
  length, length-take, ◌∙◌, true, not, Option, List, [], ◌∷◌, arith, eq_iff, str_eq, leb, keep_if,
  All, Bool-cases, inl, inr,
}
use tft_stats_analytics.Base.Count.{any_of-SameItems}
use tft_stats_analytics.Base.Dict.{string_eq}
use tft_stats_analytics.Base.Float.{Float}
use tft_stats_analytics.Base.Sort.{sort_by, sort_by-SameItems}
use tft_stats_analytics.Proto.{StatEntry}
use tft_stats_analytics.Api.Service.{
  Row, aggregate_by_entity, complete_reference_entities, selected, list_entities, SortBy, sort_key,
  key_order, in_tiers, min_sample_size,
}
use tft_stats_analytics.Api.Service.Groups.{aggregate_by_entity_conserves}
use tft_stats_analytics.Api.Service.Backed.{
  IsBacked, entries_size, rows_size, aggregate_by_entity-IsBacked,
}

take-all : {A : Type 0} (n : ℕ) (xs : List A) → length xs ≤ n → take n xs ≡ xs
take-all n [] h = take_nil n
  where
    take_nil : {A : Type 0} (n : ℕ) → take {A = A} n [] ≡ []
    take_nil zero = refl
    take_nil (suc n) = refl
take-all zero (x ∷ xs) h = absurd (omega arith)
take-all (suc n) (x ∷ xs) h = ap (◌∷◌ x) (take-all n xs (omega arith))

module _ (fl : Float) where
  open fl use {F}

  abbrev pub has_row : String → List (Row F) → Bool
  has_row a rows = any_of (λ r. str_eq r.entity_id a) rows

  sampled-has_row :
      (a : String) (rows : List (Row F)) → 0 < rows_size fl a rows → has_row a rows ≡ true
  sampled-has_row a [] h = absurd (omega arith)
  sampled-has_row a (r ∷ rows) h = ground (arith, sampled-has_row a rows)

  enough-has_row :
      (a : String) (entries : List (StatEntry F)) (rows : List (Row F))
      → All (IsBacked fl entries) rows
      → 200 ≤ entries_size fl a entries
      → has_row a rows ≡ true
      → has_row a (keep_if (λ r. leb min_sample_size r.sample_size) rows) ≡ true
  enough-has_row a entries [] backed enough h = h
  enough-has_row a entries (r ∷ rows) backed enough h = elim (Bool-cases (str_eq r.entity_id a)) [
    | inl q ↦
        let same : r.sample_size ≡ entries_size fl a entries =
          subst (λ b. r.sample_size ≡ entries_size fl b entries) ((eq_iff r.entity_id a).0 q)
            backed.0 in
        let kept : leb min_sample_size r.sample_size ≡ true = ground (arith, same) in
        rw kept (ground arith)
    | inr q ↦ ground (arith, enough-has_row a entries rows backed.1 enough)
  ]

  -- Nothing is filtered by category.
  abbrev pub is_unfiltered : String → String → Bool
  is_unfiltered entity_type category = not (str_eq entity_type "augment") || str_eq category ""

  aggregate_by_entity-has_row :
      (a : String) (entries : List (StatEntry F))
      → 200 ≤ entries_size fl a entries
      → has_row a (aggregate_by_entity fl entries) ≡ true
  aggregate_by_entity-has_row a entries enough =
      sampled-has_row a (aggregate_by_entity fl entries)
        (omega (arith, (aggregate_by_entity_conserves fl (λ b. str_eq b a) a entries).0))

  selected-has_row :
      (entity_type patch category a : String) (entries : List (StatEntry F))
      → is_unfiltered entity_type category ≡ true
      → 200 ≤ entries_size fl a entries
      → has_row a (selected fl entity_type patch category (aggregate_by_entity fl entries)) ≡ true
  unfolding selected complete_reference_entities
  selected-has_row entity_type patch category a entries open_ enough =
      let rows : List (Row F) = aggregate_by_entity fl entries in
      let there = aggregate_by_entity-has_row a entries enough in
      elim (Bool-cases (str_eq entity_type "augment")) [
        | inl e ↦
            let every : str_eq category "" ≡ true = ground arith in
            rw (e, every) (any_of-append (λ r. str_eq r.entity_id a) rows _ ∙ rw there refl)
        | inr e ↦
            rw e
              (enough-has_row a entries rows (aggregate_by_entity-IsBacked fl entries) enough there)
      ]

  -- Where nothing is filtered by category and the rows do not fill the limit, every entity that has at
  -- least 200 samples in the entries of the tiers has a row.
  pub list_entities-has_row :
      (entity_type patch category a : String) (tiers : Option (List String)) (limit : ℕ)
      (sort : SortBy fl) (entries : List (StatEntry F))
      → is_unfiltered entity_type category ≡ true
      → length (list_entities fl entity_type patch tiers limit sort category entries) < limit
      → 200 ≤ entries_size fl a (in_tiers fl tiers entries)
      → has_row a (list_entities fl entity_type patch tiers limit sort category entries) ≡ true
  unfolding list_entities
  list_entities-has_row entity_type patch category a tiers limit sort entries open_ room enough =
      let rows : List (Row F) =
        selected fl entity_type patch category
          (aggregate_by_entity fl (in_tiers fl tiers entries)) in
      let sorted : List (Row F) = sort_by ⦃o = key_order fl⦄ (sort_key fl sort) rows in
      rw (take-all limit sorted (omega (arith, length-take limit sorted, room))) (
        any_of-SameItems (λ r. str_eq r.entity_id a) sorted rows
          (sort_by-SameItems ⦃o = key_order fl⦄ (sort_key fl sort) rows)
          (selected-has_row entity_type patch category a (in_tiers fl tiers entries) open_ enough))
