-- ===== src/Api/Service/Backed.antt =====
-- The sample sizes of the rows that `list_entities` of api/service.py answers.
use tft_stats_analytics.Base.{
  ℕ, ◌≤◌, String, ◌≡◌, refl, sym, ◌∙◌, true, false, not, Option, List, [], ◌∷◌, map, arith, eq_iff,
  str_eq, leb, if◌then◌else◌, keep_if, sum_of, All, All-append, All-keep_if_of, All-map, All-take,
  Bool-cases, inl, inr,
}
use tft_stats_analytics.Base.Count.{count}
use tft_stats_analytics.Base.Dict.{member, string_eq}
use tft_stats_analytics.Base.Float.{Float}
use tft_stats_analytics.Base.Sort.{sort_by, All-sort_by}
use tft_stats_analytics.Proto.{StatEntry}
use tft_stats_analytics.TftData.Augments.{augments}
use tft_stats_analytics.Api.Service.{
  Row, decorate, aggregate_by_entity, empty_reference_entry, complete_reference_entities, selected,
  list_entities, SortBy, sort_key, key_order, in_tiers, min_sample_size, has_category,
}
use tft_stats_analytics.Api.Service.Groups.{
  decorate-same_id, decorate-same_size, aggregate_by_entity_conserves,
}

module _ (fl : Float) where
  open fl use {F}

  abbrev pub rows_size : String → List (Row F) → ℕ
  rows_size a rows = sum_of (λ r. if str_eq r.entity_id a then r.sample_size else 0) rows

  abbrev rows_count : String → List (Row F) → ℕ
  rows_count a rows = count (λ r. str_eq r.entity_id a) rows

  -- The samples that the entries have of an entity.
  abbrev pub entries_size : String → List (StatEntry F) → ℕ
  entries_size a entries = sum_of (λ e. if str_eq e.entity_id a then e.sample_size else 0) entries

  -- The row counts all samples of its entity, and no others.
  abbrev pub IsBacked : List (StatEntry F) → Row F → Type 0
  IsBacked entries r = r.sample_size ≡ entries_size r.entity_id entries

  absent : (a : String) (rows : List (Row F)) → rows_count a rows ≡ 0 → rows_size a rows ≡ 0
  absent a [] h = refl
  absent a (r ∷ rows) h = ground (arith, absent a rows)

  not_member :
      (a : String) (rows : List (Row F))
      → member a (map (λ r. r.entity_id) rows) ≡ false
      → rows_size a rows ≡ 0
  unfolding member
  not_member a [] h = refl
  not_member a (r ∷ rows) h = ground (arith, not_member a rows)

  behind :
      (x : Row F) (xs ys : List (Row F))
      → rows_count x.entity_id ys ≡ 0
      → All (λ r. rows_size r.entity_id xs ≡ r.sample_size) ys
      → All (λ r. rows_size r.entity_id (x ∷ xs) ≡ r.sample_size) ys
  behind x xs [] h a = tt
  behind x xs (y ∷ ys) h a = (
    ground (arith, a.0, eq_iff x.entity_id y.entity_id, eq_iff y.entity_id x.entity_id),
    behind x xs ys (ground arith) a.1,
  )

  -- Where no entity has two rows, a row's sample size is all that the rows have of its entity.
  alone :
      (rows : List (Row F))
      → ((a : String) → rows_count a rows ≤ 1)
      → All (λ r. rows_size r.entity_id rows ≡ r.sample_size) rows
  alone [] h = tt
  alone (x ∷ xs) h =
      let once : rows_count x.entity_id xs ≡ 0 =
        ground (arith, h x.entity_id, eq_iff x.entity_id x.entity_id) in
      (
        ground (arith, absent x.entity_id xs once, eq_iff x.entity_id x.entity_id),
        behind x xs xs once (alone xs (λ a. ground (arith, h a))),
      )

  pub aggregate_by_entity-IsBacked :
      (entries : List (StatEntry F)) → All (IsBacked entries) (aggregate_by_entity fl entries)
  aggregate_by_entity-IsBacked entries =
      let rows : List (Row F) = aggregate_by_entity fl entries in
      All-map
        (λ r e.
          sym e
          ∙ (aggregate_by_entity_conserves fl (λ a. str_eq a r.entity_id) r.entity_id entries).0)
        rows (alone rows (λ a. (aggregate_by_entity_conserves fl (λ _. true) a entries).1))

  empty_reference_entry-IsBacked :
      (a patch : String) (entries : List (StatEntry F))
      → member a (map (λ r. r.entity_id) (aggregate_by_entity fl entries)) ≡ false
      → IsBacked entries (decorate (empty_reference_entry fl a "augment" patch))
  unfolding empty_reference_entry
  empty_reference_entry-IsBacked a patch entries new =
      let empty : Row F = empty_reference_entry fl a "augment" patch in
      rw (decorate-same_size empty, decorate-same_id empty)
        (sym (not_member a (aggregate_by_entity fl entries) new)
          ∙ (aggregate_by_entity_conserves fl (λ b. str_eq b a) a entries).0)

  missing-IsBacked :
      (patch : String) (entries : List (StatEntry F)) (xs : List String)
      → All (IsBacked entries) (
          map
            (λ a. decorate (empty_reference_entry fl a "augment" patch))
            (keep_if
              (λ a. not (member a (map (λ r. r.entity_id) (aggregate_by_entity fl entries))))
              xs))
  missing-IsBacked patch entries [] = tt
  missing-IsBacked patch entries (a ∷ xs) =
      elim (Bool-cases (member a (map (λ r. r.entity_id) (aggregate_by_entity fl entries)))) [
        | inl e ↦ rw e (missing-IsBacked patch entries xs)
        | inr e ↦
            rw e
              (empty_reference_entry-IsBacked a patch entries e, missing-IsBacked patch entries xs)
      ]

  selected-IsBacked :
      (entity_type patch category : String) (entries : List (StatEntry F))
      → All
          (IsBacked entries)
          (selected fl entity_type patch category (aggregate_by_entity fl entries))
  unfolding selected complete_reference_entities
  selected-IsBacked entity_type patch category entries =
      let rows : List (Row F) = aggregate_by_entity fl entries in
      let backed = aggregate_by_entity-IsBacked entries in
      elim (Bool-cases (str_eq entity_type "augment")) [
        | inl e ↦
            let full =
              All-append (IsBacked entries) rows _ backed
                (missing-IsBacked patch entries augments) in
            elim (Bool-cases (str_eq category "")) [
              | inl q ↦ rw (e, q) full
              | inr q ↦
                  rw (e, q) (All-keep_if_of (IsBacked entries) (has_category fl category) _ full)
            ]
        | inr e ↦
            rw e (
              All-keep_if_of (IsBacked entries) (λ r. leb min_sample_size r.sample_size) rows
                backed)
      ]

  -- Every row that `list_entities` answers, of any type, counts exactly the samples that the entries of
  -- the tiers have of its entity.
  pub list_entities-IsBacked :
      (entity_type patch category : String) (tiers : Option (List String)) (limit : ℕ)
      (sort : SortBy fl) (entries : List (StatEntry F))
      → All
          (IsBacked (in_tiers fl tiers entries))
          (list_entities fl entity_type patch tiers limit sort category entries)
  unfolding list_entities
  list_entities-IsBacked entity_type patch category tiers limit sort entries =
      let mine : List (StatEntry F) = in_tiers fl tiers entries in
      let rows : List (Row F) =
        selected fl entity_type patch category (aggregate_by_entity fl mine) in
      All-take (IsBacked mine) limit (sort_by ⦃o = key_order fl⦄ (sort_key fl sort) rows) (
        All-sort_by ⦃o = key_order fl⦄ (sort_key fl sort) (IsBacked mine) rows
          (selected-IsBacked entity_type patch category mine))
