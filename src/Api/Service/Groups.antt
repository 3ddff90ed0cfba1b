-- ===== src/Api/Service/Groups.antt =====
-- How `aggregate_by_entity` and `complete_reference_entities` of api/service.py account for the
-- entries and for the catalog.
use tft_stats_analytics.Base.{
  ℕ, ◌+◌, ◌≤◌, max, String, ◌≡◌, refl, sym, ◌∙◌, subst, Bool, true, false, not, ◌||◌, List, [], ◌∷◌,
  ◌++◌, map, arith, eq_iff, str_eq, ◌==◌, if◌then◌else◌, keep_if, sum_of, sum_of-append, any_of,
  any_of-append, Bool-cases, inl, inr,
}
use tft_stats_analytics.Base.Count.{count}
use tft_stats_analytics.Base.Dict.{get_or, insert, member, string_eq}
use tft_stats_analytics.Base.Float.{Float}
use tft_stats_analytics.Proto.{StatEntry}
use tft_stats_analytics.TftData.Augments.{augments}
use tft_stats_analytics.Api.Service.{
  Row, decorate, group_by, samples_of, row_of, rows_of, aggregate_by_entity, empty_reference_entry,
  complete_reference_entities,
}

skip_zero : (n a b : ℕ) (c : Bool) → (n == 0) ≡ true → b ≡ a → b ≡ (if c then n else 0) + a
skip_zero n a b c z h = ground arith

or_left : (b c : Bool) → b ≡ true → (b || c) ≡ true
or_left b c h = ground arith

or_right : (b c : Bool) → c ≡ true → (b || c) ≡ true
or_right b c h = ground arith

module _ {F : Type 0} where
  pub decorate-same_id : (r : Row F) → (decorate r).entity_id ≡ r.entity_id
  unfolding decorate
  decorate-same_id r = ground arith

  pub decorate-same_size : (r : Row F) → (decorate r).sample_size ≡ r.sample_size
  unfolding decorate
  decorate-same_size r = ground arith

module _ (fl : Float) where
  open fl use {F}

  abbrev pub Groups : Type 0
  Groups = List (String × List (StatEntry F))

  pub row_of-same_id :
      (entity_id : String) (e : StatEntry F) (es : List (StatEntry F))
      → (row_of fl entity_id e es).entity_id ≡ entity_id
  unfolding row_of
  row_of-same_id entity_id e es = decorate-same_id _

  pub row_of-same_size :
      (entity_id : String) (e : StatEntry F) (es : List (StatEntry F))
      → (row_of fl entity_id e es).sample_size ≡ samples_of fl (e ∷ es)
  unfolding row_of
  row_of-same_size entity_id e es = decorate-same_size _

  module _ (q : String → Bool) where
    abbrev weight : Groups → ℕ
    weight groups = sum_of (λ g. if q g.0 then samples_of fl g.1 else 0) groups

    abbrev entry_weight : StatEntry F → ℕ
    entry_weight e = if q e.entity_id then e.sample_size else 0

    weight-insert :
        (e : StatEntry F) (groups : Groups)
        → weight (insert e.entity_id (get_or [] e.entity_id groups ++ (e ∷ [])) groups)
          ≡ weight groups + entry_weight e
    unfolding insert get_or
    weight-insert e [] = ground arith
    weight-insert e ((j, w) ∷ groups) = ground (
      arith,
      weight-insert e groups,
      eq_iff j e.entity_id,
      sum_of-append (λ x. x.sample_size) w (e ∷ []),
    )

    weight-group_by :
        (entries : List (StatEntry F)) (groups : Groups)
        → weight (group_by (λ e. e.entity_id) groups entries)
          ≡ weight groups + sum_of entry_weight entries
    unfolding group_by
    weight-group_by [] groups = omega arith
    weight-group_by (e ∷ es) groups = omega (
      arith,
      weight-group_by es (insert e.entity_id (get_or [] e.entity_id groups ++ (e ∷ [])) groups),
      weight-insert e groups,
    )

    weight-rows_of :
        (groups : Groups)
        → sum_of (λ r. if q r.entity_id then r.sample_size else 0) (rows_of fl groups)
          ≡ weight groups
    unfolding rows_of
    weight-rows_of [] = refl
    weight-rows_of ((entity_id, []) ∷ groups) = ground (arith, weight-rows_of groups)
    weight-rows_of ((entity_id, e ∷ es) ∷ groups) =
        elim (Bool-cases (samples_of fl (e ∷ es) == 0)) [
          | inl z ↦ rw z (
              skip_zero (samples_of fl (e ∷ es)) (weight groups) _ (q entity_id) z
                (weight-rows_of groups))
          | inr z ↦ rw (
            z,
            row_of-same_id entity_id e es,
            row_of-same_size entity_id e es,
            weight-rows_of groups,
          )
        ]

  module _ (entity_id : String) where
    abbrev times : Groups → ℕ
    times groups = count (λ g. str_eq g.0 entity_id) groups

    times-insert :
        (k : String) (v : List (StatEntry F)) (groups : Groups)
        → times (insert k v groups)
          ≤ (if str_eq k entity_id then max 1 (times groups) else times groups)
    unfolding insert
    times-insert k v [] = ground arith
    times-insert k v ((j, w) ∷ groups) =
        ground (arith, times-insert k v groups, eq_iff j k, eq_iff j entity_id, eq_iff k entity_id)

    times-group_by :
        (entries : List (StatEntry F)) (groups : Groups)
        → times groups ≤ 1
        → times (group_by (λ e. e.entity_id) groups entries) ≤ 1
    unfolding group_by
    times-group_by [] groups h = h
    times-group_by (e ∷ es) groups h =
        times-group_by es (insert e.entity_id (get_or [] e.entity_id groups ++ (e ∷ [])) groups) (
          ground
            (arith, times-insert e.entity_id (get_or [] e.entity_id groups ++ (e ∷ [])) groups))

    count-rows_of :
        (groups : Groups)
        → count (λ r. str_eq r.entity_id entity_id) (rows_of fl groups) ≤ times groups
    unfolding rows_of
    count-rows_of [] = omega arith
    count-rows_of ((j, []) ∷ groups) = ground (arith, count-rows_of groups)
    count-rows_of ((j, e ∷ es) ∷ groups) =
        ground (arith, count-rows_of groups, row_of-same_id j e es)

  -- For every class `q` of entities, the sample sizes of the rows add up to those of the entries; and
  -- no entity has two rows.
  pub aggregate_by_entity_conserves :
      (q : String → Bool) (entity_id : String) (entries : List (StatEntry F))
      → (sum_of (λ r. if q r.entity_id then r.sample_size else 0) (aggregate_by_entity fl entries)
          ≡ sum_of (λ e. if q e.entity_id then e.sample_size else 0) entries)
        × (count (λ r. str_eq r.entity_id entity_id) (aggregate_by_entity fl entries) ≤ 1)
  unfolding aggregate_by_entity
  aggregate_by_entity_conserves q entity_id entries =
      let groups : Groups = group_by (λ e. e.entity_id) [] entries in
      (
        omega (arith, weight-rows_of q groups, weight-group_by q entries []),
        omega (
          arith,
          count-rows_of entity_id groups,
          times-group_by entity_id entries [] (omega arith),
        ),
      )

  abbrev has_row : String → List (Row F) → Bool
  has_row a rows = any_of (λ r. str_eq r.entity_id a) rows

  member-has_row :
      (a : String) (rows : List (Row F))
      → member a (map (λ r. r.entity_id) rows) ≡ true
      → has_row a rows ≡ true
  unfolding member
  member-has_row a [] h = h
  member-has_row a (r ∷ rows) h = ground (arith, member-has_row a rows)

  added-has_row :
      (a patch : String) (seen xs : List String)
      → member a seen ≡ false
      → member a xs ≡ true
      → has_row a (
          map
            (λ x. decorate (empty_reference_entry fl x "augment" patch))
            (keep_if (λ x. not (member x seen)) xs))
        ≡ true
  unfolding member empty_reference_entry
  added-has_row a patch seen [] new h = h
  added-has_row a patch seen (x ∷ xs) new h = elim (Bool-cases (str_eq x a)) [
    | inl q ↦
        let unseen : member x seen ≡ false =
          subst (λ y. member y seen ≡ false) (sym ((eq_iff x a).0 q)) new in
        let row : Row F = decorate (empty_reference_entry fl x "augment" patch) in
        let same : str_eq row.entity_id a ≡ true =
          rw (decorate-same_id (empty_reference_entry fl x "augment" patch)) q in
        rw unseen (or_left _ _ same)
    | inr q ↦
        let rest : member a xs ≡ true = ground arith in
        elim (Bool-cases (member x seen)) [
          | inl e ↦ rw e (added-has_row a patch seen xs new rest)
          | inr e ↦ rw e (or_right _ _ (added-has_row a patch seen xs new rest))
        ]
  ]

  -- After the completion every augment of the catalog has a row, and the rows that there were come
  -- first.
  pub complete_reference_entities-IsComplete :
      (a patch : String) (rows : List (Row F))
      → member a augments ≡ true
      → (has_row a (complete_reference_entities fl "augment" rows patch) ≡ true)
        × ((missing : List (Row F)) × (complete_reference_entities fl "augment" rows patch
              ≡ rows ++ missing))
  unfolding complete_reference_entities
  complete_reference_entities-IsComplete a patch rows h = (
    any_of-append (λ r. str_eq r.entity_id a) rows _
        ∙ elim (Bool-cases (member a (map (λ r. r.entity_id) rows))) [
          | inl e ↦ or_left _ _ (member-has_row a rows e)
          | inr e ↦ or_right _ _ (added-has_row a patch (map (λ r. r.entity_id) rows) augments e h)
        ],
    (_, refl),
  )
