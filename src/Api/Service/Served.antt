-- ===== src/Api/Service/Served.antt =====
-- What `list_entities` and `get_entity` of api/service.py serve.
use tft_stats_analytics.Base.{
  ℕ, ◌≤◌, String, ◌≡◌, ◌∙◌, subst, false, Option, List, [], ◌∷◌, arith, eq_iff, str_eq, ◌==◌, leb,
  keep_if, All, All-of, All-keep_if, All-keep_if_of, All-take, length, length-take, Bool-cases, inl,
  inr,
}
use tft_stats_analytics.Base.Dict.{insert, string_eq}
use tft_stats_analytics.Base.Sort.{sort_by, IsSorted, sort_by-IsSorted, take-IsSorted, All-sort_by}
use tft_stats_analytics.Base.Float.{Float}
use tft_stats_analytics.Proto.{StatEntry}
use tft_stats_analytics.Api.Service.{
  Row, samples_of, decorate, group_by, rows_of, aggregate_by_entity, selected, list_entities,
  get_entity, SortBy, sort_key, key_order, found, answer_of, of_entity, in_tiers, min_sample_size,
}
use tft_stats_analytics.Api.Service.Groups.{
  decorate-same_id, decorate-same_size, row_of-same_id, Groups,
}

module _ (fl : Float) where
  open fl use {F}

  -- A row rests on enough samples, unless the type is that of the augments.
  abbrev pub IsServed : String → Row F → Type 0
  IsServed entity_type r = str_eq entity_type "augment" ≡ false → 200 ≤ r.sample_size

  selected-IsServed :
      (entity_type patch category : String) (rows : List (Row F))
      → All (IsServed entity_type) (selected fl entity_type patch category rows)
  unfolding selected
  selected-IsServed entity_type patch category rows =
      elim (Bool-cases (str_eq entity_type "augment")) [
        | inl e ↦
            All-of (IsServed entity_type) (λ r other. absurd (ground arith))
              (selected fl entity_type patch category rows)
        | inr e ↦ rw e (
            All-keep_if (IsServed entity_type) (λ r. leb min_sample_size r.sample_size) rows
              (λ r enough other. ground arith))
      ]

  -- For every type but the augments, each row that `list_entities` returns rests on at least 200
  -- samples; for every type, the rows ascend by the sort key and are at most `limit`.
  pub list_entities-IsServed :
      (entity_type patch category : String) (tiers : Option (List String)) (limit : ℕ)
      (sort : SortBy fl) (entries : List (StatEntry F))
      → All
          (IsServed entity_type)
          (list_entities fl entity_type patch tiers limit sort category entries)
        × IsSorted ⦃o = key_order fl⦄
            (sort_key fl sort)
            (list_entities fl entity_type patch tiers limit sort category entries)
        × (length (list_entities fl entity_type patch tiers limit sort category entries) ≤ limit)
  unfolding list_entities
  list_entities-IsServed entity_type patch category tiers limit sort entries =
      let rows : List (Row F) =
        selected fl entity_type patch category
          (aggregate_by_entity fl (in_tiers fl tiers entries)) in
      let sorted : List (Row F) = sort_by ⦃o = key_order fl⦄ (sort_key fl sort) rows in
      (
        All-take (IsServed entity_type) limit sorted (
            All-sort_by ⦃o = key_order fl⦄ (sort_key fl sort) (IsServed entity_type) rows
              (selected-IsServed entity_type patch category _)),
        take-IsSorted ⦃o = key_order fl⦄ (sort_key fl sort) limit sorted
            (sort_by-IsSorted ⦃o = key_order fl⦄ (sort_key fl sort) rows),
        omega (arith, length-take limit sorted),
      )

  module _ (entity_id : String) where
    abbrev Mine : StatEntry F → Type 0
    Mine e = e.entity_id ≡ entity_id

    abbrev MineGroup : String × List (StatEntry F) → Type 0
    MineGroup g = g.0 ≡ entity_id

    All-insert :
        (k : String) (v : List (StatEntry F)) (groups : Groups fl)
        → k ≡ entity_id
        → All MineGroup groups
        → All MineGroup (insert k v groups)
    unfolding insert
    All-insert k v [] h a = (h, tt)
    All-insert k v ((j, w) ∷ groups) h a = elim (Bool-cases (str_eq j k)) [
      | inl e ↦ rw e (a.0, a.1)
      | inr e ↦ rw e (a.0, All-insert k v groups h a.1)
    ]

    All-group_by :
        (entries : List (StatEntry F)) (groups : Groups fl)
        → All Mine entries
        → All MineGroup groups
        → All MineGroup (group_by (λ e. e.entity_id) groups entries)
    unfolding group_by
    All-group_by [] groups m a = a
    All-group_by (e ∷ es) groups m a = All-group_by es _ m.1 (All-insert e.entity_id _ groups m.0 a)

    All-rows_of :
        (groups : Groups fl)
        → All MineGroup groups
        → All (λ r. r.entity_id ≡ entity_id) (rows_of fl groups)
    unfolding rows_of
    All-rows_of [] a = tt
    All-rows_of ((j, []) ∷ groups) a = All-rows_of groups a.1
    All-rows_of ((j, e ∷ es) ∷ groups) a = elim (Bool-cases (samples_of fl (e ∷ es) == 0)) [
      | inl z ↦ rw z (All-rows_of groups a.1)
      | inr z ↦ rw z (row_of-same_id fl j e es ∙ a.0, All-rows_of groups a.1)
    ]

    of_entity-Mine :
        (tier : String) (entries : List (StatEntry F))
        → All Mine (of_entity fl entity_id tier entries)
    of_entity-Mine tier entries =
        let mine : All Mine (keep_if (λ e. str_eq e.entity_id entity_id) entries) =
          All-keep_if Mine (λ e. str_eq e.entity_id entity_id) entries
            (λ e q. (eq_iff e.entity_id entity_id).0 q) in
        elim (Bool-cases (str_eq tier "")) [
          | inl q ↦ rw q mine
          | inr q ↦ rw q (All-keep_if_of Mine (λ e. str_eq e.tier tier) _ mine)
        ]

    rows-Mine :
        (tier : String) (entries : List (StatEntry F))
        → All
            (λ r. r.entity_id ≡ entity_id)
            (aggregate_by_entity fl (of_entity fl entity_id tier entries))
    unfolding aggregate_by_entity
    rows-Mine tier entries = All-rows_of _ (All-group_by _ [] (of_entity-Mine tier entries) tt)

    answer_of-IsServed :
        (entity_type patch : String) (rows : List (Row F)) (r : Row F)
        → str_eq entity_type "augment" ≡ false
        → All (λ x. x.entity_id ≡ entity_id) rows
        → All (λ x. 200 ≤ x.sample_size) rows
        → answer_of fl entity_type entity_id patch rows ≡ found r
        → (r.entity_id ≡ entity_id) × (200 ≤ r.sample_size)
    answer_of-IsServed entity_type patch [] r other m a h = absurd (ground arith)
    answer_of-IsServed entity_type patch (x ∷ rows) r other m a h =
        let same : decorate x ≡ r = cc in
        subst (λ y. (y.entity_id ≡ entity_id) × (200 ≤ y.sample_size)) same
          (decorate-same_id x ∙ m.0, rw (decorate-same_size x) a.0)

    -- For every type but the augments, a row that `get_entity` finds is of the entity asked for and
    -- rests on at least 200 samples.
    pub get_entity-IsServed :
        (entity_type patch tier : String) (entries : List (StatEntry F)) (r : Row F)
        → str_eq entity_type "augment" ≡ false
        → get_entity fl entity_type entity_id patch tier entries ≡ found r
        → (r.entity_id ≡ entity_id) × (200 ≤ r.sample_size)
    unfolding get_entity
    get_entity-IsServed entity_type patch tier entries r other h =
        let rows : List (Row F) = aggregate_by_entity fl (of_entity fl entity_id tier entries) in
        let enough : List (Row F) = keep_if (λ x. leb min_sample_size x.sample_size) rows in
        let answered : answer_of fl entity_type entity_id patch enough ≡ found r = rw other at h in
        answer_of-IsServed entity_type patch enough r other
          (All-keep_if_of (λ x. x.entity_id ≡ entity_id) _ rows (rows-Mine tier entries))
          (All-keep_if (λ x. 200 ≤ x.sample_size) _ rows (λ x q. ground arith)) answered
