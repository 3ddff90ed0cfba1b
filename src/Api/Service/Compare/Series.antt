-- ===== src/Api/Service/Compare/Series.antt =====
-- The series that `tier_comparison` and `patch_history` of api/service.py return.
use tft_stats_analytics.Base.{
  ℕ, ◌≤◌, String, ◌≡◌, refl, Option, none, some, List, map, str_eq, [], ◌∷◌, arith, ltb, All,
  Bool-cases, Option-cases, inl, inr, subst,
}
use tft_stats_analytics.Base.Dict.{string_eq}
use tft_stats_analytics.Base.Order.{nat_order, str_order}
use tft_stats_analytics.Base.Sort.{IsSorted, sort_by-IsSorted, All-sort_by}
use tft_stats_analytics.Base.Float.{Float}
use tft_stats_analytics.Proto.{StatEntry}
use tft_stats_analytics.Api.Service.{group_by, samples_of, min_sample_size, sorted_set}
use tft_stats_analytics.Api.Service.Compare.{
  TierPoint, PatchPoint, rank_of, tier_point, patch_point, points, of_id, tier_series,
  tier_comparison, Scans, all_entries, patch_series, PatchHistory, patches, series, patch_history,
  last_type,
}

module _ (fl : Float) where
  open fl use {F}

  points-All :
      {P : Type 0} (Q : P → Type 0) (point : String → List (StatEntry F) → P)
      (groups : List (String × List (StatEntry F)))
      → ((key : String) (es : List (StatEntry F)) → 200 ≤ samples_of fl es → Q (point key es))
      → All Q (points fl point groups)
  unfolding points
  points-All Q point [] h = tt
  points-All Q point ((key, es) ∷ groups) h =
      elim (Bool-cases (ltb (samples_of fl es) min_sample_size)) [
        | inl e ↦ rw e (points-All Q point groups h)
        | inr e ↦ rw e (h key es (ground arith), points-All Q point groups h)
      ]

  -- A point of a tier's series.
  abbrev pub IsTierPoint : TierPoint F → Type 0
  IsTierPoint p = (200 ≤ p.sample_size) × (p.rank ≡ rank_of p.tier)

  tier_point-IsTierPoint :
      (tier : String) (es : List (StatEntry F))
      → 200 ≤ samples_of fl es
      → IsTierPoint (tier_point fl tier es)
  unfolding tier_point
  tier_point-IsTierPoint tier es h = (h, refl)

  tier_series-IsServed :
      (entries : List (StatEntry F))
      → All IsTierPoint (tier_series fl entries) × IsSorted (λ p. p.rank) (tier_series fl entries)
  unfolding tier_series
  tier_series-IsServed entries =
      let groups : List (String × List (StatEntry F)) = group_by (λ x. x.tier) [] entries in
      let raw : List (TierPoint F) = points fl (tier_point fl) groups in
      (
        All-sort_by {K = ℕ} (λ p. p.rank) IsTierPoint raw
            (points-All IsTierPoint (tier_point fl) groups tier_point-IsTierPoint),
        sort_by-IsSorted {K = ℕ} (λ p. p.rank) raw,
      )

  -- The series that `tier_comparison` returns has only points on at least 200 samples, each with the
  -- rank of its tier, and ascends by rank.
  pub tier_comparison-IsServed :
      (entity_id entity_type : String) (scans : Scans fl) (listed_ : List (TierPoint F))
      → tier_comparison fl entity_id scans ≡ some (entity_type, listed_)
      → All IsTierPoint listed_ × IsSorted (λ p. p.rank) listed_
  unfolding tier_comparison
  tier_comparison-IsServed entity_id entity_type scans listed_ h =
      elim (Option-cases (last_type fl entity_id scans)) [
        | inl e ↦ absurd (ground arith)
        | inr (t, e) ↦
            let same : tier_series fl (all_entries fl entity_id scans) ≡ listed_ = ground arith in
            subst (λ s. All IsTierPoint s × IsSorted (λ p. p.rank) s) same
              (tier_series-IsServed (all_entries fl entity_id scans))
      ]

  patch_point-sampled :
      (patch : String) (es : List (StatEntry F))
      → 200 ≤ samples_of fl es
      → 200 ≤ (patch_point fl patch es).sample_size
  unfolding patch_point
  patch_point-sampled patch es h = h

  patch_series-IsServed :
      (entity_id : String) (entries : List (StatEntry F))
      → All (λ p. 200 ≤ p.sample_size) (patch_series fl entity_id entries)
        × IsSorted (λ p. p.patch) (patch_series fl entity_id entries)
  unfolding patch_series
  patch_series-IsServed entity_id entries =
      let groups : List (String × List (StatEntry F)) =
        group_by (λ e. e.patch) [] (of_id fl entity_id entries) in
      let raw : List (PatchPoint F) = points fl (patch_point fl) groups in
      (
        All-sort_by {K = String} (λ p. p.patch) (λ p. 200 ≤ p.sample_size) raw
            (points-All (λ p. 200 ≤ p.sample_size) (patch_point fl) groups patch_point-sampled),
        sort_by-IsSorted {K = String} (λ p. p.patch) raw,
      )

  -- A series has only points on at least 200 samples, and it ascends by patch; the list of all patches
  -- ascends too.
  abbrev pub IsHistory : PatchHistory fl → Type 0
  IsHistory (patches ps) = IsSorted (λ p. p) ps
  IsHistory (series entity_id listed_) =
      All (λ p. 200 ≤ p.sample_size) listed_ × IsSorted (λ p. p.patch) listed_

  all_patches-IsHistory :
      (entries : List (StatEntry F)) → IsHistory (patches (sorted_set (map (λ e. e.patch) entries)))
  unfolding sorted_set
  all_patches-IsHistory entries = search sort_by-IsSorted

  -- With or without an entity, `patch_history` answers patches in ascending order, and of an entity
  -- only those on at least 200 samples.
  pub patch_history-IsHistory :
      (entity_id : Option String) (entries : List (StatEntry F))
      → IsHistory (patch_history fl entity_id entries)
  unfolding patch_history
  patch_history-IsHistory none entries = all_patches-IsHistory entries
  patch_history-IsHistory (some entity_id) entries = elim (Bool-cases (str_eq entity_id "")) [
    | inl e ↦ rw (patch_history, e) (all_patches-IsHistory entries)
    | inr e ↦ rw (patch_history, e) (patch_series-IsServed entity_id entries)
  ]
