-- ===== src/Api/Service/Compare.antt =====
-- `tier_comparison` and `patch_history` of api/service.py, on the entries of the scans of all entity types in their order.
pub mod Series
use tft_stats_analytics.Base.{
  ℕ, String, Bool, true, false, Option, none, some, List, [], ◌∷◌, ◌++◌, ltb, leb, str_eq,
  if◌then◌else◌, keep_if, map,
}
use tft_stats_analytics.Base.Dict.{get_or, insert, string_eq}
use tft_stats_analytics.Base.Order.{nat_order, str_order, str_leq}
use tft_stats_analytics.Base.Sort.{sort_by}
use tft_stats_analytics.Base.Float.{Float}
use tft_stats_analytics.Proto.{StatEntry}
use tft_stats_analytics.TftData.{tier_rank}
use tft_stats_analytics.Api.Service.{group_by, samples_of, weighted, min_sample_size, sorted_set}

pub record TierPoint (F : Type 0) : Type 0 where
  pub tier : String
  pub rank : ℕ
  pub win_rate : F
  pub avg_placement : F
  pub sample_size : ℕ

pub record PatchPoint (F : Type 0) : Type 0 where
  pub patch : String
  pub win_rate : F
  pub sample_size : ℕ

-- `td.TIER_RANK.get(tier, 99)`
unfoldable pub rank_of : String → ℕ
unfolding get_or tier_rank
rank_of tier = get_or 99 tier tier_rank

module _ (fl : Float) where
  open fl use {F}

  unfoldable pub tier_point : String → List (StatEntry F) → TierPoint F
  unfolding rank_of weighted
  tier_point tier es = record {
    tier = tier;
    rank = rank_of tier;
    win_rate = fl.round (weighted fl (λ e. e.win_rate) es) 4;
    avg_placement = fl.round (weighted fl (λ e. e.avg_placement) es) 4;
    sample_size = samples_of fl es;
  }

  unfoldable pub patch_point : String → List (StatEntry F) → PatchPoint F
  unfolding weighted
  patch_point patch es = record {
    patch = patch;
    win_rate = fl.round (weighted fl (λ e. e.win_rate) es) 4;
    sample_size = samples_of fl es;
  }

  -- The loop over the groups of both queries: groups below the least sample size are skipped.
  unfoldable pub points :
      {P : Type 0} → (String → List (StatEntry F) → P) → List (String × List (StatEntry F)) → List P
  points point [] = []
  points point ((key, es) ∷ groups) =
      let rest = points point groups in
      if ltb (samples_of fl es) min_sample_size then rest else point key es ∷ rest

  abbrev pub of_id : String → List (StatEntry F) → List (StatEntry F)
  of_id entity_id entries = keep_if (λ e. str_eq e.entity_id entity_id) entries

  -- The scans, each with the entity type that it asked for.
  abbrev pub Scans : Type 0
  Scans = List (String × List (StatEntry F))

  -- `all_entries`
  unfoldable pub all_entries : String → Scans → List (StatEntry F)
  all_entries entity_id [] = []
  all_entries entity_id ((entity_type, es) ∷ scans) =
      of_id entity_id es ++ all_entries entity_id scans

  abbrev pub type_or : String → List (StatEntry F) → Option String → Option String
  type_or entity_type es (some t) = some t
  type_or entity_type [] none = none
  type_or entity_type (e ∷ es) none = some entity_type

  -- `etype`: the type of the last scan that knows the entity.
  unfoldable pub last_type : String → Scans → Option String
  last_type entity_id [] = none
  last_type entity_id ((entity_type, es) ∷ scans) =
      type_or entity_type (of_id entity_id es) (last_type entity_id scans)

  unfoldable pub tier_series : List (StatEntry F) → List (TierPoint F)
  unfolding points tier_point sort_by group_by
  tier_series entries =
      sort_by (λ p. p.rank) (points tier_point (group_by (λ e. e.tier) [] entries))

  -- `none` is the answer `insufficient_data`; there is a type exactly if there are entries.
  unfoldable pub tier_comparison : String → Scans → Option (String × List (TierPoint F))
  unfolding last_type tier_series all_entries
  tier_comparison entity_id scans = elim (last_type entity_id scans) [
    | none ↦ none
    | some entity_type ↦ some (entity_type, tier_series (all_entries entity_id scans))
  ]

  unfoldable pub patch_series : String → List (StatEntry F) → List (PatchPoint F)
  unfolding points patch_point sort_by group_by str_leq
  patch_series entity_id entries =
      sort_by (λ p. p.patch)
        (points patch_point (group_by (λ e. e.patch) [] (of_id entity_id entries)))

  -- What `patch_history` answers: the patches that there are, or the series of an entity.
  pub data PatchHistory : Type 0 where
    patches : List String → PatchHistory
    series : String → List (PatchPoint F) → PatchHistory

  -- `not entity_id`
  abbrev pub is_missing : Option String → Bool
  is_missing none = true
  is_missing (some entity_id) = str_eq entity_id ""

  unfoldable pub patch_history : Option String → List (StatEntry F) → PatchHistory
  unfolding patch_series sorted_set
  patch_history none entries = patches (sorted_set (map (λ e. e.patch) entries))
  patch_history (some entity_id) entries =
      if is_missing (some entity_id)
      then patches (sorted_set (map (λ e. e.patch) entries))
      else series entity_id (patch_series entity_id entries)
