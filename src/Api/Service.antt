-- ===== src/Api/Service.antt =====
-- The queries of api/service.py over the entries that a scan of the meta store answers, which are
-- an argument. A limit is positive, as the routes clamp it, and the routes sort by a number.
pub mod Groups
pub mod Served
pub mod Backed
pub mod Complete
pub mod Compare
pub mod Gap
pub mod Pairs
pub mod Players
pub mod Feed
use tft_stats_analytics.Base.{
  ℕ, ◌+◌, ◌*◌, ◌≤◌, String, Bool, true, false, not, ◌&&◌, Option, none, some, List, [], ◌∷◌, ◌++◌,
  map, ltb, leb, ◌==◌, str_eq, if◌then◌else◌, length, keep_if, sum_of, take,
}
use tft_stats_analytics.Base.Count.{bit}
use tft_stats_analytics.Base.Dict.{get_or, insert, member, add_key, string_eq}
use tft_stats_analytics.Base.Order.{Order, nat_order, str_order, pair_order, str_leq}
use tft_stats_analytics.Base.Sort.{sort_by}
use tft_stats_analytics.Base.Float.{Float, total}
use tft_stats_analytics.Proto.{StatEntry}
use tft_stats_analytics.TftData.{default_patch, tier_rank}
use tft_stats_analytics.TftData.Augments.{augments}
use tft_stats_analytics.TftData.AugmentTiers.{augment_tiers}
use tft_stats_analytics.TftData.AugmentCategories.{augment_categories}
use tft_stats_analytics.Api.Security.Params.{codes, contains}

-- `MIN_SAMPLE_SIZE`
abbrev pub min_sample_size : ℕ
min_sample_size = 200

-- `_entry_dict`, with the two fields that `_decorate_entity` adds to an augment.
pub record Row (F : Type 0) : Type 0 where
  pub entity_id : String
  pub entity_type : String
  pub win_rate : F
  pub avg_placement : F
  pub play_rate : F
  pub sample_size : ℕ
  pub patch : String
  pub tiers : List String
  pub regions : List String
  pub augment_tier : Option String
  pub augment_category : Option String

-- `sorted(set(xs))`
unfoldable pub sorted_set : List String → List String
unfolding sort_by add_key str_leq
sorted_set xs = sort_by (λ x. x) (distinct [] xs)
  where
    distinct : List String → List String → List String
    distinct seen [] = seen
    distinct seen (y ∷ ys) = distinct (add_key y seen) ys

-- `_augment_category`
unfoldable pub category_of : String → String
unfolding get_or augment_categories contains
category_of entity_id =
    get_or (if contains (codes "GodAugment") (codes entity_id) then "god" else "standard") entity_id
      augment_categories

-- `_decorate_entity`
unfoldable pub decorate : {F : Type 0} → Row F → Row F
unfolding category_of get_or augment_tiers
decorate row =
    if str_eq row.entity_type "augment"
    then record row {
      augment_tier = some (get_or "unknown" row.entity_id augment_tiers);
      augment_category = some (category_of row.entity_id);
    }
    else row

-- The groups of a `defaultdict(list)`, in the order of their first entries.
unfoldable pub group_by :
    {A : Type 0} → (A → String) → List (String × List A) → List A → List (String × List A)
unfolding insert get_or
group_by key groups [] = groups
group_by key groups (e ∷ es) =
    group_by key (insert (key e) (get_or [] (key e) groups ++ (e ∷ [])) groups) es

module _ (fl : Float) where
  open fl use {F, of_nat, mul, div, neg, order}

  abbrev pub samples_of : List (StatEntry F) → ℕ
  samples_of es = sum_of (λ e. e.sample_size) es

  -- `sum(e.rate * e.sample_size for e in es) / total`
  unfoldable pub weighted : (StatEntry F → F) → List (StatEntry F) → F
  weighted rate es =
      div (total fl (map (λ e. mul (rate e) (of_nat e.sample_size)) es)) (of_nat (samples_of es))

  -- The row of a group, which is not empty.
  unfoldable pub row_of : String → StatEntry F → List (StatEntry F) → Row F
  unfolding weighted decorate sorted_set
  row_of entity_id e es = decorate (record {
    entity_id = entity_id;
    entity_type = e.entity_type;
    win_rate = fl.round (weighted (λ x. x.win_rate) (e ∷ es)) 4;
    avg_placement = fl.round (weighted (λ x. x.avg_placement) (e ∷ es)) 4;
    play_rate = fl.round (weighted (λ x. x.play_rate) (e ∷ es)) 4;
    sample_size = samples_of (e ∷ es);
    patch = e.patch;
    tiers = sorted_set (map (λ x. x.tier) (e ∷ es));
    regions = sorted_set (map (λ x. x.region) (e ∷ es));
    augment_tier = none;
    augment_category = none;
  })

  -- The loop over the groups: a group without samples is skipped.
  unfoldable pub rows_of : List (String × List (StatEntry F)) → List (Row F)
  unfolding row_of
  rows_of [] = []
  rows_of ((entity_id, []) ∷ groups) = rows_of groups
  rows_of ((entity_id, e ∷ es) ∷ groups) =
      if samples_of (e ∷ es) == 0 then rows_of groups else row_of entity_id e es ∷ rows_of groups

  unfoldable pub aggregate_by_entity : List (StatEntry F) → List (Row F)
  unfolding rows_of group_by
  aggregate_by_entity entries = rows_of (group_by (λ e. e.entity_id) [] entries)

  -- `_empty_reference_entry`
  unfoldable pub empty_reference_entry : String → String → String → Row F
  empty_reference_entry entity_id entity_type patch = record {
    entity_id = entity_id;
    entity_type = entity_type;
    win_rate = fl.round (of_nat 0) 4;
    avg_placement = fl.round (of_nat 8) 4;
    play_rate = fl.round (of_nat 0) 4;
    sample_size = 0;
    patch = if str_eq patch "" then default_patch else patch;
    tiers = [];
    regions = [];
    augment_tier = none;
    augment_category = none;
  }

  unfoldable pub complete_reference_entities : String → List (Row F) → String → List (Row F)
  unfolding member augments decorate empty_reference_entry
  complete_reference_entities entity_type rows patch =
      let seen = map (λ r. r.entity_id) rows in
      if str_eq entity_type "augment"
      then rows
        ++ map (λ a. decorate (empty_reference_entry a "augment" patch))
            (keep_if (λ a. not (member a seen)) augments)
      else rows

  -- The numbers by which a list can be sorted.
  pub data SortBy : Type 0 where
    by_win_rate by_avg_placement by_play_rate by_sample_size : SortBy

  -- The key of the sort; only average placements ascend.
  abbrev pub sort_value : SortBy → Row F → F
  sort_value by_win_rate r = neg r.win_rate
  sort_value by_avg_placement r = r.avg_placement
  sort_value by_play_rate r = neg r.play_rate
  sort_value by_sample_size r = neg (of_nat r.sample_size)

  abbrev pub sort_key : SortBy → Row F → ℕ × F
  sort_key sort r = (bit (r.sample_size == 0), sort_value sort r)

  instance abbrev pub key_order : Order (ℕ × F)
  key_order = pair_order ⦃o = nat_order⦄ ⦃q = order⦄

  -- `entries` with one of the tiers, or all
  abbrev pub in_tiers : Option (List String) → List (StatEntry F) → List (StatEntry F)
  in_tiers none entries = entries
  in_tiers (some tiers) entries = keep_if (λ e. member e.tier tiers) entries

  abbrev pub has_category : String → Row F → Bool
  has_category category r = elim r.augment_category [ none ↦ false | some c ↦ str_eq c category ]

  -- The rows that are sorted: augments are completed and filtered by category, and rows of other
  -- types by sample size.
  unfoldable pub selected : String → String → String → List (Row F) → List (Row F)
  unfolding complete_reference_entities
  selected entity_type patch category rows =
      let full = complete_reference_entities entity_type rows patch in
      if str_eq entity_type "augment"
      then (if str_eq category "" then full else keep_if (has_category category) full)
      else keep_if (λ r. leb min_sample_size r.sample_size) rows

  unfoldable pub list_entities :
      String
      → String
      → Option (List String)
      → ℕ
      → SortBy
      → String
      → List (StatEntry F)
      → List (Row F)
  unfolding aggregate_by_entity selected sort_by member
  list_entities entity_type patch tiers limit sort category entries = take limit (
      sort_by (sort_key sort)
        (selected entity_type patch category (aggregate_by_entity (in_tiers tiers entries))))

  -- What `get_entity` answers.
  pub data Answer : Type 0 where
    found : Row F → Answer
    insufficient_data : String → Answer

  -- The entries of an entity, in one tier unless that is empty.
  abbrev pub of_entity : String → String → List (StatEntry F) → List (StatEntry F)
  of_entity entity_id tier entries =
      let mine = keep_if (λ e. str_eq e.entity_id entity_id) entries in
      if str_eq tier "" then mine else keep_if (λ e. str_eq e.tier tier) mine

  abbrev pub answer_of : String → String → String → List (Row F) → Answer
  answer_of entity_type entity_id patch [] =
      if str_eq entity_type "augment" && member entity_id augments
      then found (decorate (empty_reference_entry entity_id "augment" patch))
      else insufficient_data entity_id
  answer_of entity_type entity_id patch (r ∷ rows) = found (decorate r)

  unfoldable pub get_entity : String → String → String → String → List (StatEntry F) → Answer
  unfolding aggregate_by_entity decorate empty_reference_entry member augments
  get_entity entity_type entity_id patch tier entries =
      let rows = aggregate_by_entity (of_entity entity_id tier entries) in
      answer_of entity_type entity_id patch (
        if str_eq entity_type "augment"
        then rows
        else keep_if (λ r. leb min_sample_size r.sample_size) rows)
