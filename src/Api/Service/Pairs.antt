-- ===== src/Api/Service/Pairs.antt =====
-- `champion_item_pairs` of api/service.py on the entries of a scan: the pair statistics as a grid of
-- champions and items.
pub mod Grid
use tft_stats_analytics.Base.{
  ℕ, ◌+◌, String, Bool, not, Option, none, some, List, [], ◌∷◌, ◌++◌, map, leb, ◌==◌, str_eq,
  if◌then◌else◌, take, keep_if,
}
use tft_stats_analytics.Base.Dict.{get_or, insert, lookup, string_eq, pair_eq}
use tft_stats_analytics.Base.Float.{Float}
use tft_stats_analytics.Base.Order.{Down, down_order, nat_order}
use tft_stats_analytics.Base.Sort.{sort_by}
use tft_stats_analytics.Base.Text.{all_chars, partition}
use tft_stats_analytics.Proto.{StatEntry}
use tft_stats_analytics.Api.Service.{Row, aggregate_by_entity, min_sample_size}

pub record Cell (F : Type 0) : Type 0 where
  pub champion : String
  pub item : String
  pub win_rate : F
  pub avg_placement : F
  pub sample_size : ℕ

abbrev pub Samples : Type 0
Samples = List (String × ℕ)

-- `champ_samples`, `item_samples` and `cell`
pub record Pivot (F : Type 0) : Type 0 where
  pub champ_samples : Samples
  pub item_samples : Samples
  pub cell : List ((String × String) × Row F)

-- `"|" in s`
abbrev pub has_bar : String → Bool
has_bar s = not (all_chars (λ c. not (c == b'|')) s)

-- The keys with the most samples, the first ones of equal ones.
unfoldable pub top : ℕ → Samples → List String
unfolding sort_by
top n samples =
    take n (map (λ kv. kv.0) (sort_by {K = Down ℕ} (λ kv. record { value = kv.1 }) samples))

module _ {F : Type 0} where
  abbrev pub no_pivot : Pivot F
  no_pivot = record { champ_samples = []; item_samples = []; cell = [] }

  -- The body of the loop for an id with a bar.
  unfoldable pub add_pair : String × String → Row F → Pivot F → Pivot F
  unfolding insert get_or
  add_pair (champ, item) r p = record {
    champ_samples = insert champ (get_or 0 champ p.champ_samples + r.sample_size) p.champ_samples;
    item_samples = insert item (get_or 0 item p.item_samples + r.sample_size) p.item_samples;
    cell = insert ⦃e = pair_eq⦄ (champ, item) r p.cell;
  }

  -- The loop over the rows.
  unfoldable pub pivot : List (Row F) → Pivot F → Pivot F
  unfolding add_pair partition
  pivot [] p = p
  pivot (r ∷ rows) p =
      pivot rows (if has_bar r.entity_id then add_pair (partition b'|' r.entity_id) r p else p)

  -- The body of the inner loop, on `cell.get((champ, item))`.
  abbrev pub cell_of : String → String → Option (Row F) → List (Cell F)
  cell_of champ item none = []
  cell_of champ item (some r) =
      if leb min_sample_size r.sample_size
      then record {
        champion = champ;
        item = item;
        win_rate = r.win_rate;
        avg_placement = r.avg_placement;
        sample_size = r.sample_size;
      }
        ∷ []
      else []

  unfoldable pub cells_of : Pivot F → String → List String → List (Cell F)
  unfolding lookup
  cells_of p champ [] = []
  cells_of p champ (item ∷ items) =
      cell_of champ item (lookup ⦃e = pair_eq⦄ (champ, item) p.cell) ++ cells_of p champ items

  -- The two loops that fill `matrix`.
  unfoldable pub matrix : Pivot F → List String → List String → List (Cell F)
  unfolding cells_of
  matrix p [] items = []
  matrix p (champ ∷ champs) items = cells_of p champ items ++ matrix p champs items

-- What the route answers.
pub record Heatmap (F : Type 0) : Type 0 where
  pub champions : List String
  pub items : List String
  pub cells : List (Cell F)

module _ (fl : Float) where
  open fl use {F}

  abbrev pub of_tier : String → List (StatEntry F) → List (StatEntry F)
  of_tier tier entries =
      if str_eq tier "" then entries else keep_if (λ e. str_eq e.tier tier) entries

  unfoldable pub champion_item_pairs : String → ℕ → ℕ → List (StatEntry F) → Heatmap F
  unfolding aggregate_by_entity pivot top matrix
  champion_item_pairs tier top_champions top_items entries =
      let p = pivot (aggregate_by_entity fl (of_tier tier entries)) no_pivot in
      let champions = top top_champions p.champ_samples in
      let items = top top_items p.item_samples in
      record { champions = champions; items = items; cells = matrix p champions items }
