-- ===== src/Api/Routes.antt =====
-- The list and entity routes of api/main.py, with `Service._scan` and `_select_tiers` of
-- api/service.py: parameters are cleaned, the limit is clamped, and the scan goes through the response
-- cache. What the meta store answers to a scan at a time is a parameter, as is the text of a list of
-- code points. Only the route of the augments has a category; the others leave it empty.
pub mod Listed
use tft_stats_analytics.Base.{
  ℕ, String, Bool, true, false, Option, none, some, List, [], ◌∷◌, map, ◌==◌, if◌then◌else◌,
  keep_if,
}
use tft_stats_analytics.Base.Dict.{Eq, string_eq, pair_eq}
use tft_stats_analytics.Base.Float.{Float}
use tft_stats_analytics.Base.Int.{ℤ, pos, pos_part}
use tft_stats_analytics.Proto.{StatEntry}
use tft_stats_analytics.Api.Cache.{Cache, get_or_compute}
use tft_stats_analytics.Api.Security.Params.{
  Text, Unicode, Result, ok, err, ◌>>=◌, clean_param, strip, clamp,
}
use tft_stats_analytics.Api.Service.{Row, by_win_rate, list_entities, Answer, get_entity}

-- `MAX_LIMIT`, at its default
abbrev pub max_limit : ℕ
max_limit = 1000

-- `sec.clamp(limit, 1, sec.MAX_LIMIT)`
unfoldable pub limit_of : ℤ → ℕ
unfolding clamp
limit_of limit = pos_part (clamp (some limit) (pos 1) (pos max_limit))

-- What `_filters` returns.
pub record Filters : Type 0 where
  pub patch : Text
  pub region : Text
  pub tier : Text
  pub tier_range : Text

abbrev pub push_char : ℕ → List Text → List Text
push_char c [] = (c ∷ []) ∷ []
push_char c (t ∷ ts) = (c ∷ t) ∷ ts

-- `s.split(",")`
unfoldable pub split_commas : Text → List Text
split_commas [] = [] ∷ []
split_commas (c ∷ cs) =
    let rest = split_commas cs in if c == b',' then [] ∷ rest else push_char c rest

abbrev pub is_filled : Text → Bool
is_filled [] = false
is_filled (c ∷ cs) = true

-- The key of a scan in the cache.
abbrev pub ScanKey : Type 0
ScanKey = String × (String × String)

module _ (u : Unicode) where
  -- `_filters`
  unfoldable pub filters : Text → Text → Text → Text → Result Filters
  unfolding clean_param
  filters patch region tier tier_range = do
    p ← clean_param u (some patch)
    r ← clean_param u (some region)
    t ← clean_param u (some tier)
    tr ← clean_param u (some tier_range)
    ok (record { patch = p; region = r; tier = t; tier_range = tr })

  module _ (text : Text → String) where
    -- `_select_tiers`; an empty text is `None` for both
    unfoldable pub select_tiers : Text → Text → Option (List String)
    unfolding split_commas strip
    select_tiers [] [] = none
    select_tiers [] (c ∷ cs) =
        some (map text (keep_if is_filled (map (strip u) (split_commas (c ∷ cs)))))
    select_tiers (c ∷ cs) tier_range = some (text (c ∷ cs) ∷ [])

    module _ (fl : Float) (scan : ℕ → ScanKey → List (StatEntry fl.F)) where
      open fl use {F}

      abbrev pub ScanCache : Type 0
      ScanCache = Cache ScanKey (List (StatEntry F))

      instance abbrev pub scan_eq : Eq ScanKey
      scan_eq = pair_eq ⦃e = string_eq⦄ ⦃f = pair_eq ⦃e = string_eq⦄ ⦃f = string_eq⦄⦄

      -- `_scan`
      unfoldable pub cached_scan : ℕ → ScanKey → ScanCache → ScanCache × List (StatEntry F)
      unfolding get_or_compute
      cached_scan now key c = get_or_compute ⦃e = scan_eq⦄ now key (scan now key) c

      -- The request of a list.
      pub record ListRequest : Type 0 where
        pub patch : Text
        pub region : Text
        pub tier : Text
        pub tier_range : Text
        pub category : Text
        pub limit : ℤ

      -- What a list route cleans: the filters, and then the category.
      abbrev pub cleaned : ListRequest → Result (Filters × Text)
      cleaned q = do
        f ← filters q.patch q.region q.tier q.tier_range
        category ← clean_param u (some q.category)
        ok (f, category)

      -- The call of `list_entities` on the cleaned parameters.
      unfoldable pub answer_list :
          String → ℤ → ℕ → ScanCache → Result (Filters × Text) → ScanCache × Result (List (Row F))
      unfolding cached_scan select_tiers limit_of list_entities
      answer_list entity_type limit now c (err e) = (c, err e)
      answer_list entity_type limit now c (ok (f, category)) =
          let scanned = cached_scan now (entity_type, (text f.patch, text f.region)) c in
          (
            scanned.0,
            ok (
                list_entities fl entity_type (text f.patch) (select_tiers f.tier f.tier_range)
                  (limit_of limit) by_win_rate (text category) scanned.1),
          )

      -- The routes `get_compositions`, `get_champions`, `get_items` and `get_augments`.
      unfoldable pub list_route :
          String → ListRequest → ℕ → ScanCache → ScanCache × Result (List (Row F))
      unfolding answer_list filters clean_param
      list_route entity_type q now c = answer_list entity_type q.limit now c (cleaned q)

      -- The call of `get_entity` on the cleaned parameters.
      unfoldable pub answer_entity :
          String → ℕ → ScanCache → Result (Filters × Text) → ScanCache × Result (Answer fl)
      unfolding cached_scan get_entity
      answer_entity entity_type now c (err e) = (c, err e)
      answer_entity entity_type now c (ok (f, id)) =
          let scanned = cached_scan now (entity_type, (text f.patch, text f.region)) c in
          (
            scanned.0,
            ok (get_entity fl entity_type (text id) (text f.patch) (text f.tier) scanned.1),
          )

      -- The routes `get_composition`, `get_champion`, `get_item` and `get_augment`.
      unfoldable pub entity_route :
          String → Text → Text → Text → Text → ℕ → ScanCache → ScanCache × Result (Answer fl)
      unfolding answer_entity filters clean_param
      entity_route entity_type entity_id patch tier region now c =
          answer_entity entity_type now c
            (do f ← filters patch region tier []; id ← clean_param u (some entity_id); ok (f, id))
