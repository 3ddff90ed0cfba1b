-- ===== src/Api/Routes/Listed.antt =====
-- What the list routes of api/main.py answer.
use tft_stats_analytics.Base.{ℕ, ◌≤◌, ◌<◌, true, String, ◌≡◌, refl, List, arith, length, All}
use tft_stats_analytics.Base.Float.{Float}
use tft_stats_analytics.Base.Int.{ℤ, pos, negsuc}
use tft_stats_analytics.Base.Sort.{IsSorted}
use tft_stats_analytics.Proto.{StatEntry}
use tft_stats_analytics.Api.Security.Params.{Text, Unicode, Result, ok, err, clamp}
use tft_stats_analytics.Api.Service.{Row, by_win_rate, sort_key, key_order, in_tiers}
use tft_stats_analytics.Api.Service.Served.{IsServed, list_entities-IsServed}
use tft_stats_analytics.Api.Service.Backed.{IsBacked, entries_size, list_entities-IsBacked}
use tft_stats_analytics.Api.Service.Complete.{is_unfiltered, has_row, list_entities-has_row}
use tft_stats_analytics.Api.Routes.{
  limit_of, Filters, select_tiers, ScanKey, ScanCache, cached_scan, ListRequest, cleaned,
  answer_list, list_route,
}

limit_of-bounds : (limit : ℤ) → (1 ≤ limit_of limit) × (limit_of limit ≤ 1000)
unfolding limit_of clamp
limit_of-bounds (pos n) = ground arith
limit_of-bounds (negsuc n) = ground arith

module _ (u : Unicode) (text : Text → String) (fl : Float)
    (scan : ℕ → ScanKey → List (StatEntry fl.F)) where
  open fl use {F}

  -- The rows of a list that is served from the entries of the selected tiers: each counts all samples
  -- of its entity, and those of any type but the augments are at least 200; they are sorted by win
  -- rate, the ones without samples last, and at most as many as the limit, up to 1000. Unless they
  -- fill the limit or are filtered by category, no entity with at least 200 samples is missing.
  pub record IsList (entity_type category : String) (limit : ℕ) (entries : List (StatEntry F))
      (rows : List (Row F)) : Type 0 where
    pub backed : All (IsBacked fl entries) rows
    pub enough : All (IsServed fl entity_type) rows
    pub sorted : IsSorted ⦃o = key_order fl⦄ (sort_key fl by_win_rate) rows
    pub few : (length rows ≤ limit) × (limit ≤ 1000)
    pub complete :
        (a : String)
        → is_unfiltered fl entity_type category ≡ true
        → length rows < limit
        → 200 ≤ entries_size fl a entries
        → has_row fl a rows ≡ true

  -- Refused parameters change nothing; otherwise the rows are served from the scan.
  abbrev pub IsListed :
      String
      → ℤ
      → ℕ
      → ScanCache u text fl scan
      → Result (Filters × Text)
      → ScanCache u text fl scan × Result (List (Row F))
      → Type 0
  IsListed entity_type limit now c (err e) result = result ≡ (c, err e)
  IsListed entity_type limit now c (ok (f, category)) result =
      let scanned = cached_scan u text fl scan now (entity_type, (text f.patch, text f.region)) c in
      (rows : List (Row F)) × ((result ≡ (scanned.0, ok rows))
        × IsList entity_type (text category) (limit_of limit)
            (in_tiers fl (select_tiers u text f.tier f.tier_range) scanned.1) rows)

  answer_list-IsListed :
      (entity_type : String) (limit : ℤ) (now : ℕ) (c : ScanCache u text fl scan)
      (r : Result (Filters × Text))
      → IsListed entity_type limit now c r (answer_list u text fl scan entity_type limit now c r)
  unfolding answer_list
  answer_list-IsListed entity_type limit now c (err e) = refl
  answer_list-IsListed entity_type limit now c (ok (f, category)) =
      let entries : List (StatEntry F) =
        (cached_scan u text fl scan now (entity_type, (text f.patch, text f.region)) c).1 in
      let tiers = select_tiers u text f.tier f.tier_range in
      let (served, sorted, few) =
        list_entities-IsServed fl entity_type (text f.patch) (text category) tiers (limit_of limit)
          (by_win_rate) entries in
      let all =
        list_entities-IsBacked fl entity_type (text f.patch) (text category) tiers (limit_of limit)
          (by_win_rate) entries in
      (
        _,
        (
          refl,
          record {
            backed = all;
            enough = served;
            sorted = sorted;
            few = (few, (limit_of-bounds limit).1);
            complete = λ a open_ room enough.
                list_entities-has_row fl entity_type (text f.patch) (text category) a tiers
                  (limit_of limit) (by_win_rate) entries open_ room enough;
          },
        ),
      )

  -- A list route whose parameters are refused leaves the cache as it is and answers the refusal. Any
  -- other one answers at most as many rows as the limit, clamped to 1000, sorted by win rate with those
  -- without samples last. Each row counts exactly the samples that the scanned entries of the selected
  -- tiers have of its entity; those of any type but the augments, which are also listed with fewer
  -- samples or none, rest on at least 200; and unless the rows fill the limit, or augments are filtered
  -- by category, every entity with at least 200 samples there has a row.
  pub list_route-IsListed :
      (entity_type : String) (q : ListRequest u text fl scan) (now : ℕ)
      (c : ScanCache u text fl scan)
      → IsListed entity_type q.limit now c
          (cleaned u text fl scan q)
          (list_route u text fl scan entity_type q now c)
  unfolding list_route
  list_route-IsListed entity_type q now c =
      answer_list-IsListed entity_type q.limit now c (cleaned u text fl scan q)
