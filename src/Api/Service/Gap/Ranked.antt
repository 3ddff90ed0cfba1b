-- ===== src/Api/Service/Gap/Ranked.antt =====
-- What `rank_gap` of api/service.py compares.
use tft_stats_analytics.Base.{
  ℕ, ◌≤◌, ◌<◌, String, ◌≡◌, refl, sym, ◌∙◌, Bool, not, ◌&&◌, List, [], ◌∷◌, ◌++◌, arith, leb,
  str_eq, eq_iff, if◌then◌else◌, keep_if, length, length-take, All, All-append, All-take,
  append_assoc, append-nil, ◌==◌, Bool-cases, inl, inr,
}
use tft_stats_analytics.Base.Dict.{get_or, get_or-insert, string_eq}
use tft_stats_analytics.Base.Float.{Float, sub}
use tft_stats_analytics.Base.Order.{Down, down_order}
use tft_stats_analytics.Base.Sort.{sort_by, IsSorted, sort_by-IsSorted, take-IsSorted, All-sort_by}
use tft_stats_analytics.Proto.{StatEntry}
use tft_stats_analytics.Api.Service.{samples_of, weighted, min_sample_size}
use tft_stats_analytics.Api.Service.Gap.{
  is_high, is_low, GapRow, Groups, append_to, split_tiers, wavg, gap_row, gap_rows, abs, both,
  rank_gap,
}

module _ (fl : Float) where
  open fl use {F, order}

  -- The entries of an entity that are compared: of a high tier, or of a low one.
  abbrev pub in_high : String → StatEntry F → Bool
  in_high id e = str_eq e.entity_id id && (leb min_sample_size e.sample_size && is_high e.tier)

  abbrev pub in_low : String → StatEntry F → Bool
  in_low id e =
      str_eq e.entity_id id
      && (leb min_sample_size e.sample_size && (not (is_high e.tier) && is_low e.tier))

  get_or-append_to :
      (id : String) (e : StatEntry F) (groups : Groups fl)
      → get_or [] id (append_to fl e groups)
        ≡ (if str_eq e.entity_id id then get_or [] id groups ++ (e ∷ []) else get_or [] id groups)
  unfolding append_to
  get_or-append_to id e groups =
      get_or-insert [] e.entity_id id (get_or [] e.entity_id groups ++ (e ∷ [])) groups
      ∙ elim (Bool-cases (str_eq e.entity_id id)) [
        | inl q ↦ rw (q, (eq_iff e.entity_id id).0 q) refl
        | inr q ↦ rw q refl
      ]

  high-split_tiers :
      (id : String) (es : List (StatEntry F)) (high low : Groups fl)
      → get_or [] id (split_tiers fl es high low).0 ≡ get_or [] id high ++ keep_if (in_high id) es
  unfolding split_tiers
  high-split_tiers id [] high low = sym (append-nil (get_or [] id high))
  high-split_tiers id (e ∷ es) high low = ground (
    arith,
    high-split_tiers id es high low,
    high-split_tiers id es (append_to fl e high) low,
    high-split_tiers id es high (append_to fl e low),
    get_or-append_to id e high,
    append_assoc (get_or [] id high) (e ∷ []) (keep_if (in_high id) es),
  )

  low-split_tiers :
      (id : String) (es : List (StatEntry F)) (high low : Groups fl)
      → get_or [] id (split_tiers fl es high low).1 ≡ get_or [] id low ++ keep_if (in_low id) es
  unfolding split_tiers
  low-split_tiers id [] high low = sym (append-nil (get_or [] id low))
  low-split_tiers id (e ∷ es) high low = ground (
    arith,
    low-split_tiers id es high low,
    low-split_tiers id es (append_to fl e high) low,
    low-split_tiers id es high (append_to fl e low),
    get_or-append_to id e low,
    append_assoc (get_or [] id low) (e ∷ []) (keep_if (in_low id) es),
  )

  -- A row compares the two averages of the entity over the entries that count.
  pub record IsGap (entries : List (StatEntry F)) (r : GapRow F) : Type 0 where
    pub some_high : 0 < samples_of fl (keep_if (in_high r.entity_id) entries)
    pub some_low : 0 < samples_of fl (keep_if (in_low r.entity_id) entries)
    pub high :
        r.high_tier_win_rate
        ≡ fl.round (weighted fl (λ e. e.win_rate) (keep_if (in_high r.entity_id) entries)) 4
    pub low :
        r.low_tier_win_rate
        ≡ fl.round (weighted fl (λ e. e.win_rate) (keep_if (in_low r.entity_id) entries)) 4
    pub gap :
        r.gap
        ≡ fl.round
            (sub fl
              (weighted fl (λ e. e.win_rate) (keep_if (in_high r.entity_id) entries))
              (weighted fl (λ e. e.win_rate) (keep_if (in_low r.entity_id) entries)))
            4

  gap_row-IsGap :
      (entries : List (StatEntry F)) (id : String)
      → All (IsGap entries) (
          gap_row fl id
            (wavg fl (keep_if (in_high id) entries))
            (wavg fl (keep_if (in_low id) entries)))
  unfolding wavg
  gap_row-IsGap entries id = elim (Bool-cases (samples_of fl (keep_if (in_high id) entries) == 0)) [
    | inl e ↦ rw (wavg, e) tt
    | inr e ↦ elim (Bool-cases (samples_of fl (keep_if (in_low id) entries) == 0)) [
      | inl e' ↦ rw (wavg, e, e') tt
      | inr e' ↦
          rw (wavg, e, e')
            (
              record {
                some_high = ground arith;
                some_low = ground arith;
                high = refl;
                low = refl;
                gap = refl;
              },
              tt,
            )
    ]
  ]

  high_group :
      (i : String) (es : List (StatEntry F))
      → get_or [] i (split_tiers fl es [] []).0 ≡ keep_if (in_high i) es
  unfolding get_or
  high_group i es = high-split_tiers i es [] []

  low_group :
      (i : String) (es : List (StatEntry F))
      → get_or [] i (split_tiers fl es [] []).1 ≡ keep_if (in_low i) es
  unfolding get_or
  low_group i es = low-split_tiers i es [] []

  gap_rows-IsGap :
      (entries : List (StatEntry F)) (ids : List String)
      → All
          (IsGap entries)
          (gap_rows fl (split_tiers fl entries [] []).0 (split_tiers fl entries [] []).1 ids)
  unfolding gap_rows
  gap_rows-IsGap entries [] = tt
  gap_rows-IsGap entries (id ∷ ids) =
      All-append (IsGap entries) _ _ (row_at (high_group id entries) (low_group id entries))
        (gap_rows-IsGap entries ids)
    where
      row_at :
          {hs ls : List (StatEntry F)}
          → hs ≡ keep_if (in_high id) entries
          → ls ≡ keep_if (in_low id) entries
          → All (IsGap entries) (gap_row fl id (wavg fl hs) (wavg fl ls))
      row_at h l = rw (h, l) (gap_row-IsGap entries id)

  module _ (walk : List String → List String) where
    -- The rows are at most the limit, by the size of their gap, the greatest first; each of them is of
    -- the two averages of its entity over the entries of at least 200 samples in the high and in the
    -- low tiers, of both of which there are some.
    pub rank_gap-IsRanked :
        (limit : ℕ) (entries : List (StatEntry F))
        → (length (rank_gap fl walk limit entries) ≤ limit)
          × IsSorted ⦃o = down_order ⦃o = order⦄⦄
              (λ r. record { value = abs fl r.gap })
              (rank_gap fl walk limit entries)
          × All (IsGap entries) (rank_gap fl walk limit entries)
    unfolding rank_gap
    rank_gap-IsRanked limit entries =
        let groups : Groups fl × Groups fl = split_tiers fl entries [] [] in
        let by_gap = λ (r : GapRow F). let d : Down F = record { value = abs fl r.gap } in d in
        let rows : List (GapRow F) = gap_rows fl groups.0 groups.1 (both fl walk groups) in
        let sorted : List (GapRow F) = sort_by ⦃o = down_order ⦃o = order⦄⦄ by_gap rows in
        (
          omega (arith, length-take limit sorted),
          take-IsSorted ⦃o = down_order ⦃o = order⦄⦄ by_gap limit sorted
              (sort_by-IsSorted ⦃o = down_order ⦃o = order⦄⦄ by_gap rows),
          All-take (IsGap entries) limit sorted (
              All-sort_by ⦃o = down_order ⦃o = order⦄⦄ by_gap (IsGap entries) rows
                (gap_rows-IsGap entries (both fl walk groups))),
        )
