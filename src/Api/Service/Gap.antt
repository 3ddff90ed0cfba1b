-- ===== src/Api/Service/Gap.antt =====
-- `rank_gap` of api/service.py on the entries of a scan. The order in which a set of ids is walked
-- through is a parameter.
pub mod Ranked
use tft_stats_analytics.Base.{
  ℕ, String, Bool, Option, none, some, List, [], ◌∷◌, ◌++◌, map, ltb, ◌==◌, if◌then◌else◌, take,
  keep_if,
}
use tft_stats_analytics.Base.Dict.{get_or, insert, member, string_eq}
use tft_stats_analytics.Base.Float.{Float, sub}
use tft_stats_analytics.Base.Order.{down_order}
use tft_stats_analytics.Base.Sort.{sort_by}
use tft_stats_analytics.Proto.{StatEntry}
use tft_stats_analytics.Api.Service.{samples_of, weighted, min_sample_size}

-- `HIGH_TIERS`
abbrev pub high_tiers : List String
high_tiers = "MASTER" ∷ "GRANDMASTER" ∷ "CHALLENGER" ∷ "DIAMOND" ∷ []

-- `LOW_TIERS`
abbrev pub low_tiers : List String
low_tiers = "IRON" ∷ "BRONZE" ∷ "SILVER" ∷ "GOLD" ∷ []

unfoldable pub is_high : String → Bool
unfolding member
is_high tier = member tier high_tiers

unfoldable pub is_low : String → Bool
unfolding member
is_low tier = member tier low_tiers

pub record GapRow (F : Type 0) : Type 0 where
  pub entity_id : String
  pub high_tier_win_rate : F
  pub low_tier_win_rate : F
  pub gap : F

module _ (fl : Float) where
  open fl use {F, of_nat, neg, order}

  abbrev pub Groups : Type 0
  Groups = List (String × List (StatEntry F))

  -- `d[e.entity_id].append(e)`
  unfoldable pub append_to : StatEntry F → Groups → Groups
  unfolding insert get_or
  append_to e groups = insert e.entity_id (get_or [] e.entity_id groups ++ (e ∷ [])) groups

  -- The loop that fills `high` and `low`.
  unfoldable pub split_tiers : List (StatEntry F) → Groups → Groups → Groups × Groups
  unfolding append_to
  split_tiers [] high low = (high, low)
  split_tiers (e ∷ es) high low =
      let skipped = split_tiers es high low in
      let as_high = split_tiers es (append_to e high) low in
      let as_low = split_tiers es high (append_to e low) in
      if ltb e.sample_size min_sample_size
      then skipped
      else if is_high e.tier
      then as_high
      else if is_low e.tier
      then as_low
      else skipped

  -- `wavg`
  unfoldable pub wavg : List (StatEntry F) → Option F
  unfolding weighted
  wavg es = if samples_of fl es == 0 then none else some (weighted fl (λ e. e.win_rate) es)

  abbrev pub keys : Groups → List String
  keys groups = map (λ g. g.0) groups

  abbrev pub gap_row : String → Option F → Option F → List (GapRow F)
  gap_row entity_id (some hw) (some lw) =
      record {
        entity_id = entity_id;
        high_tier_win_rate = fl.round hw 4;
        low_tier_win_rate = fl.round lw 4;
        gap = fl.round (sub fl hw lw) 4;
      }
      ∷ []
  gap_row entity_id _ _ = []

  -- The loop over the ids that are in both.
  unfoldable pub gap_rows : Groups → Groups → List String → List (GapRow F)
  unfolding wavg get_or
  gap_rows high low [] = []
  gap_rows high low (id ∷ ids) =
      gap_row id (wavg (get_or [] id high)) (wavg (get_or [] id low)) ++ gap_rows high low ids

  abbrev pub abs : F → F
  abs x = if order.leq (of_nat 0) x then x else neg x

  module _ (walk : List String → List String) where
    abbrev pub both : Groups × Groups → List String
    both (high, low) = walk (keep_if (λ id. member id (keys low)) (keys high))

    unfoldable pub rank_gap : ℕ → List (StatEntry F) → List (GapRow F)
    unfolding split_tiers is_high is_low gap_rows sort_by member
    rank_gap limit entries =
        let groups = split_tiers entries [] [] in
        take limit (
          sort_by ⦃o = down_order ⦃o = order⦄⦄ (λ r. record { value = abs r.gap })
            (gap_rows groups.0 groups.1 (both groups)))
