-- ===== src/Anomaly/Service.antt =====
-- anomaly/main.py: one scoring round over the scanned entries, and the alerts that it publishes.
-- The scan's answer is an argument; gauges and prints are left out.
pub mod Alerts
use tft_stats_analytics.Base.{
  ℕ, ◌+◌, String, Bool, true, false, List, [], ◌∷◌, ◌++◌, map, ltb, leb, ◌==◌, if◌then◌else◌,
  length,
}
use tft_stats_analytics.Base.Dict.{get_or, insert, add_key, member, string_eq}
use tft_stats_analytics.Base.Float.{Float, less}
use tft_stats_analytics.Base.NumPy.{NumPy}
use tft_stats_analytics.Proto.{StatEntry}
use tft_stats_analytics.Anomaly.Detector.{AnomalyDetector, check, min_sample_size}

abbrev pub TierSets : Type 0
TierSets = List (String × List String)

-- `sets[entity_id]` of a `defaultdict(set)`
abbrev pub tiers_of : String → TierSets → List String
tiers_of entity_id sets = get_or [] entity_id sets

-- `sets[entity_id].add(tier)`
unfoldable pub add_tier : String → String → TierSets → TierSets
unfolding insert get_or add_key
add_tier entity_id tier sets = insert entity_id (add_key tier (tiers_of entity_id sets)) sets

pub record Alert (F : Type 0) : Type 0 where
  pub entity_id : String
  pub entity_type : String
  pub tier : String
  pub region : String
  pub patch : String
  pub win_rate : F
  pub avg_placement : F
  pub z_score : F
  pub sample_size : ℕ
  pub classification : String
  pub direction : String
  pub timestamp : ℕ

-- The variables of the first pass.
pub record Scored (F : Type 0) : Type 0 where
  pub detector : AnomalyDetector F
  pub spikes : List (StatEntry F × F)
  pub tiers_with_data : TierSets
  pub tiers_spiking : TierSets

module _ (fl : Float) (np : NumPy fl) where
  open fl use {F, of_nat, div, order}

  -- The body of the first loop.
  unfoldable pub score_entry : StatEntry F → Scored F → Scored F
  unfolding check add_tier
  score_entry e s =
      let checked = check fl np e.entity_id e.tier e.win_rate e.sample_size s.detector in
      let with_data =
        if leb min_sample_size e.sample_size
        then add_tier e.entity_id e.tier s.tiers_with_data
        else s.tiers_with_data in
      if checked.1.0
      then record {
        detector = checked.0;
        spikes = s.spikes ++ ((e, checked.1.1) ∷ []);
        tiers_with_data = with_data;
        tiers_spiking = add_tier e.entity_id e.tier s.tiers_spiking;
      }
      else record s { detector = checked.0; tiers_with_data = with_data }

  unfoldable pub score_all : List (StatEntry F) → Scored F → Scored F
  unfolding score_entry
  score_all [] s = s
  score_all (e ∷ es) s = score_all es (score_entry e s)

  -- `len(tiers_with_data[e.entity_id]) or 1`
  unfoldable pub n_data : Scored F → String → ℕ
  n_data s entity_id =
      let n = length (tiers_of entity_id s.tiers_with_data) in if n == 0 then 1 else n

  unfoldable pub n_spike : Scored F → String → ℕ
  n_spike s entity_id = length (tiers_of entity_id s.tiers_spiking)

  -- `CROSS_RANK_FRACTION`, 0.6
  abbrev pub cross_rank_fraction : F
  cross_rank_fraction = div (of_nat 3) (of_nat 5)

  unfoldable pub classify : ℕ → ℕ → String
  classify spiking with_data =
      if order.leq cross_rank_fraction (div (of_nat spiking) (of_nat with_data))
      then "cross_rank"
      else "tier_specific"

  unfoldable pub direction_of : F → String
  direction_of z = if less fl (of_nat 0) z then "rising" else "falling"

  unfoldable pub alert_of : ℕ → Scored F → StatEntry F × F → Alert F
  unfolding n_data n_spike classify direction_of
  alert_of now s (e, z) = record {
    entity_id = e.entity_id;
    entity_type = e.entity_type;
    tier = e.tier;
    region = e.region;
    patch = e.patch;
    win_rate = fl.round e.win_rate 4;
    avg_placement = fl.round e.avg_placement 4;
    z_score = fl.round z 3;
    sample_size = e.sample_size;
    classification = classify (n_spike s e.entity_id) (n_data s e.entity_id);
    direction = direction_of z;
    timestamp = now;
  }

  unfoldable pub start_scoring : AnomalyDetector F → Scored F
  start_scoring d = record { detector = d; spikes = []; tiers_with_data = []; tiers_spiking = [] }

  -- `run_once` on the scanned entries: the detector after it, and the alerts in order.
  unfoldable pub run_once :
      ℕ → List (StatEntry F) → AnomalyDetector F → AnomalyDetector F × List (Alert F)
  unfolding score_all alert_of start_scoring
  run_once now entries d =
      let s = score_all entries (start_scoring d) in (s.detector, map (alert_of now s) s.spikes)
