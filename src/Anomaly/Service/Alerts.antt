-- ===== src/Anomaly/Service/Alerts.antt =====
-- What holds of every alert that anomaly/main.py publishes.
use tft_stats_analytics.Base.{
  ℕ, ◌≤◌, ◌<◌, String, ◌≡◌, ap, sym, subst, Bool, true, ◌&&◌, ◌||◌, List, [], ◌∷◌, ◌++◌, map, arith,
  if◌then◌else◌, length, All, All-append, All-map, Bool-cases, inl, inr, str_eq, eq_iff,
}
use tft_stats_analytics.Base.Dict.{get_or-insert, add_key, member, member-add_key, string_eq}
use tft_stats_analytics.Base.Float.{Float, less}
use tft_stats_analytics.Base.NumPy.{NumPy}
use tft_stats_analytics.Proto.{StatEntry}
use tft_stats_analytics.Anomaly.Detector.{AnomalyDetector, check}
use tft_stats_analytics.Anomaly.Detector.Laws.{check_anomaly}
use tft_stats_analytics.Anomaly.Service.{
  TierSets, tiers_of, add_tier, Alert, Scored, score_entry, score_all, n_data, n_spike, alert_of,
  classify, direction_of, start_scoring, run_once,
}

member-add_tier :
    (entity_id tier other other_tier : String) (sets : TierSets)
    → member other_tier (tiers_of other (add_tier entity_id tier sets)) ≡ (
        (str_eq entity_id other && str_eq tier other_tier)
        || member other_tier (tiers_of other sets))
unfolding add_tier
member-add_tier entity_id tier other other_tier sets = ground (
  arith,
  get_or-insert [] entity_id other (add_key tier (tiers_of entity_id sets)) sets,
  member-add_key tier other_tier (tiers_of entity_id sets),
  eq_iff entity_id other,
)

module _ (fl : Float) (np : NumPy fl) where
  open fl use {F, of_nat, order}

  -- A spike rests on enough samples and a score above 2, and its tier is in both sets.
  pub record IsSpike (s : Scored F) (spike : StatEntry F × F) : Type 0 where
    pub sampled : 200 ≤ spike.0.sample_size
    pub high : less fl (of_nat 2) spike.1 ≡ true
    pub has_data : member spike.0.tier (tiers_of spike.0.entity_id s.tiers_with_data) ≡ true
    pub spiking : member spike.0.tier (tiers_of spike.0.entity_id s.tiers_spiking) ≡ true

  score_entry-keeps :
      (e : StatEntry F) (s : Scored F) (spike : StatEntry F × F)
      → IsSpike s spike
      → IsSpike (score_entry fl np e s) spike
  unfolding score_entry
  score_entry-keeps e s spike h = record {
    sampled = h.sampled;
    high = h.high;
    has_data = ground (
      arith,
      h.has_data,
      member-add_tier e.entity_id e.tier spike.0.entity_id spike.0.tier s.tiers_with_data,
    );
    spiking = ground (
      arith,
      h.spiking,
      member-add_tier e.entity_id e.tier spike.0.entity_id spike.0.tier s.tiers_spiking,
    );
  }

  abbrev z_of : StatEntry F → Scored F → F
  z_of e s = (check fl np e.entity_id e.tier e.win_rate e.sample_size s.detector).1.1

  abbrev is_anomaly : StatEntry F → Scored F → Bool
  is_anomaly e s = (check fl np e.entity_id e.tier e.win_rate e.sample_size s.detector).1.0

  score_entry-new :
      (e : StatEntry F) (s : Scored F)
      → is_anomaly e s ≡ true
      → IsSpike (score_entry fl np e s) (e, z_of e s)
  unfolding score_entry
  score_entry-new e s h =
      let found = check_anomaly fl np e.entity_id e.tier e.win_rate e.sample_size s.detector h in
      record {
        sampled = found.0;
        high = found.4;
        has_data = ground (
          arith,
          found.0,
          member-add_tier e.entity_id e.tier e.entity_id e.tier s.tiers_with_data,
          eq_iff e.entity_id e.entity_id,
          eq_iff e.tier e.tier,
        );
        spiking = ground (
          arith,
          h,
          member-add_tier e.entity_id e.tier e.entity_id e.tier s.tiers_spiking,
          eq_iff e.entity_id e.entity_id,
          eq_iff e.tier e.tier,
        );
      }

  spikes-score_entry :
      (e : StatEntry F) (s : Scored F)
      → (score_entry fl np e s).spikes
        ≡ (if is_anomaly e s then s.spikes ++ ((e, z_of e s) ∷ []) else s.spikes)
  unfolding score_entry
  spikes-score_entry e s = elim (Bool-cases (is_anomaly e s)) [ inl h ↦ rw h | inr h ↦ rw h ]

  score_entry-AllSpikes :
      (e : StatEntry F) (s : Scored F)
      → All (IsSpike s) s.spikes
      → All (IsSpike (score_entry fl np e s)) (score_entry fl np e s).spikes
  score_entry-AllSpikes e s h =
      let kept = All-map (score_entry-keeps e s) s.spikes h in
      subst (All (IsSpike (score_entry fl np e s))) (sym (spikes-score_entry e s))
        (elim (Bool-cases (is_anomaly e s)) [
          | inl a ↦
              rw a (All-append _ s.spikes ((e, z_of e s) ∷ []) kept (score_entry-new e s a, tt))
          | inr a ↦ rw a kept
        ])

  score_all-AllSpikes :
      (es : List (StatEntry F)) (s : Scored F)
      → All (IsSpike s) s.spikes
      → All (IsSpike (score_all fl np es s)) (score_all fl np es s).spikes
  unfolding score_all
  score_all-AllSpikes [] s h = h
  score_all-AllSpikes (e ∷ es) s h =
      score_all-AllSpikes es (score_entry fl np e s) (score_entry-AllSpikes e s h)

  -- The alert rests on at least 200 samples and says that the win rate is rising, and both tier
  -- counts that its classification compares are positive, so the fallback to 1 is not taken.
  pub record IsWellFormed (s : Scored F) (alert : Alert F) : Type 0 where
    pub sampled : 200 ≤ alert.sample_size
    pub rising : alert.direction ≡ "rising"
    pub with_data : 0 < length (tiers_of alert.entity_id s.tiers_with_data)
    pub some_spiking : 0 < length (tiers_of alert.entity_id s.tiers_spiking)
    pub classified :
        alert.classification
        ≡ classify fl np
            (length (tiers_of alert.entity_id s.tiers_spiking))
            (length (tiers_of alert.entity_id s.tiers_with_data))

  member-length : (x : String) (xs : List String) → member x xs ≡ true → 0 < length xs
  unfolding member
  member-length x [] h = cc
  member-length x (y ∷ ys) h = omega arith

  positive_of_high : (z : F) → less fl (of_nat 2) z ≡ true → less fl (of_nat 0) z ≡ true
  positive_of_high z h =
      ground (arith, order.trans z (of_nat 0) (of_nat 2), fl.of_nat_mono 0 2 (omega arith))

  n_data-eq :
      (s : Scored F) (entity_id : String)
      → 0 < length (tiers_of entity_id s.tiers_with_data)
      → n_data fl np s entity_id ≡ length (tiers_of entity_id s.tiers_with_data)
  unfolding n_data
  n_data-eq s entity_id h = ground arith

  alert_of-IsWellFormed :
      (now : ℕ) (s : Scored F) (spike : StatEntry F × F)
      → IsSpike s spike
      → IsWellFormed s (alert_of fl np now s spike)
  unfolding alert_of n_spike
  alert_of-IsWellFormed now s (e, z) h =
      let known = member-length e.tier (tiers_of e.entity_id s.tiers_with_data) h.has_data in
      record {
        sampled = h.sampled;
        rising = rw (positive_of_high z h.high, direction_of);
        with_data = known;
        some_spiking = member-length e.tier (tiers_of e.entity_id s.tiers_spiking) h.spiking;
        classified =
            ap (classify fl np (n_spike fl np s e.entity_id)) (n_data-eq s e.entity_id known);
      }

  AllWellFormed-map :
      (now : ℕ) (s : Scored F) (spikes : List (StatEntry F × F))
      → All (IsSpike s) spikes
      → All (IsWellFormed s) (map (alert_of fl np now s) spikes)
  AllWellFormed-map now s [] h = tt
  AllWellFormed-map now s (spike ∷ spikes) h =
      (alert_of-IsWellFormed now s spike h.0, AllWellFormed-map now s spikes h.1)

  -- Whatever is scanned and whatever the detector has seen, every alert of a round rests on at least
  -- 200 samples, is marked as rising, and is classified by the tiers of its entity that had data and
  -- that spiked in the round, at least one of each.
  pub run_once-IsWellFormed :
      (now : ℕ) (entries : List (StatEntry F)) (d : AnomalyDetector F)
      → All
          (IsWellFormed (score_all fl np entries (start_scoring fl np d)))
          (run_once fl np now entries d).1
  unfolding run_once start_scoring
  run_once-IsWellFormed now entries d =
      AllWellFormed-map now (score_all fl np entries (start_scoring fl np d)) _
        (score_all-AllSpikes entries (start_scoring fl np d) tt)
