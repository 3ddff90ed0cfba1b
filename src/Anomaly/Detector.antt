-- ===== src/Anomaly/Detector.antt =====
-- anomaly/detector.py: z-scores over a rolling window of win rates per entity and tier.
pub mod Laws
use tft_stats_analytics.Base.{
  ℕ, ◌-◌, String, Bool, true, false, not, ◌&&◌, List, [], ◌∷◌, ◌++◌, ltb, if◌then◌else◌, length,
  drop,
}
use tft_stats_analytics.Base.Dict.{get_or, insert, string_eq, pair_eq}
use tft_stats_analytics.Base.Float.{Float, less, sub}
use tft_stats_analytics.Base.NumPy.{NumPy}

abbrev pub min_sample_size : ℕ
min_sample_size = 200

abbrev pub min_history : ℕ
min_history = 6

-- `append` of a `deque(maxlen=window)`: the oldest items make room.
unfoldable pub deque_append {ℓ} : {A : Type ℓ} → ℕ → A → List A → List A
deque_append window x xs = drop (length (xs ++ (x ∷ [])) - window) (xs ++ (x ∷ []))

pub record AnomalyDetector (F : Type 0) : Type 0 where
  pub window : ℕ
  pub history : List ((String × String) × List F)

-- `self.history[key].append(current_win_rate)`
unfoldable pub record_rate :
    {F : Type 0} → String × String → F → AnomalyDetector F → AnomalyDetector F
unfolding get_or insert deque_append
record_rate key current d = record d {
  history = insert key (deque_append d.window current (get_or [] key d.history)) d.history;
}

module _ (fl : Float) (np : NumPy fl) where
  open fl use {F, of_nat, div, order}

  -- `x == 0`
  unfoldable pub is_zero : F → Bool
  is_zero x = order.leq x (of_nat 0) && order.leq (of_nat 0) x

  unfoldable pub z_score : F → List F → F
  z_score current hist = div (sub fl current (np.mean hist)) (np.std hist)

  -- The detector after `check`, and what it returns.
  unfoldable pub check :
      String → String → F → ℕ → AnomalyDetector F → AnomalyDetector F × (Bool × F)
  unfolding record_rate get_or is_zero z_score
  check entity_id tier current sample_size d =
      let hist = get_or [] (entity_id, tier) d.history in
      let observed = record_rate (entity_id, tier) current d in
      let z = z_score current hist in
      if ltb sample_size min_sample_size
      then (d, (false, of_nat 0))
      else if ltb (length hist) min_history
      then (observed, (false, of_nat 0))
      else if is_zero (np.std hist)
      then (observed, (false, of_nat 0))
      else (observed, (less fl (of_nat 2) z, z))
