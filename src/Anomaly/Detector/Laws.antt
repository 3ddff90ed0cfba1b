-- ===== src/Anomaly/Detector/Laws.antt =====
-- What `check` of anomaly/detector.py guarantees.
use tft_stats_analytics.Base.{
  ℕ, ◌-◌, ◌≤◌, String, ◌≡◌, refl, Bool-cases, inl, inr, true, false, List, [], ◌∷◌, ◌++◌, arith,
  ltb, if◌then◌else◌, length, length-drop,
}
use tft_stats_analytics.Base.Dict.{get_or, get_or-insert, string_eq, pair_eq, pair_beq}
use tft_stats_analytics.Base.Float.{Float, less}
use tft_stats_analytics.Base.NumPy.{NumPy}
use tft_stats_analytics.Anomaly.Detector.{
  AnomalyDetector, check, record_rate, deque_append, is_zero, z_score, min_sample_size, min_history,
}

length-deque_append {ℓ} :
    {A : Type ℓ} (window : ℕ) (x : A) (xs : List A) → length (deque_append window x xs) ≤ window
unfolding deque_append
length-deque_append window x xs =
    omega (arith, length-drop (length (xs ++ (x ∷ [])) - window) (xs ++ (x ∷ [])))

-- The observations that the detector holds for an entity in a tier.
abbrev pub observations : {F : Type 0} → String → String → AnomalyDetector F → List F
observations entity_id tier d = get_or [] (entity_id, tier) d.history

-- No history is longer than the window.
abbrev pub IsWindowed : {F : Type 0} → AnomalyDetector F → Type 0
IsWindowed d = (entity_id tier : String) → length (observations entity_id tier d) ≤ d.window

observed-record_rate :
    {F : Type 0} (key : String × String) (current : F) (d : AnomalyDetector F)
    (entity_id tier : String)
    → observations entity_id tier (record_rate key current d) ≡ (
        if pair_beq key (entity_id, tier)
        then deque_append d.window current (get_or [] key d.history)
        else observations entity_id tier d)
unfolding record_rate
observed-record_rate key current d entity_id tier =
    get_or-insert [] key (entity_id, tier) (deque_append d.window current (get_or [] key d.history))
      d.history

window-record_rate :
    {F : Type 0} (key : String × String) (current : F) (d : AnomalyDetector F)
    → (record_rate key current d).window ≡ d.window
unfolding record_rate
window-record_rate key current d = refl

record_rate-IsWindowed :
    {F : Type 0} (key : String × String) (current : F) (d : AnomalyDetector F)
    → IsWindowed d
    → IsWindowed (record_rate key current d)
record_rate-IsWindowed key current d w entity_id tier =
    rw (observed-record_rate key current d entity_id tier, window-record_rate key current d)
      (ground
        (arith, w entity_id tier, length-deque_append d.window current (get_or [] key d.history)))

module _ (fl : Float) (np : NumPy fl) where
  -- Whatever is checked, no history outgrows the window.
  pub check-IsWindowed :
      (entity_id tier : String) (current : fl.F) (sample_size : ℕ) (d : AnomalyDetector fl.F)
      → IsWindowed d
      → IsWindowed (check fl np entity_id tier current sample_size d).0
  unfolding check
  check-IsWindowed entity_id tier current sample_size d w =
      let w' = record_rate-IsWindowed (entity_id, tier) current d w in
      elim (Bool-cases (ltb sample_size min_sample_size)) [
        | inl e ↦ rw e w
        | inr e ↦
            rw e (elim (Bool-cases (ltb (length (observations entity_id tier d)) min_history)) [
              | inl f ↦ rw f w'
              | inr f ↦
                  rw f (elim (Bool-cases (is_zero fl np (np.std (observations entity_id tier d)))) [
                    | inl g ↦ rw g w'
                    | inr g ↦ rw g w'
                  ])
            ])
      ]

  -- `check` changes no history but that of its entity and tier, which takes the new win rate exactly
  -- if the sample is large enough, whatever the score.
  pub observations-check :
      (entity_id tier : String) (current : fl.F) (sample_size : ℕ) (d : AnomalyDetector fl.F)
      (other_id other_tier : String)
      → observations other_id other_tier (check fl np entity_id tier current sample_size d).0 ≡ (
          if ltb sample_size min_sample_size
          then observations other_id other_tier d
          else if pair_beq (entity_id, tier) (other_id, other_tier)
          then deque_append d.window current (observations entity_id tier d)
          else observations other_id other_tier d)
  unfolding check
  observations-check entity_id tier current sample_size d other_id other_tier =
      ground (arith, observed-record_rate (entity_id, tier) current d other_id other_tier)

  -- An anomaly is reported only on at least 200 samples and 6 earlier observations whose deviation is
  -- not 0, and then the score is the z-score against those observations and is above 2.
  pub check_anomaly :
      (entity_id tier : String) (current : fl.F) (sample_size : ℕ) (d : AnomalyDetector fl.F)
      → (check fl np entity_id tier current sample_size d).1.0 ≡ true
      → (200 ≤ sample_size)
        × (6 ≤ length (observations entity_id tier d))
        × (is_zero fl np (np.std (observations entity_id tier d)) ≡ false)
        × ((check fl np entity_id tier current sample_size d).1.1
            ≡ z_score fl np current (observations entity_id tier d))
        × (less fl (fl.of_nat 2) (check fl np entity_id tier current sample_size d).1.1 ≡ true)
  unfolding check
  check_anomaly entity_id tier current sample_size d h = ground arith
