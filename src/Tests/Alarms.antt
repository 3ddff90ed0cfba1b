-- ===== src/Tests/Alarms.antt =====
-- The anomaly detector on six observations of one half, and then a win rate of 1.
use tft_stats_analytics.Base.{◌≤◌, ◌≡◌, refl, true, false, List, [], ◌∷◌, All, length}
use tft_stats_analytics.Base.Dict.{get_or}
use tft_stats_analytics.Base.Float.{less}
use tft_stats_analytics.Base.Fixed.{fixed, over, plus, times, opposite, root, root_from, whole}
use tft_stats_analytics.Base.Sample.{numpy, mean_fixed, std_fixed, squares, sum_fixed}
use tft_stats_analytics.Anomaly.Detector.{
  AnomalyDetector, check, z_score, is_zero, deque_append, record_rate,
}
use tft_stats_analytics.Anomaly.Detector.Laws.{observations, observations-check, check_anomaly}
use tft_stats_analytics.Anomaly.Service.{run_once, score_all, start_scoring}
use tft_stats_analytics.Anomaly.Service.Alerts.{run_once-IsWellFormed, IsWellFormed}
use tft_stats_analytics.Tests.Samples.{rate_entry}

-- Win rates of 0 and 1 percent.
abbrev low_rates : List fixed.F
low_rates =
    fixed.of_nat 0
    ∷ fixed.div (fixed.of_nat 1) (fixed.of_nat 100)
    ∷ fixed.of_nat 0
    ∷ fixed.of_nat 0
    ∷ fixed.of_nat 0
    ∷ fixed.of_nat 0
    ∷ []

abbrev detector : AnomalyDetector fixed.F
detector = record { window = 6; history = (("TFT_Ahri", "GOLD"), low_rates) ∷ [] }

observations-check_example :
    observations "TFT_Ahri" "GOLD"
      (check fixed numpy "TFT_Ahri" "GOLD" (fixed.of_nat 1) 300 detector).0
    ≡ deque_append 6 (fixed.of_nat 1) (observations "TFT_Ahri" "GOLD" detector)
observations-check_example =
    observations-check fixed numpy "TFT_Ahri" "GOLD" (fixed.of_nat 1) 300 detector "TFT_Ahri" "GOLD"

is_anomaly : (check fixed numpy "TFT_Ahri" "GOLD" (fixed.of_nat 1) 300 detector).1.0 ≡ true
unfolding check fixed numpy get_or is_zero z_score record_rate mean_fixed std_fixed squares
    sum_fixed over plus times opposite root root_from whole
is_anomaly = refl

check_anomaly_example :
    (200 ≤ 300)
    × (6 ≤ length (observations "TFT_Ahri" "GOLD" detector))
    × (is_zero fixed numpy (numpy.std (observations "TFT_Ahri" "GOLD" detector)) ≡ false)
    × ((check fixed numpy "TFT_Ahri" "GOLD" (fixed.of_nat 1) 300 detector).1.1
        ≡ z_score fixed numpy (fixed.of_nat 1) (observations "TFT_Ahri" "GOLD" detector))
    × (less fixed
          (fixed.of_nat 2)
          (check fixed numpy "TFT_Ahri" "GOLD" (fixed.of_nat 1) 300 detector).1.1
        ≡ true)
check_anomaly_example =
    check_anomaly fixed numpy "TFT_Ahri" "GOLD" (fixed.of_nat 1) 300 detector is_anomaly

run_once-IsWellFormed_example :
    All
      (IsWellFormed fixed numpy
        (score_all fixed numpy (rate_entry "GOLD" 300 ∷ []) (start_scoring fixed numpy detector)))
      (run_once fixed numpy 7 (rate_entry "GOLD" 300 ∷ []) detector).1
run_once-IsWellFormed_example =
    run_once-IsWellFormed fixed numpy 7 (rate_entry "GOLD" 300 ∷ []) detector
