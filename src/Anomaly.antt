-- ===== src/Anomaly.antt =====
-- The anomaly detection service (anomaly/).
pub mod Detector
pub mod Service
