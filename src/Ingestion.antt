-- ===== src/Ingestion.antt =====
-- Ingestion (ingestion/).
pub mod RateLimiter
pub mod RiotClient
pub mod Ingestor
pub mod Synthetic
pub mod Fleet
