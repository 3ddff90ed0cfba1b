-- ===== src/Api.antt =====
-- The REST API (api/).
pub mod Security
pub mod Cache
pub mod Riot
pub mod Service
pub mod Routes
