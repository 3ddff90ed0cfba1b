-- ===== src/Api/Riot.antt =====
-- Player lookup of api/riot.py.
pub mod Rank
pub mod Client
pub mod Rounds
pub mod Units
pub mod Match
pub mod Stats
pub mod Standing
pub mod Profile
