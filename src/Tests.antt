-- ===== src/Tests.antt =====
-- Runs of the model on concrete inputs: the theorems applied to the data of Tests/Samples.antt.
mod Samples
mod Buffering
mod Ingesting
mod Fleets
mod Lookups
mod Statistics
mod Services
mod Alarms
mod Guards
mod Limiting
mod Queries
mod Routing
mod Profiles
