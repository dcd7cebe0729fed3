-- ===== src/Engine/Clean.antt =====
-- engine/clean.go: which object configurations the cleaning of the store removes, and when.
pub mod Jobs
pub mod Objects
pub mod Recycle
pub mod Pressure
pub mod Storage
