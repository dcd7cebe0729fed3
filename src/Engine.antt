-- ===== src/Engine.antt =====
-- engine/: the reconciliation of the desired applications with the running ones.
pub mod Plan
pub mod Filter
pub mod Align
pub mod Collide
pub mod Clean
pub mod Downside
pub mod Apply
pub mod Reconcile
pub mod Logs
