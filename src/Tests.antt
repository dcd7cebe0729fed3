-- ===== src/Tests.antt =====
-- Runs of the modelled code on concrete data, and the theorems at concrete inputs.
mod Node
mod Probe
mod Engine
mod Clean
mod Fetch
mod Downside
mod Shadow
mod Apply
mod Security
mod Reconcile
mod Native
mod Logs
mod Start
