-- ===== src/Prober.antt =====
-- ami/native/prober: the probes of the processes that the native mode runs.
pub mod Probe
pub mod Http
pub mod Worker
pub mod Manager
