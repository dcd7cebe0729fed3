-- ===== src/Sync.antt =====
-- sync: the resources that the cloud describes, fetched and stored.
pub mod Object
pub mod Desire
pub mod Shadow
pub mod Prepare
