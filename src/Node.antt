-- ===== src/Node.antt =====
-- node/: the shadow of the node, its properties and what concurrent calls do to it.
pub mod Defs
pub mod Laws
pub mod Props
