-- ===== src/Split.antt =====
-- crates/core/src/split: which connections go through the tunnel.
pub mod Cidr
pub mod Config
pub mod Engine
