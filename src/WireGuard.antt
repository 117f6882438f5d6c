-- ===== src/WireGuard.antt =====
-- crates/net/src/wireguard: of the tunnel, its obfuscation.
pub mod Obfs
