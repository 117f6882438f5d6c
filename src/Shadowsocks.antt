-- ===== src/Shadowsocks.antt =====
-- crates/net/src/shadowsocks: Shadowsocks with AEAD ciphers. `Crypto` is crypto.rs, `Udp` udp.rs,
-- `Stream` stream.rs, `Session` and `Replay` ss2022_udp.rs, `Outbound` the keys and addresses of
-- crates/net/src/outbound.rs. The ciphers and the hash functions come from other crates: they are
-- the record `Primitives` of parameters.
pub mod Crypto
pub mod Udp
pub mod Replay
pub mod Session
pub mod Stream
pub mod Outbound
