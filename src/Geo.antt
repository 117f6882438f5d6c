-- ===== src/Geo.antt =====
-- crates/core/src/geo: the geosite and geoip databases. `load` of both is `parse` of a file's bytes.
pub mod Protobuf
pub mod Site
pub mod Ip
