-- ===== src/Tests.antt =====
-- Concrete runs: the theorems at values that the program meets, and tests of the definitions.
mod Rules
mod Pool
mod Databases
mod Routes
mod Tuic
mod Hysteria
mod Base64
mod Dns
mod Socks
mod Shadowsocks
mod WireGuard
mod Trojan
mod Udp
mod Vless
