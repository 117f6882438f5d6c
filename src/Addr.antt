-- ===== src/Addr.antt =====
-- IP addresses and connection targets: `IpAddr` of Rust's standard library and
-- crates/net/src/target.rs. An IPv4 address is its `u32`, an IPv6 address its `u128`; the flow
-- label and the scope of a `SocketAddrV6` are left out, since the program neither sets nor reads them.
pub mod Parse
use jamm_vpn.Base.{ℕ, ◌≡◌, ◌^◌, ◌<◌, ◌≤◌, Bool, true, false, ◌==◌, length}
use jamm_vpn.Base.Text.{Str}
use jamm_vpn.Base.Utf8.{is_utf8}

pub data IpAddr : Type 0 where
  v4 : ℕ → IpAddr
  v6 : ℕ → IpAddr

-- The bits of an address fit its family.
abbrev pub IsIp : IpAddr → Type 0
IsIp (v4 a) = a < 2 ^ 32
IsIp (v6 a) = a < 2 ^ 128

unfoldable pub is_ipv4 : IpAddr → Bool
is_ipv4 (v4 a) = true
is_ipv4 (v6 a) = false

-- `IpAddr: PartialEq`.
unfoldable pub ip_eq : IpAddr → IpAddr → Bool
ip_eq (v4 a) (v4 b) = a == b
ip_eq (v6 a) (v6 b) = a == b
ip_eq _ _ = false

-- `Socket(SocketAddr)` with the address and the port side by side.
pub data Target : Type 0 where
  domain : Str → ℕ → Target
  socket : IpAddr → ℕ → Target

-- A target of Rust's types, with a domain short enough for a length byte.
abbrev pub IsWireTarget : Target → Type 0
IsWireTarget (domain host p) = (length host ≤ 255) × (is_utf8 host ≡ true) × (p < 2 ^ 16)
IsWireTarget (socket ip p) = IsIp ip × (p < 2 ^ 16)

unfoldable pub port : Target → ℕ
port (domain host p) = p
port (socket ip p) = p
