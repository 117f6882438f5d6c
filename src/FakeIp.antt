-- ===== src/FakeIp.antt =====
-- crates/net/src/fakeip.rs: IPv4 addresses that stand for domain names. The state is what the mutex
-- guards; each method runs under the lock, so calls are steps in some order.
pub mod Invariant
pub mod Eviction
use Prim.Native.Nat.{bit_and}
use jamm_vpn.Base.{
  ℕ, ◌+◌, ◌-◌, ◌*◌, ◌%◌, ◌^◌, ◌≡◌, Bool, true, false, not, Option, none, some, List, [], ◌∷◌, ltb,
  leb, ◌==◌, if◌then◌else◌,
}
use jamm_vpn.Base.Text.{Str, str_eq}
use jamm_vpn.Base.Maps.{Map, insert, remove}
use jamm_vpn.Error.{ParseError, Result, ok, err}
use jamm_vpn.Addr.{IpAddr, v4, v6}
use jamm_vpn.Split.Cidr
use jamm_vpn.Split.Cidr.{IpCidr}

pub record FakeIp : Type 0 where
  pub base : ℕ
  pub count : ℕ
  pub cursor : ℕ
  pub dom_to_ip : Map Str ℕ
  pub ip_to_dom : Map ℕ Str

pub data NewError : Type 0 where
  bad_cidr : ParseError → NewError
  not_ipv4 too_wide too_small : NewError

-- `FakeIp::new` behind the parsing of its range.
unfoldable pub from_cidr : IpCidr → Result NewError FakeIp
from_cidr c = elim c.base [
  | v6 _ ↦ err not_ipv4
  | v4 base_ip ↦
      let prefix = c.prefix in
      let count : ℕ = if leb 32 prefix then 1 else 2 ^ (32 - prefix) in
      let mask = (2 ^ 32 - 1) * 2 ^ (32 - prefix) % 2 ^ 32 in
      if prefix == 0
      then err too_wide
      else if ltb count 3
      then err too_small
      else ok (record {
        base = bit_and base_ip mask;
        count = count;
        cursor = 1;
        dom_to_ip = λ _. none;
        ip_to_dom = λ _. none;
      })
]

unfoldable pub new : Str → Result NewError FakeIp
new cidr = elim (Cidr.parse cidr) [ err e ↦ err (bad_cidr e) | ok c ↦ from_cidr c ]

-- The part of `allocate` for a domain that has no address yet.
unfoldable pub allocate_new : FakeIp → Str → FakeIp × ℕ
allocate_new s d =
    let offset = s.cursor in
    let ip = (s.base + offset) % 2 ^ 32 in
    let evicted : Map Str ℕ = elim (s.ip_to_dom ip) [
      | none ↦ s.dom_to_ip
      | some old ↦ if str_eq old d then s.dom_to_ip else remove str_eq old s.dom_to_ip
    ] in
    (
      record s {
        cursor = if leb s.count (s.cursor + 1) then 1 else s.cursor + 1;
        ip_to_dom = insert ◌==◌ ip d s.ip_to_dom;
        dom_to_ip = insert str_eq d ip evicted;
      },
      ip,
    )

unfoldable pub allocate : FakeIp → Str → FakeIp × ℕ
allocate s d = elim (s.dom_to_ip d) [ some ip ↦ (s, ip) | none ↦ allocate_new s d ]

unfoldable pub domain_of : FakeIp → IpAddr → Option Str
domain_of s (v4 ip) = s.ip_to_dom ip
domain_of s (v6 ip) = none

unfoldable pub range_contains : FakeIp → IpAddr → Bool
range_contains s (v4 ip) = ltb ((ip + 2 ^ 32 - s.base) % 2 ^ 32) s.count
range_contains s (v6 ip) = false
