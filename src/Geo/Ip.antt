-- ===== src/Geo/Ip.antt =====
-- crates/core/src/geo/geoip.rs: the networks of countries.
pub mod Networks
use jamm_vpn.Base.{
  ℕ, ◌+◌, ◌*◌, ◌%◌, ◌^◌, ◌≡◌, Bool, true, false, ◌&&◌, Option, none, some, List, [], ◌∷◌, ◌++◌,
  ◌==◌, leb, if◌then◌else◌, is_empty, any, length,
}
use mathlib.Core.List.{foldl}
use jamm_vpn.Base.Text.{Str, str_eq, to_ascii_lowercase}
use jamm_vpn.Base.Maps.{Map, insert}
use jamm_vpn.Error.{Result, ok, err, ◌>>=◌}
use jamm_vpn.Addr.{IpAddr, v4, v6, is_ipv4}
use jamm_vpn.Split.Cidr
use jamm_vpn.Split.Cidr.{IpCidr}
use jamm_vpn.Geo.Protobuf.{
  GeoError, Reader, read_varint, read_bytes, read_string, skip, each_field, each,
}

-- `Ipv4Addr::new` and `Ipv6Addr::from` on the octets, most significant first.
unfoldable pub from_octets : List ℕ → ℕ
from_octets = foldl (λ v b. v * 256 + b) 0

unfoldable pub cidr_field :
    Option (List ℕ) × Option ℕ
    → ℕ
    → ℕ
    → Reader
    → Result GeoError ((Option (List ℕ) × Option ℕ) × Reader)
cidr_field (ip, prefix) field wire r =
    if field == 1 && wire == 2
    then (do (b, r) ← read_bytes r; ok ((some b, prefix), r))
    else if field == 2 && wire == 0
    then (do (v, r) ← read_varint r; ok ((ip, some v), r))
    else (do r ← skip wire r; ok ((ip, prefix), r))

-- 4 or 16 octets make an address.
unfoldable pub octets_ip : Option (List ℕ) → Option IpAddr
octets_ip none = none
octets_ip (some b) =
    if length b == 4
    then some (v4 (from_octets b))
    else if length b == 16
    then some (v6 (from_octets b))
    else none

-- `IpCidr::new(ip, prefix).ok()`, behind the test of the whole `u64` prefix.
unfoldable pub cidr_of : Option IpAddr → Option ℕ → Option IpCidr
cidr_of none prefix = none
cidr_of (some ip) none = none
cidr_of (some ip) (some p) =
    if leb p (if is_ipv4 ip then 32 else 128)
    then elim (Cidr.new (λ _ _. []) ip (p % 256)) [ ok c ↦ some c | err _ ↦ none ]
    else none

unfoldable pub parse_cidr : List ℕ → Result GeoError (Option IpCidr)
parse_cidr bytes = do
  (ip, prefix) ← each cidr_field (none, none) bytes
  ok (cidr_of (octets_ip ip) prefix)

unfoldable pub geoip_field :
    Str × List IpCidr → ℕ → ℕ → Reader → Result GeoError ((Str × List IpCidr) × Reader)
geoip_field (code, cidrs) field wire r =
    if field == 1 && wire == 2
    then (do (s, r) ← read_string r; ok ((to_ascii_lowercase s, cidrs), r))
    else if field == 2 && wire == 2
    then (do
      (b, r) ← read_bytes r
      found ← parse_cidr b
      ok ((code, elim found [ none ↦ cidrs | some c ↦ cidrs ++ (c ∷ []) ]), r))
    else (do r ← skip wire r; ok ((code, cidrs), r))

unfoldable pub parse_geoip : List ℕ → Result GeoError (Str × List IpCidr)
parse_geoip bytes = each geoip_field ([], []) bytes

abbrev pub GeoIpDb : Type 0
GeoIpDb = Map Str (List IpCidr)

unfoldable pub db_field : GeoIpDb → ℕ → ℕ → Reader → Result GeoError (GeoIpDb × Reader)
db_field db field wire r =
    if field == 1 && wire == 2
    then (do
      (b, r) ← read_bytes r
      (code, cidrs) ← parse_geoip b
      ok (if is_empty code then db else insert str_eq code cidrs db, r))
    else (do r ← skip wire r; ok (db, r))

unfoldable pub parse : List ℕ → Result GeoError GeoIpDb
parse bytes = each db_field (λ _. none) bytes

unfoldable pub matches : GeoIpDb → Str → IpAddr → Bool
matches db country ip = elim (db (to_ascii_lowercase country)) [
  | none ↦ false
  | some cidrs ↦ any (λ c. Cidr.contains c ip) cidrs
]
