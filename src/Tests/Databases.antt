-- ===== src/Tests/Databases.antt =====
-- Geo databases, well formed and not.
use jamm_vpn.Base.{ℕ, ◌*◌, ◌^◌, ◌≡◌, ◌≢◌, refl, ◌⊎◌, ◌↔◌, true, none, some, List, [], ◌∷◌}
use jamm_vpn.Base.Text.{Str, bytes, contains}
use jamm_vpn.Error.{ok, err}
use jamm_vpn.Addr.{v4, is_ipv4}
use jamm_vpn.Split.Cidr
use jamm_vpn.Split.Cidr.{IpCidr, max_prefix}
use jamm_vpn.Routing.Domain.{normal_host}
use jamm_vpn.Geo.Protobuf.{
  out_of_fuel, read_varint, varint_from, read_tag, read_bytes, split_at, each_field,
}
use jamm_vpn.Geo.Site
use jamm_vpn.Geo.Site.{DomainSet, empty_set, add, has, set_matches, parse_domain, parse_geosite}
use jamm_vpn.Geo.Site.Matching.{Below, Exists, set_matches_iff}
use jamm_vpn.Geo.Site.Ends.{geosite_parse_ends}
use jamm_vpn.Geo.Ip
use jamm_vpn.Geo.Ip.{cidr_field, octets_ip, parse_cidr, parse_geoip}

-- `CIDR { ip: 10.0.0.0, prefix: 8 }`, and the same with the prefix 256.
abbrev cidr_message : List ℕ
cidr_message = 10 ∷ 4 ∷ 10 ∷ 0 ∷ 0 ∷ 0 ∷ 16 ∷ 8 ∷ []

abbrev wide_message : List ℕ
wide_message = 10 ∷ 4 ∷ 10 ∷ 0 ∷ 0 ∷ 0 ∷ 16 ∷ 128 ∷ 2 ∷ []

abbrev ten : IpCidr
ten = record { base = v4 (10 * 2 ^ 24); prefix = 8 }

cidr_read : parse_cidr cidr_message ≡ ok (some ten)
unfolding parse_cidr each_field read_tag read_varint varint_from cidr_field read_bytes split_at
    Ip.cidr_of octets_ip is_ipv4 Cidr.new Ip.from_octets
cidr_read = refl

wide_dropped : parse_cidr wide_message ≡ ok none
unfolding parse_cidr each_field read_tag read_varint varint_from cidr_field read_bytes split_at
    Ip.cidr_of octets_ip is_ipv4 Cidr.new Ip.from_octets
wide_dropped = refl

geosite_parse_ends_example :
    (Site.parse cidr_message ≢ err out_of_fuel)
    × (parse_geosite cidr_message ≢ err out_of_fuel)
    × (parse_domain cidr_message ≢ err out_of_fuel)
geosite_parse_ends_example = geosite_parse_ends cidr_message

abbrev video : DomainSet
video = record empty_set { suffix = bytes "youtube.com" ∷ [] }

abbrev host : Str
host = bytes "Music.YouTube.com."

set_matches_iff_example : (set_matches video host ≡ true) ↔ (
    (has video.full (normal_host host) ≡ true)
    ⊎ ((d : Str) × (has video.suffix d ≡ true) × Below (normal_host host) d)
    ⊎ Exists (λ k. contains (normal_host host) k ≡ true) video.keyword)
set_matches_iff_example = set_matches_iff video host
