-- ===== src/Geo/Ip/Networks.antt =====
-- Reading a geoip database ends on every input, and makes no network that its family cannot have.
use jamm_vpn.Base.{
  ℕ, ◌≤◌, ◌≡◌, ◌≢◌, refl, ◌&&◌, Option, none, some, List, ◌==◌, length, if◌then◌else◌, arith, leb,
}
use jamm_vpn.Error.{Result, ok, err, ◌>>=◌}
use jamm_vpn.Addr.{IpAddr, is_ipv4, v4, v6}
use jamm_vpn.Split.Cidr
use jamm_vpn.Split.Cidr.{IpCidr, max_prefix}
use jamm_vpn.Geo.Protobuf.{GeoError, out_of_fuel, read_varint, read_string, read_bytes, skip, each}
use jamm_vpn.Geo.Protobuf.Progress.{
  Leaves-if, Leaves-bind, Leaves-bind_only, Leaves-pure, Forward, varint-Leaves, string-Leaves,
  bytes-Leaves, skip-LeavesOnly, each_fails,
}
use jamm_vpn.Geo.Ip.{
  cidr_field, cidr_of, octets_ip, parse_cidr, geoip_field, parse_geoip, db_field, parse,
}

cidr_field-Forward : Forward cidr_field
unfolding cidr_field
cidr_field-Forward (ip, prefix) field wire r =
    let n = length r in
    Leaves-if (field == 1 && wire == 2) n _ _
      (Leaves-bind n n (read_bytes r) _ (bytes-Leaves r) (λ v q h. h))
      (Leaves-if (field == 2 && wire == 0) n _ _
        (Leaves-bind n n (read_varint r) _ (varint-Leaves r) (λ v q h. h))
        (Leaves-bind_only n n (skip wire r) _ (skip-LeavesOnly wire r) (λ q h. h)))

cidr_ends : (bytes : List ℕ) → parse_cidr bytes ≢ err out_of_fuel
unfolding parse_cidr
cidr_ends bytes =
    from_loop (each cidr_field (none, none) bytes)
      (each_fails cidr_field cidr_field-Forward _ bytes)
  where
    from_loop :
        (x : Result GeoError (Option (List ℕ) × Option ℕ))
        → x ≢ err out_of_fuel
        → (x >>= λ (ip, prefix). ok (cidr_of (octets_ip ip) prefix)) ≢ err out_of_fuel
    from_loop (ok (ip, prefix)) h e = cc
    from_loop (err g) h e = h (cc)

geoip_field-Forward : Forward geoip_field
unfolding geoip_field
geoip_field-Forward (code, cidrs) field wire r =
    let n = length r in
    Leaves-if (field == 1 && wire == 2) n _ _
      (Leaves-bind n n (read_string r) _ (string-Leaves r) (λ v q h. h))
      (Leaves-if (field == 2 && wire == 2) n _ _
        (Leaves-bind n n (read_bytes r) _ (bytes-Leaves r)
          (λ b q h. Leaves-pure n (parse_cidr b) _ (cidr_ends b) (λ c. h)))
        (Leaves-bind_only n n (skip wire r) _ (skip-LeavesOnly wire r) (λ q h. h)))

geoip_ends : (bytes : List ℕ) → parse_geoip bytes ≢ err out_of_fuel
unfolding parse_geoip
geoip_ends bytes = each_fails geoip_field geoip_field-Forward _ bytes

db_field-Forward : Forward db_field
unfolding db_field
db_field-Forward db field wire r =
    let n = length r in
    Leaves-if (field == 1 && wire == 2) n _ _
      (Leaves-bind n n (read_bytes r) _ (bytes-Leaves r)
        (λ b q h. Leaves-pure n (parse_geoip b) _ (geoip_ends b) (λ (c, ns). h)))
      (Leaves-bind_only n n (skip wire r) _ (skip-LeavesOnly wire r) (λ q h. h))

-- Reading a geoip database ends on every input, malformed or not, at every level of nesting.
pub geoip_parse_ends :
    (bytes : List ℕ)
    → (parse bytes ≢ err out_of_fuel)
      × (parse_geoip bytes ≢ err out_of_fuel)
      × (parse_cidr bytes ≢ err out_of_fuel)
unfolding parse
geoip_parse_ends bytes =
    (each_fails db_field db_field-Forward _ bytes, geoip_ends bytes, cidr_ends bytes)

-- The test of the whole prefix comes before its cast to `u8`, so the cast loses nothing.
cidr_of_lem :
    (ip : IpAddr) (p : ℕ)
    → cidr_of (some ip) (some p)
      ≡ (if leb p (max_prefix ip) then some (record { base = ip; prefix = p }) else none)
unfolding cidr_of is_ipv4 Cidr.new
cidr_of_lem (v4 a) p = ground arith
cidr_of_lem (v6 a) p = ground arith

cidr_of_fits :
    (ip : Option IpAddr) (prefix : Option ℕ) (c : IpCidr)
    → cidr_of ip prefix ≡ some c
    → (ip ≡ some c.base) × (prefix ≡ some c.prefix) × (c.prefix ≤ max_prefix c.base)
cidr_of_fits none prefix c e = absurd (unfold cidr_of in (cc))
cidr_of_fits (some ip) none c e = absurd (unfold cidr_of in (cc))
cidr_of_fits (some ip) (some p) c e = ground (arith, cidr_of_lem ip p)

-- A network that is read from a message has the address of the message, and the message's own
-- prefix, which fits the address: a prefix such as 256 never becomes 0.
pub parse_cidr_fits :
    (bytes : List ℕ) (c : IpCidr)
    → parse_cidr bytes ≡ ok (some c)
    → (ip : Option (List ℕ)) × (prefix : Option ℕ) × (each cidr_field (none, none) bytes
        ≡ ok (ip, prefix))
      × (octets_ip ip ≡ some c.base)
      × (prefix ≡ some c.prefix)
      × (c.prefix ≤ max_prefix c.base)
unfolding parse_cidr
parse_cidr_fits bytes c e = from_loop (each cidr_field (none, none) bytes) refl e
  where
    from_loop :
        (x : Result GeoError (Option (List ℕ) × Option ℕ))
        → each cidr_field (none, none) bytes ≡ x
        → (x >>= λ (ip, prefix). ok (cidr_of (octets_ip ip) prefix)) ≡ ok (some c)
        → (ip : Option (List ℕ)) × (prefix : Option ℕ) × (each cidr_field (none, none) bytes
            ≡ ok (ip, prefix))
          × (octets_ip ip ≡ some c.base)
          × (prefix ≡ some c.prefix)
          × (c.prefix ≤ max_prefix c.base)
    from_loop (ok (ip, prefix)) q f =
        let fits = cidr_of_fits (octets_ip ip) prefix c (cc) in
        (ip, prefix, q, fits.0, fits.1, fits.2)
    from_loop (err g) q f = cc
