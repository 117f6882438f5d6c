-- ===== src/Geo/Site/Ends.antt =====
-- Reading a geosite database ends on every input.
use jamm_vpn.Base.{ℕ, ◌≢◌, ◌&&◌, List, [], ◌==◌, length}
use jamm_vpn.Error.{err}
use jamm_vpn.Geo.Protobuf.{out_of_fuel, read_varint, read_string, read_bytes, skip}
use jamm_vpn.Geo.Protobuf.Progress.{
  Leaves-if, Leaves-bind, Leaves-bind_only, Leaves-pure, Forward, varint-Leaves, string-Leaves,
  bytes-Leaves, skip-LeavesOnly, each_fails,
}
use jamm_vpn.Geo.Site.{domain_field, parse_domain, geosite_field, parse_geosite, db_field, parse}

domain_field-Forward : Forward domain_field
unfolding domain_field
domain_field-Forward (dtype, value) field wire r =
    let n = length r in
    Leaves-if (field == 1 && wire == 0) n _ _
      (Leaves-bind n n (read_varint r) _ (varint-Leaves r) (λ v q h. h))
      (Leaves-if (field == 2 && wire == 2) n _ _
        (Leaves-bind n n (read_string r) _ (string-Leaves r) (λ v q h. h))
        (Leaves-bind_only n n (skip wire r) _ (skip-LeavesOnly wire r) (λ q h. h)))

geosite_field-Forward : Forward geosite_field
unfolding geosite_field
geosite_field-Forward (code, set) field wire r =
    let n = length r in
    Leaves-if (field == 1 && wire == 2) n _ _
      (Leaves-bind n n (read_string r) _ (string-Leaves r) (λ v q h. h))
      (Leaves-if (field == 2 && wire == 2) n _ _
        (Leaves-bind n n (read_bytes r) _ (bytes-Leaves r) (λ b q h.
          Leaves-pure n (parse_domain b) _
            (unfold parse_domain in each_fails domain_field domain_field-Forward (0, []) b)
            (λ (t, v). h)))
        (Leaves-bind_only n n (skip wire r) _ (skip-LeavesOnly wire r) (λ q h. h)))

db_field-Forward : Forward db_field
unfolding db_field
db_field-Forward db field wire r =
    let n = length r in
    Leaves-if (field == 1 && wire == 2) n _ _
      (Leaves-bind n n (read_bytes r) _ (bytes-Leaves r) (λ b q h.
        Leaves-pure n (parse_geosite b) _
          (unfold parse_geosite in each_fails geosite_field geosite_field-Forward _ b)
          (λ (t, v). h)))
      (Leaves-bind_only n n (skip wire r) _ (skip-LeavesOnly wire r) (λ q h. h))

-- Reading a geosite database ends on every input, malformed or not, at every level of nesting: the
-- bound on the rounds of its loops is never reached.
pub geosite_parse_ends :
    (bytes : List ℕ)
    → (parse bytes ≢ err out_of_fuel)
      × (parse_geosite bytes ≢ err out_of_fuel)
      × (parse_domain bytes ≢ err out_of_fuel)
unfolding parse parse_geosite parse_domain
geosite_parse_ends bytes = (
  each_fails db_field db_field-Forward _ bytes,
  each_fails geosite_field geosite_field-Forward _ bytes,
  each_fails domain_field domain_field-Forward _ bytes,
)
