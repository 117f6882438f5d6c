-- ===== src/Tests/Pool.antt =====
-- The FakeIP pool 198.18.0.0/15 at concrete domains.
use jamm_vpn.Base.{◌*◌, ◌+◌, ◌^◌, ◌≡◌, refl, true, none, some, List, [], ◌∷◌, arith}
use jamm_vpn.Base.Text.{Str, bytes}
use jamm_vpn.Error.{ok}
use jamm_vpn.Addr.{v4}
use jamm_vpn.Split.Cidr.{IpCidr}
use jamm_vpn.FakeIp.{FakeIp, from_cidr, allocate, domain_of, range_contains}
use jamm_vpn.FakeIp.Invariant.{IsFakeIp, from_cidr-IsFakeIp, allocate-IsFakeIp, allocate_lem}
use jamm_vpn.FakeIp.Eviction.{allocate_all, allocate_retained}

abbrev range : IpCidr
range = record { base = v4 ((198 * 256 + 18) * 2 ^ 16); prefix = 15 }

abbrev pool : FakeIp
pool = record {
  base = (198 * 256 + 18) * 2 ^ 16;
  count = 2 ^ 17;
  cursor = 1;
  dom_to_ip = λ _. none;
  ip_to_dom = λ _. none;
}

pool_made : from_cidr range ≡ ok pool
unfolding from_cidr
pool_made = refl

-- The same pool for the other examples.
pool-IsFakeIp : IsFakeIp pool
pool-IsFakeIp = from_cidr-IsFakeIp range pool (omega arith, omega arith) pool_made

abbrev site : Str
site = bytes "example.com"

allocate-IsFakeIp_example : IsFakeIp (allocate pool site).0
allocate-IsFakeIp_example = allocate-IsFakeIp pool site pool-IsFakeIp

allocate_lem_example :
    (domain_of (allocate pool site).0 (v4 (allocate pool site).1) ≡ some site)
    × (range_contains (allocate pool site).0 (v4 (allocate pool site).1) ≡ true)
    × (allocate (allocate pool site).0 site ≡ allocate pool site)
allocate_lem_example = allocate_lem pool site pool-IsFakeIp

abbrev others : List Str
others = bytes "a.org" ∷ bytes "b.org" ∷ site ∷ []

allocate_retained_example :
    domain_of (allocate_all (allocate pool site).0 others) (v4 (allocate pool site).1) ≡ some site
allocate_retained_example = allocate_retained pool site others pool-IsFakeIp refl (omega arith)
