-- ===== src/FakeIp/Invariant.antt =====
-- The two tables of a FakeIp are inverse to each other, and hold addresses of the range only.
use Prim.Native.Nat.{bit_and}
use mathlib.Core.Path.{subst}
use jamm_vpn.Base.{
  ℕ, ◌+◌, ◌-◌, ◌*◌, ◌%◌, ◌^◌, ◌≤◌, ◌<◌, ◌≡◌, true, false, none, some, arith, Bool-cases, inl, inr,
  Option-cases, leb, ltb, ◌==◌,
}
use jamm_vpn.Base.Text.{Str, str_eq_iff}
use jamm_vpn.Error.{ok}
use jamm_vpn.Addr.{IpAddr, v4, v6, IsIp, is_ipv4}
use jamm_vpn.Split.Cidr.{IpCidr, IsCidr, max_prefix, netmask}
use jamm_vpn.Split.Cidr.Blocks.{network_address}
use jamm_vpn.FakeIp.{FakeIp, from_cidr, allocate_new, allocate, domain_of, range_contains}

pub record IsFakeIp (s : FakeIp) : Type 0 where
  pub room : 3 ≤ s.count
  pub fits : s.base + s.count ≤ 2 ^ 32
  pub next : (1 ≤ s.cursor) × (s.cursor < s.count)
  pub forth : (d : Str) (ip : ℕ) → s.dom_to_ip d ≡ some ip → s.ip_to_dom ip ≡ some d
  pub back : (d : Str) (ip : ℕ) → s.ip_to_dom ip ≡ some d → s.dom_to_ip d ≡ some ip
  pub ranged :
      (d : Str) (ip : ℕ) → s.ip_to_dom ip ≡ some d → (s.base < ip) × (ip < s.base + s.count)

module _ {s : FakeIp} (h : IsFakeIp s) (d : Str) (unknown : s.dom_to_ip d ≡ none) where
  forth-new :
      (e : Str) (ip : ℕ)
      → (allocate_new s d).0.dom_to_ip e ≡ some ip
      → (allocate_new s d).0.ip_to_dom ip ≡ some e
  unfolding allocate_new
  forth-new e ip p =
      let ip' = (s.base + s.cursor) % 2 ^ 32 in
      elim (Option-cases (s.ip_to_dom ip')) [
        | inl o ↦ ground (arith, o, p, str_eq_iff d e, h.forth e ip)
        | inr (old, o) ↦
            ground (arith, o, p, str_eq_iff d e, str_eq_iff old e, str_eq_iff old d, h.forth e ip)
      ]

  back-new :
      (e : Str) (ip : ℕ)
      → (allocate_new s d).0.ip_to_dom ip ≡ some e
      → (allocate_new s d).0.dom_to_ip e ≡ some ip
  unfolding allocate_new
  back-new e ip p =
      let ip' = (s.base + s.cursor) % 2 ^ 32 in
      elim (Option-cases (s.ip_to_dom ip')) [
        | inl o ↦ ground (arith, o, p, unknown, str_eq_iff d e, h.back e ip)
        | inr (old, o) ↦ ground (
          arith,
          o,
          p,
          unknown,
          str_eq_iff d e,
          str_eq_iff old e,
          str_eq_iff old d,
          h.back e ip,
          h.back old ip',
        )
      ]

  pub allocate_new-IsFakeIp : IsFakeIp (allocate_new s d).0
  unfolding allocate_new
  allocate_new-IsFakeIp = record {
    room = h.room;
    fits = h.fits;
    next = ground (arith, h.next);
    forth = forth-new;
    back = back-new;
    ranged = λ e ip p. ground (arith, h.next, h.fits, h.ranged e ip);
  }

pub allocate_fresh : (s : FakeIp) (d : Str) → s.dom_to_ip d ≡ none → allocate s d ≡ allocate_new s d
unfolding allocate
allocate_fresh s d e = rw (e, allocate)

pub allocate_known :
    (s : FakeIp) (d : Str) (ip : ℕ) → s.dom_to_ip d ≡ some ip → allocate s d ≡ (s, ip)
unfolding allocate
allocate_known s d ip e = rw (e, allocate)

-- Allocation keeps the tables inverse to each other and inside the range.
pub allocate-IsFakeIp : (s : FakeIp) (d : Str) → IsFakeIp s → IsFakeIp (allocate s d).0
allocate-IsFakeIp s d h = elim (Option-cases (s.dom_to_ip d)) [
  | inl o ↦ rw (allocate_fresh s d o) (allocate_new-IsFakeIp h d o)
  | inr (ip, o) ↦ rw (allocate_known s d ip o) h
]

pub new_address :
    {s : FakeIp} (h : IsFakeIp s) (d : Str)
    → ((allocate_new s d).0.ip_to_dom (allocate_new s d).1 ≡ some d)
      × ((allocate_new s d).0.dom_to_ip d ≡ some (allocate_new s d).1)
unfolding allocate_new
new_address h d = ground (arith, str_eq_iff d d)

known_address :
    (s : FakeIp) (d : Str)
    → IsFakeIp s
    → ((allocate s d).0.ip_to_dom (allocate s d).1 ≡ some d)
      × ((allocate s d).0.dom_to_ip d ≡ some (allocate s d).1)
known_address s d h = elim (Option-cases (s.dom_to_ip d)) [
  | inl o ↦ rw (allocate_fresh s d o) (new_address h d)
  | inr (ip, o) ↦ rw (allocate_known s d ip o) (h.forth d ip o, o)
]

in_range :
    {s : FakeIp}
    → IsFakeIp s
    → (d : Str) (ip : ℕ) → s.ip_to_dom ip ≡ some d
    → range_contains s (v4 ip) ≡ true
unfolding range_contains
in_range {s} h d ip e = ground (arith, h.ranged d ip e, h.fits)

-- The address that a domain gets leads back to the domain, lies in the range, and is what a further
-- request for the domain returns, with no further change.
pub allocate_lem :
    (s : FakeIp) (d : Str)
    → IsFakeIp s
    → (domain_of (allocate s d).0 (v4 (allocate s d).1) ≡ some d)
      × (range_contains (allocate s d).0 (v4 (allocate s d).1) ≡ true)
      × (allocate (allocate s d).0 d ≡ allocate s d)
unfolding domain_of
allocate_lem s d h =
    let (e, f) = known_address s d h in
    (e, in_range (allocate-IsFakeIp s d h) d _ e, allocate_known (allocate s d).0 d _ f)

-- The range of `new`: whole blocks, so the last address does not pass the end of IPv4.
range_fits :
    (a p : ℕ)
    → a < 2 ^ 32
    → p ≤ 32
    → (p == 0) ≡ false
    → leb 32 p ≡ false
    → bit_and a ((2 ^ 32 - 1) * 2 ^ (32 - p) % 2 ^ 32) + 2 ^ (32 - p) ≤ 2 ^ 32
unfolding netmask
range_fits a p la lp nz lt =
    let m : netmask 32 p ≡ (2 ^ 32 - 1) * 2 ^ (32 - p) % 2 ^ 32 = rw (nz, lt) in
    rw m at (network_address 32 p a (ground arith) lp la).1

abbrev empty_range : ℕ → ℕ → FakeIp
empty_range base count = record {
  base = base;
  count = count;
  cursor = 1;
  dom_to_ip = λ _. none;
  ip_to_dom = λ _. none;
}

empty_range-IsFakeIp :
    (base count : ℕ) → 3 ≤ count → base + count ≤ 2 ^ 32 → IsFakeIp (empty_range base count)
empty_range-IsFakeIp base count room fits = record {
  room = room;
  fits = fits;
  next = omega arith;
  forth = λ d ip e. cc;
  back = λ d ip e. cc;
  ranged = λ d ip e. cc;
}

family_range :
    (a : IpAddr) (p : ℕ) (s : FakeIp)
    → IsIp a
    → p ≤ max_prefix a
    → from_cidr (record { base = a; prefix = p }) ≡ ok s
    → IsFakeIp s
unfolding from_cidr is_ipv4
family_range (v6 a) p s la lp e = cc
family_range (v4 a) p s la lp e = elim (Bool-cases (leb 32 p)) [
  | inl t ↦ absurd (ground arith)
  | inr lt ↦ elim (Bool-cases (p == 0)) [
    | inl z ↦ absurd (ground arith)
    | inr nz ↦ elim (Bool-cases (ltb (2 ^ (32 - p)) 3)) [
      | inl t ↦ absurd (ground arith)
      | inr room ↦
          let m = bit_and a ((2 ^ 32 - 1) * 2 ^ (32 - p) % 2 ^ 32) in
          let q : empty_range m (2 ^ (32 - p)) ≡ s = ground arith in
          subst IsFakeIp q
            (empty_range-IsFakeIp m (2 ^ (32 - p)) (ground arith) (range_fits a p la lp nz lt))
    ]
  ]
]

-- A FakeIP that `new` builds from a real IPv4 range starts well formed.
pub from_cidr-IsFakeIp : (c : IpCidr) (s : FakeIp) → IsCidr c → from_cidr c ≡ ok s → IsFakeIp s
from_cidr-IsFakeIp c s h e = family_range c.base c.prefix s h.0 h.1 e
