-- ===== src/FakeIp/Eviction.antt =====
-- How long an address of a FakeIP lives: the cursor goes round the whole range before it comes back.
use jamm_vpn.Base.{
  ℕ, suc, ◌+◌, ◌-◌, ◌≤◌, ◌≡◌, none, some, List, [], ◌∷◌, length, leb, if◌then◌else◌, arith, inl,
  inr, Option-cases,
}
use jamm_vpn.Base.Text.{Str}
use jamm_vpn.Addr.{v4}
use jamm_vpn.FakeIp.{FakeIp, allocate_new, allocate, domain_of}
use jamm_vpn.FakeIp.Invariant.{
  IsFakeIp, new_address, allocate_new-IsFakeIp, allocate_fresh, allocate_known,
}

-- The requests for a list of domains, one after the other.
abbrev pub allocate_all : FakeIp → List Str → FakeIp
allocate_all s [] = s
allocate_all s (d ∷ ds) = allocate_all (allocate s d).0 ds

-- How many new addresses are handed out before the cursor stands at `ip`.
abbrev rounds_left : FakeIp → ℕ → ℕ
rounds_left s ip =
    if leb (s.base + s.cursor) ip
    then ip - (s.base + s.cursor)
    else ip + (s.count - 1) - (s.base + s.cursor)

-- `ip` stands for `e`, and does so for `n` more new addresses.
record Holds (e : Str) (ip n : ℕ) (s : FakeIp) : Type 0 where
  valid : IsFakeIp s
  named : s.ip_to_dom ip ≡ some e
  lasts : n ≤ rounds_left s ip

module _ (e : Str) (ip n : ℕ) (s : FakeIp) (h : Holds e ip (suc n) s) (d : Str) where
  Holds-new : s.dom_to_ip d ≡ none → Holds e ip n (allocate_new s d).0
  unfolding allocate_new
  Holds-new o = record {
    valid = allocate_new-IsFakeIp h.valid d o;
    named = ground (arith, h.named, h.lasts, h.valid.fits, h.valid.next);
    lasts = ground (arith, h.named, h.lasts, h.valid.fits, h.valid.next, h.valid.ranged e ip);
  }

Holds-step :
    (e : Str) (ip n : ℕ) (s : FakeIp) (d : Str)
    → Holds e ip (suc n) s
    → Holds e ip n (allocate s d).0
Holds-step e ip n s d h = elim (Option-cases (s.dom_to_ip d)) [
  | inl o ↦ rw (allocate_fresh s d o) (Holds-new e ip n s h d o)
  | inr (a, o) ↦
      rw (allocate_known s d a o)
        (record { valid = h.valid; named = h.named; lasts = omega (arith, h.lasts) })
]

Holds-all :
    (e : Str) (ip : ℕ) (ds : List Str) (s : FakeIp)
    → Holds e ip (length ds) s
    → (allocate_all s ds).ip_to_dom ip ≡ some e
Holds-all e ip [] s h = h.named
Holds-all e ip (d ∷ ds) s h = Holds-all e ip ds (allocate s d).0 (Holds-step e ip (length ds) s d h)

lasts_new :
    (s : FakeIp) (d : Str) (n : ℕ)
    → IsFakeIp s
    → n + 2 ≤ s.count
    → n ≤ rounds_left (allocate_new s d).0 (allocate_new s d).1
unfolding allocate_new
lasts_new s d n h room = ground (arith, h.fits, h.next)

Holds-first :
    (s : FakeIp) (d : Str) (n : ℕ)
    → IsFakeIp s
    → s.dom_to_ip d ≡ none
    → n + 2 ≤ s.count
    → Holds d (allocate s d).1 n (allocate s d).0
Holds-first s d n h o room = rw (allocate_fresh s d o) (record {
  valid = allocate_new-IsFakeIp h d o;
  named = (new_address h d).0;
  lasts = lasts_new s d n h room;
})

-- A domain that has just been given an address keeps it through the next `count - 2` requests,
-- whatever their domains: an address is reused only when all others of the range have been.
pub allocate_retained :
    (s : FakeIp) (d : Str) (ds : List Str)
    → IsFakeIp s
    → s.dom_to_ip d ≡ none
    → length ds + 2 ≤ s.count
    → domain_of (allocate_all (allocate s d).0 ds) (v4 (allocate s d).1) ≡ some d
unfolding domain_of
allocate_retained s d ds h o room =
    Holds-all d (allocate s d).1 ds (allocate s d).0 (Holds-first s d (length ds) h o room)
