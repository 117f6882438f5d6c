-- ===== src/Engine/Dns.antt =====
-- crates/net/src/engine.rs, `route`: when the resolver is asked, and what its failure leads to.
use jamm_vpn.Base.{
  ℕ, ◌≡◌, refl, ap, ◌⊎◌, inl, inr, Bool, true, false, ◌&&◌, ◌||◌, Bool-cases, Option-cases, Option,
  none, some, List, [], ◌∷◌, if◌then◌else◌, All, arith,
}
use jamm_vpn.Base.Text.{Str}
use jamm_vpn.Addr.{IpAddr, domain, port}
use jamm_vpn.Split.Config.{unknown_app}
use jamm_vpn.Routing.Rule.{Rule, RouteAction}
use jamm_vpn.Routing.Rule.Criteria.{Some}
use jamm_vpn.Engine.{Engine, block, has_ip_crit, named, literal_ip, non_ip_ok, act_full, act}
use jamm_vpn.FakeIp.{FakeIp}
use jamm_vpn.Engine.Walk.{fake_domain, Walk, start, lookup, answered, check, walk, reversed, route}
use jamm_vpn.Engine.Route.{
  known, walk_end, walk_hit, walk_miss, check_skip, check_now, hits, unconfirmed, verdict, routed,
  route_verdict,
}

abbrev pub is_asked : Walk → Bool
is_asked w = elim w.resolved [ none ↦ false | some r ↦ true ]

module _ {N : Type 0} (e : Engine N) (name : Option Str) (p : ℕ) where
  -- The first rule whose other criteria hold has an IP criterion.
  unfoldable pub asks : List Rule → Bool
  asks [] = false
  asks (r ∷ rs) =
      let rest = asks rs in if non_ip_ok e r name p unknown_app then has_ip_crit r else rest

  answered_asked :
      (r : Rule) (a : Option (List IpAddr)) (w : Walk)
      → is_asked (answered e name none p r a w).1 ≡ true
  unfolding answered
  answered_asked r none w = refl
  answered_asked r (some ips) w = refl

  check_asked :
      (r : Rule) (w : Walk) → is_asked w ≡ true → is_asked (check e name none p r w).1 ≡ true
  unfolding check
  check_asked r w was = elim (Option-cases e.resolver) [
    | inl off ↦ ground (arith, off)
    | inr (resolve, on) ↦ ground (arith, on, answered_asked r (lookup e name none p resolve w) w)
  ]

  -- A turn of the loop that was not asked before.
  check_new :
      (r : Rule) (w : Walk) (resolve : Str → Option (List IpAddr))
      → e.resolver ≡ some resolve
      → w.resolved ≡ none
      → is_asked (check e name none p r w).1 ≡ (non_ip_ok e r name p unknown_app && has_ip_crit r)
  unfolding check
  check_new r w resolve on new =
      ground (arith, on, new, answered_asked r (lookup e name none p resolve w) w)

  walk_asked :
      (rs : List Rule) (w : Walk) → is_asked w ≡ true → is_asked (walk e name none p rs w).1 ≡ true
  walk_asked [] w was = rw (walk_end e name none p w) was
  walk_asked (r ∷ rs) w was =
      let kept = check_asked r w was in
      elim (Bool-cases (check e name none p r w).0) [
        | inl hit ↦ rw (walk_hit e name none p r rs w hit) kept
        | inr miss ↦
            rw (walk_miss e name none p r rs w miss)
              (walk_asked rs (check e name none p r w).1 kept)
      ]

  -- A walk that starts with a rule that asks.
  walk_asking :
      (resolve : Str → Option (List IpAddr))
      → e.resolver ≡ some resolve
      → (r : Rule) (rs : List Rule) → non_ip_ok e r name p unknown_app ≡ true
      → has_ip_crit r ≡ true
      → is_asked (walk e name none p (r ∷ rs) start).1 ≡ true
  walk_asking resolve on r rs good crit =
      let now : is_asked (check e name none p r start).1 ≡ true =
        rw (check_new r start resolve on refl, good, crit) in
      elim (Bool-cases (check e name none p r start).0) [
        | inl hit ↦ rw (walk_hit e name none p r rs start hit) now
        | inr miss ↦
            rw (walk_miss e name none p r rs start miss)
              (walk_asked rs (check e name none p r start).1 now)
      ]

-- For a domain without an address, the walk over the rules calls the resolver exactly if the
-- first rule whose criteria other than the addresses hold has an IP criterion.
pub walk-asks :
    {N : Type 0} (e : Engine N) (name : Option Str) (p : ℕ) (resolve : Str → Option (List IpAddr))
    → e.resolver ≡ some resolve
    → (rs : List Rule) → is_asked (walk e name none p rs start).1 ≡ asks e name p rs
unfolding asks
walk-asks e name p resolve on [] = rw (walk_end e name none p start)
walk-asks e name p resolve on (r ∷ rs) = elim (Bool-cases (non_ip_ok e r name p unknown_app)) [
  | inr bad ↦
      let skip = check_skip e name none p r start bad in
      rw (walk_miss e name none p r rs start (ap (λ o. o.0) skip), skip, bad)
        (walk-asks e name p resolve on rs)
  | inl good ↦ elim (Bool-cases (has_ip_crit r)) [
    | inl crit ↦ rw (good, crit) (walk_asking e name p resolve on r rs good crit)
    | inr plain ↦
        let now = check_now e name none p r start good plain in
        rw (walk_hit e name none p r rs start (ap (λ o. o.0) now), now, good, plain)
  ]
]

-- The verdict over rules that do not accept, one of them a block left undecided.
verdict_blocks :
    {N : Type 0} (e : Engine N) (name : Option Str) (ip : Option IpAddr) (p : ℕ) (rs : List Rule)
    (b : Bool)
    → All (λ r. hits e name ip p r ≡ false) rs
    → (b ≡ true) ⊎ Some (λ r. unconfirmed e name ip p r ≡ true) rs
    → verdict e name ip p b rs ≡ RouteAction.block
unfolding verdict
verdict_blocks e name ip p [] b calm (inl is) = rw is
verdict_blocks e name ip p [] b calm (inr never) = absurd never
verdict_blocks e name ip p (r ∷ rs) b (miss, calm) why =
    rw miss (verdict_blocks e name ip p rs (b || unconfirmed e name ip p r) calm (later why))
  where
    later :
        (b ≡ true)
          ⊎ ((unconfirmed e name ip p r ≡ true) ⊎ Some (λ r. unconfirmed e name ip p r ≡ true) rs)
        → ((b || unconfirmed e name ip p r) ≡ true)
          ⊎ Some (λ r. unconfirmed e name ip p r ≡ true) rs
    later (inl is) = inl (rw is)
    later (inr (inl now)) = inl (rw now (ground arith))
    later (inr (inr rest)) = inr rest

-- A rule that a domain alone cannot satisfy.
abbrev pub NeedsAddress : {N : Type 0} → Engine N → Str → ℕ → Rule → Type 0
NeedsAddress e host p r = (non_ip_ok e r (some host) p unknown_app ≡ false) ⊎ (has_ip_crit r ≡ true)

-- A block whose other criteria hold, with an IP criterion.
abbrev pub BlocksAddress : {N : Type 0} → Engine N → Str → ℕ → Rule → Type 0
BlocksAddress e host p r =
    (non_ip_ok e r (some host) p unknown_app ≡ true)
    × (has_ip_crit r ≡ true)
    × (r.action ≡ RouteAction.block)

module _ {N : Type 0} (e : Engine N) (host : Str) (p : ℕ) where
  misses :
      (rs : List Rule)
      → known e (some host) none p ≡ none
      → All (λ r. NeedsAddress e host p r) rs
      → All (λ r. hits e (some host) none p r ≡ false) rs
  unfolding hits
  misses [] off needs = tt
  misses (r ∷ rs) off (inl bad, needs) = (rw bad, misses rs off needs)
  misses (r ∷ rs) off (inr crit, needs) = (rw (crit, off) (ground arith), misses rs off needs)

  pending :
      (rs : List Rule)
      → known e (some host) none p ≡ none
      → Some (λ r. BlocksAddress e host p r) rs
      → Some (λ r. unconfirmed e (some host) none p r ≡ true) rs
  unfolding unconfirmed
  pending [] off never = absurd never
  pending (r ∷ rs) off (inl (good, crit, blocks)) = inl (rw (good, crit, blocks, off))
  pending (r ∷ rs) off (inr rest) = inr (pending rs off rest)

fake_none : (o : Option FakeIp) → fake_domain o none ≡ none
unfolding fake_domain
fake_none none = refl
fake_none (some fi) = refl

named_name :
    (host : Str) (p : ℕ) → literal_ip host ≡ none → named (domain host p) ≡ (some host, none)
unfolding named
named_name host p plain = rw plain

pub reversed_name :
    {N : Type 0} (e : Engine N) (host : Str) (p : ℕ)
    → literal_ip host ≡ none
    → reversed e (domain host p) ≡ (domain host p, (some host, none))
unfolding reversed port
reversed_name e host p plain =
    rw (reversed, named_name host p plain)
      (rw (fake_none e.fakeip) (ap (λ q. (domain host p, q)) (named_name host p plain)))

routed_name :
    {N : Type 0} (e : Engine N) (host : Str) (p : ℕ)
    → literal_ip host ≡ none
    → routed e (domain host p) ≡ verdict e (some host) none p false e.rules
unfolding routed port
routed_name e host p plain =
    ap (λ x. verdict e x.1.0 x.1.1 p false e.rules) (reversed_name e host p plain)

unknown :
    {N : Type 0} (e : Engine N) (host : Str) (p : ℕ) (resolve : Str → Option (List IpAddr))
    → e.resolver ≡ some resolve
    → resolve host ≡ none
    → known e (some host) none p ≡ none
unfolding known
unknown e host p resolve on fails = rw (on, fails)

block_act : {N : Type 0} (e : Engine N) → act e RouteAction.block ≡ block
unfolding act act_full
block_act e = refl

-- A failed resolution does not open what a rule blocks: for a domain that is no literal address,
-- with a resolver that fails for it, when every rule whose other criteria hold has an IP
-- criterion and one of these is a block, `route` answers to block, whatever the default action.
pub route_fails_closed :
    {N : Type 0} (e : Engine N) (host : Str) (p : ℕ) (resolve : Str → Option (List IpAddr))
    → literal_ip host ≡ none
    → e.resolver ≡ some resolve
    → resolve host ≡ none
    → All (λ r. NeedsAddress e host p r) e.rules
    → Some (λ r. BlocksAddress e host p r) e.rules
    → (route e (domain host p)).decision ≡ block
route_fails_closed e host p resolve plain on fails needs blocks =
    let off = unknown e host p resolve on fails in
    rw
      (
        route_verdict e (domain host p),
        routed_name e host p plain,
        verdict_blocks e (some host) none p e.rules false (misses e host p e.rules off needs)
            (inr (pending e host p e.rules off blocks)),
      )
      (block_act e)
