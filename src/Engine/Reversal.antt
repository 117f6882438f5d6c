-- ===== src/Engine/Reversal.antt =====
-- crates/net/src/engine.rs: FakeIP addresses are routed as their domains; `resolve_target`.
use jamm_vpn.Base.{ℕ, ◌≡◌, refl, ap, ◌⊎◌, inl, inr, false, Option, none, some, List, [], ◌∷◌, arith}
use jamm_vpn.Base.Text.{Str}
use jamm_vpn.Addr.{IpAddr, Target, domain, socket, port}
use jamm_vpn.Routing.Rule.{Rule}
use jamm_vpn.FakeIp.{FakeIp, domain_of}
use jamm_vpn.Engine.{Engine, named, literal_ip}
use jamm_vpn.Engine.Dns.{reversed_name}
use jamm_vpn.Engine.Walk.{fake_domain, reversed, route, first_known, resolve_target}
use jamm_vpn.Engine.Route.{
  known, known_ip, known_unasked, hits, unconfirmed, verdict, routed, route_verdict,
}

fake_some :
    (o : Option FakeIp) (fi : FakeIp) (ip : IpAddr) (host : Str)
    → o ≡ some fi
    → domain_of fi ip ≡ some host
    → fake_domain o (some ip) ≡ some host
unfolding fake_domain
fake_some o fi ip host on knows = rw (on, knows)

fake_off : (o : Option FakeIp) (ip : Option IpAddr) → o ≡ none → fake_domain o ip ≡ none
unfolding fake_domain
fake_off o ip off = rw off

reversed_ip :
    {N : Type 0} (e : Engine N) (fi : FakeIp) (ip : IpAddr) (host : Str) (p : ℕ)
    → e.fakeip ≡ some fi
    → domain_of fi ip ≡ some host
    → reversed e (socket ip p) ≡ (domain host p, (some host, none))
unfolding reversed named port
reversed_ip e fi ip host p on knows = rw (reversed, fake_some e.fakeip fi ip host on knows)

-- A connection to an address that the FakeIP pool gave to a domain, and that domain is no literal
-- address, is routed just as a connection to the domain at the same port: the same decision, the
-- same target, the same node and fallback.
pub route_transparent :
    {N : Type 0} (e : Engine N) (fi : FakeIp) (ip : IpAddr) (host : Str) (p : ℕ)
    → e.fakeip ≡ some fi
    → domain_of fi ip ≡ some host
    → literal_ip host ≡ none
    → route e (socket ip p) ≡ route e (domain host p)
unfolding route port
route_transparent e fi ip host p on knows plain =
    rw (reversed_ip e fi ip host p on knows, reversed_name e host p plain)

-- The address of the target is known, or there is nothing to ask.
abbrev pub Settled : {N : Type 0} → Engine N → Option IpAddr → Type 0
Settled e ip = ((i : IpAddr) × (ip ≡ some i)) ⊎ ((ip ≡ none) × (e.resolver ≡ none))

module _ {N : Type 0} (e : Engine N) (name : Option Str) (p : ℕ) where
  calm :
      (ip : Option IpAddr) (ips : List IpAddr) (r : Rule)
      → known e name ip p ≡ some ips
      → unconfirmed e name ip p r ≡ false
  unfolding unconfirmed
  calm ip ips r is = rw is (ground arith)

  first_known-verdict :
      (ip : Option IpAddr) (rs : List Rule)
      → Settled e ip
      → first_known e name ip p rs ≡ verdict e name ip p false rs
  unfolding first_known verdict hits
  first_known-verdict ip [] settled = refl
  first_known-verdict ip (r ∷ rs) (inl (i, has)) =
      let rest = first_known-verdict ip rs (inl (i, has)) in
      let same = known_ip e name ip p i has in ground (arith, calm ip (i ∷ []) r same)
  first_known-verdict ip (r ∷ rs) (inr (no_ip, off)) =
      let rest = first_known-verdict ip rs (inr (no_ip, off)) in
      let same = known_unasked e name ip p no_ip off in ground (arith, calm ip [] r same)

reversed_off :
    {N : Type 0} (e : Engine N) (t : Target) → e.fakeip ≡ none → reversed e t ≡ (t, named t)
unfolding reversed
reversed_off e t off = rw (reversed, fake_off e.fakeip (named t).1 off)

routed_off :
    {N : Type 0} (e : Engine N) (t : Target)
    → e.fakeip ≡ none
    → routed e t ≡ verdict e (named t).0 (named t).1 (port t) false e.rules
unfolding routed
routed_off e t off = ap (λ x. verdict e x.1.0 x.1.1 (port t) false e.rules) (reversed_off e t off)

-- Without a FakeIP pool, and when the target carries an address or there is no resolver, the
-- decision without DNS is the decision with it.
pub resolve_target_agrees :
    {N : Type 0} (e : Engine N) (t : Target)
    → e.fakeip ≡ none
    → Settled e (named t).1
    → resolve_target e t ≡ (route e t).decision
unfolding resolve_target
resolve_target_agrees e t off settled = rw (
  route_verdict e t,
  first_known-verdict e (named t).0 (port t) (named t).1 e.rules settled,
  routed_off e t off,
)
