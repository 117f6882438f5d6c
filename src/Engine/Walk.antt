-- ===== src/Engine/Walk.antt =====
-- crates/net/src/engine.rs: the walk over the rules, `route` and `resolve_target`.
-- `resolved` of a walk is the local of `route`: not asked yet, the addresses, or a failure.
use jamm_vpn.Base.{
  ℕ, Bool, true, false, not, ◌||◌, Option, none, some, List, [], ◌∷◌, if◌then◌else◌, any,
}
use jamm_vpn.Base.Text.{Str}
use jamm_vpn.Addr.{IpAddr, Target, domain, port}
use jamm_vpn.Split.Config.{unknown_app}
use jamm_vpn.Routing.Rule.{Rule, RouteAction}
use jamm_vpn.FakeIp.{FakeIp, domain_of}
use jamm_vpn.Engine.{
  Engine, Decision, Routed, has_ip_crit, unwrap_or, named, ip_in_rule, non_ip_ok, act_full, act,
}

pub record Walk : Type 0 where
  pub resolved : Option (Option (List IpAddr))
  pub pending_block : Bool

abbrev pub start : Walk
start = record { resolved = none; pending_block = false }

abbrev pub is_block : RouteAction → Bool
is_block RouteAction.block = true
is_block RouteAction.direct = false
is_block (RouteAction.proxy tag) = false

module _ {N : Type 0} (e : Engine N) (name : Option Str) (ip : Option IpAddr) (p : ℕ) where
  -- The cached answer, or that of the one call of the resolver.
  unfoldable pub lookup : (Str → Option (List IpAddr)) → Walk → Option (List IpAddr)
  lookup resolve w = elim w.resolved [ some r ↦ r | none ↦ resolve (unwrap_or [] name) ]

  unfoldable pub answered : Rule → Option (List IpAddr) → Walk → Bool × Walk
  answered rule (some ips) w = (
    any (λ i. ip_in_rule e rule i) ips,
    record { resolved = some (some ips); pending_block = w.pending_block },
  )
  answered rule none w = (
    false,
    record { resolved = some none; pending_block = w.pending_block || is_block rule.action },
  )

  -- One turn of the loop: whether the rule matched.
  unfoldable pub check : Rule → Walk → Bool × Walk
  check rule w =
      if not (non_ip_ok e rule name p unknown_app)
      then (false, w)
      else if not (has_ip_crit rule)
      then (true, w)
      else elim ip [
        | some i ↦ (ip_in_rule e rule i, w)
        | none ↦ elim e.resolver [
          | none ↦ (false, w)
          | some resolve ↦ answered rule (lookup resolve w) w
        ]
      ]

  unfoldable pub walk : List Rule → Walk → Option RouteAction × Walk
  walk [] w = (none, w)
  walk (r ∷ rs) w =
      let (hit, w') = check r w in elim hit [ true ↦ (some r.action, w') | false ↦ walk rs w' ]

-- The domain behind an address of the FakeIP pool.
unfoldable pub fake_domain : Option FakeIp → Option IpAddr → Option Str
fake_domain none ip = none
fake_domain (some fi) none = none
fake_domain (some fi) (some i) = domain_of fi i

module _ {N : Type 0} (e : Engine N) where
  -- The action after the loop.
  unfoldable pub concluded : Option RouteAction × Walk → RouteAction
  concluded (some a, w) = a
  concluded (none, w) = if w.pending_block then RouteAction.block else e.default_action

  -- The FakeIP reversal: the effective target, its domain and its address.
  unfoldable pub reversed : Target → Target × (Option Str × Option IpAddr)
  reversed t =
      let (name, ip) = named t in
      elim (fake_domain e.fakeip ip) [
        | none ↦ (t, (name, ip))
        | some d ↦ (domain d (port t), (some d, none))
      ]

  unfoldable pub route : Target → Routed N
  route t =
      let (effective, (name, ip)) = reversed t in
      let full = act_full e (concluded (walk e name ip (port t) e.rules start)) in
      record {
        decision = full.decision;
        target = effective;
        chosen_node = full.chosen;
        fallback = full.fallback;
        fallback_name = full.name;
      }

  -- The loop of `resolve_target`, without a resolver.
  unfoldable pub first_known : Option Str → Option IpAddr → ℕ → List Rule → RouteAction
  first_known name ip p [] = e.default_action
  first_known name ip p (r ∷ rs) =
      let rest = first_known name ip p rs in
      if not (non_ip_ok e r name p unknown_app)
      then rest
      else if not (has_ip_crit r)
      then r.action
      else elim ip [ none ↦ rest | some i ↦ if ip_in_rule e r i then r.action else rest ]

  unfoldable pub resolve_target : Target → Decision N
  resolve_target t = let (name, ip) = named t in act e (first_known name ip (port t) e.rules)
