-- ===== src/Engine/Route.antt =====
-- The walk of `route` against a description without state: the lazy, cached call of the resolver
-- and the early exit do not show.
use jamm_vpn.Base.{
  ℕ, ◌≡◌, refl, ap, sym, ◌⊎◌, inl, inr, Bool, true, false, not, ◌&&◌, ◌||◌, Bool-cases,
  Option-cases, Option, none, some, List, [], ◌∷◌, if◌then◌else◌, any, arith,
}
use jamm_vpn.Base.Text.{Str}
use jamm_vpn.Addr.{IpAddr, Target, port}
use jamm_vpn.Split.Config.{unknown_app}
use jamm_vpn.Routing.Rule.{Rule, RouteAction}
use jamm_vpn.Engine.{Engine, has_ip_crit, unwrap_or, ip_in_rule, non_ip_ok, act_full, act}
use jamm_vpn.Engine.Walk.{
  Walk, start, is_block, lookup, answered, check, walk, concluded, reversed, route,
}

module _ {N : Type 0} (e : Engine N) (name : Option Str) (ip : Option IpAddr) (p : ℕ) where
  -- The addresses of the target: its own, else what the resolver answers (`none`: a failure).
  unfoldable pub known : Option (List IpAddr)
  known = elim ip [
    | some i ↦ some (i ∷ [])
    | none ↦ elim e.resolver [ none ↦ some [] | some resolve ↦ resolve (unwrap_or [] name) ]
  ]

  abbrev pub some_in : Rule → Option (List IpAddr) → Bool
  some_in r none = false
  some_in r (some ips) = any (λ i. ip_in_rule e r i) ips

  abbrev pub failed : Option (List IpAddr) → Bool
  failed none = true
  failed (some ips) = false

  -- The rule accepts the target.
  unfoldable pub hits : Rule → Bool
  hits r = non_ip_ok e r name p unknown_app && (not (has_ip_crit r) || some_in r known)

  -- A blocking rule that only the failed resolution keeps from being decided.
  unfoldable pub unconfirmed : Rule → Bool
  unconfirmed r =
      non_ip_ok e r name p unknown_app && has_ip_crit r && is_block r.action && failed known

  -- The first rule that accepts; without one, block if a block is unconfirmed.
  unfoldable pub verdict : Bool → List Rule → RouteAction
  verdict pending [] = if pending then RouteAction.block else e.default_action
  verdict pending (r ∷ rs) =
      let rest = verdict (pending || unconfirmed r) rs in if hits r then r.action else rest

  abbrev pub Consistent : Walk → Type 0
  Consistent w = (w.resolved ≡ none) ⊎ (w.resolved ≡ some known)

  lookup-known :
      (resolve : Str → Option (List IpAddr)) (w : Walk)
      → ip ≡ none
      → e.resolver ≡ some resolve
      → Consistent w
      → lookup e name ip p resolve w ≡ known
  unfolding lookup known
  lookup-known resolve w no_ip has (inl new) = rw (no_ip, has, new)
  lookup-known resolve w no_ip has (inr old) = rw old

  pub known_ip : (i : IpAddr) → ip ≡ some i → known ≡ some (i ∷ [])
  unfolding known
  known_ip i e1 = rw e1

  pub known_unasked : ip ≡ none → e.resolver ≡ none → known ≡ some []
  unfolding known
  known_unasked e1 e2 = rw (e1, e2)

  abbrev pub Turn : Rule → Walk → Bool × Walk → Type 0
  Turn r w (hit, w') =
      (hit ≡ hits r)
      × Consistent w'
      × (hits r ≡ false → w'.pending_block ≡ (w.pending_block || unconfirmed r))

  answered-Turn :
      (r : Rule) (w : Walk) (a : Option (List IpAddr))
      → a ≡ known
      → non_ip_ok e r name p unknown_app ≡ true
      → has_ip_crit r ≡ true
      → Turn r w (answered e name ip p r a w)
  unfolding answered hits unconfirmed
  answered-Turn r w none same ok1 crit =
      rw (ok1, crit, sym same) (refl, inr refl, λ miss. ground arith)
  answered-Turn r w (some ips) same ok1 crit =
      rw (ok1, crit, sym same) (refl, inr refl, λ miss. ground arith)

  known-Turn :
      (r : Rule) (w : Walk) (ips : List IpAddr)
      → known ≡ some ips
      → Consistent w
      → non_ip_ok e r name p unknown_app ≡ true
      → has_ip_crit r ≡ true
      → Turn r w (any (λ i. ip_in_rule e r i) ips, w)
  unfolding hits unconfirmed
  known-Turn r w ips same con ok1 crit =
      rw (ok1, crit, same) (refl, rw (sym same) con, λ miss. ground arith)

  skipped_Turn :
      (r : Rule) (w : Walk)
      → Consistent w
      → non_ip_ok e r name p unknown_app ≡ false
      → Turn r w (false, w)
  unfolding hits unconfirmed
  skipped_Turn r w con bad = rw bad (refl, con, λ miss. ground arith)

  plain_Turn :
      (r : Rule) (w : Walk)
      → Consistent w
      → non_ip_ok e r name p unknown_app ≡ true
      → has_ip_crit r ≡ false
      → Turn r w (true, w)
  unfolding hits unconfirmed
  plain_Turn r w con good plain = rw (good, plain) (refl, con, λ miss. ground arith)

  pub check_skip :
      (r : Rule) (w : Walk)
      → non_ip_ok e r name p unknown_app ≡ false
      → check e name ip p r w ≡ (false, w)
  unfolding check
  check_skip r w bad = ground arith

  pub check_now :
      (r : Rule) (w : Walk)
      → non_ip_ok e r name p unknown_app ≡ true
      → has_ip_crit r ≡ false
      → check e name ip p r w ≡ (true, w)
  unfolding check
  check_now r w good plain = ground arith

  check_own :
      (r : Rule) (w : Walk)
      → non_ip_ok e r name p unknown_app ≡ true
      → has_ip_crit r ≡ true
      → (i : IpAddr) → ip ≡ some i
      → check e name ip p r w ≡ (any (λ j. ip_in_rule e r j) (i ∷ []), w)
  unfolding check
  check_own r w good crit i has = rw (good, crit, has) (ground arith)

  check_unasked :
      (r : Rule) (w : Walk)
      → non_ip_ok e r name p unknown_app ≡ true
      → has_ip_crit r ≡ true
      → ip ≡ none
      → e.resolver ≡ none
      → check e name ip p r w ≡ (false, w)
  unfolding check
  check_unasked r w good crit no_ip no_res = rw (good, crit, no_ip, no_res)

  check_asked :
      (r : Rule) (w : Walk)
      → non_ip_ok e r name p unknown_app ≡ true
      → has_ip_crit r ≡ true
      → ip ≡ none
      → (resolve : Str → Option (List IpAddr)) → e.resolver ≡ some resolve
      → check e name ip p r w ≡ answered e name ip p r (lookup e name ip p resolve w) w
  unfolding check
  check_asked r w good crit no_ip resolve has = ground arith

  check-Turn : (r : Rule) (w : Walk) → Consistent w → Turn r w (check e name ip p r w)
  check-Turn r w con = elim (Bool-cases (non_ip_ok e r name p unknown_app)) [
    | inr bad ↦ rw (check_skip r w bad) (skipped_Turn r w con bad)
    | inl good ↦ elim (Bool-cases (has_ip_crit r)) [
      | inr plain ↦ rw (check_now r w good plain) (plain_Turn r w con good plain)
      | inl crit ↦ elim (Option-cases ip) [
        | inr (i, has) ↦
            rw (check_own r w good crit i has)
              (known-Turn r w (i ∷ []) (known_ip i has) con good crit)
        | inl no_ip ↦ elim (Option-cases e.resolver) [
          | inl no_res ↦
              rw (check_unasked r w good crit no_ip no_res)
                (known-Turn r w [] (known_unasked no_ip no_res) con good crit)
          | inr (resolve, has) ↦ rw (check_asked r w good crit no_ip resolve has) (
              answered-Turn r w (lookup e name ip p resolve w)
                (lookup-known resolve w no_ip has con) good crit)
        ]
      ]
    ]
  ]

  pub walk_end : (w : Walk) → walk e name ip p [] w ≡ (none, w)
  unfolding walk
  walk_end w = refl

  pub walk_hit :
      (r : Rule) (rs : List Rule) (w : Walk)
      → (check e name ip p r w).0 ≡ true
      → walk e name ip p (r ∷ rs) w ≡ (some r.action, (check e name ip p r w).1)
  unfolding walk
  walk_hit r rs w hit = ground (arith, hit)

  pub walk_miss :
      (r : Rule) (rs : List Rule) (w : Walk)
      → (check e name ip p r w).0 ≡ false
      → walk e name ip p (r ∷ rs) w ≡ walk e name ip p rs (check e name ip p r w).1
  unfolding walk
  walk_miss r rs w miss = ground (arith, miss)

  ended :
      (w : Walk)
      → concluded e (none, w) ≡ (if w.pending_block then RouteAction.block else e.default_action)
  unfolding concluded
  ended w = refl

  stopped : (a : RouteAction) (w : Walk) → concluded e (some a, w) ≡ a
  unfolding concluded
  stopped a w = refl

  pub walk-verdict :
      (rs : List Rule) (w : Walk)
      → Consistent w
      → concluded e (walk e name ip p rs w) ≡ verdict w.pending_block rs
  unfolding verdict
  walk-verdict [] w con = rw (walk_end w) (ended w)
  walk-verdict (r ∷ rs) w con =
      let (hit, con', pend) = check-Turn r w con in
      let again = walk-verdict rs (check e name ip p r w).1 con' in
      elim (Bool-cases (hits r)) [
        | inl found ↦
            rw (walk_hit r rs w (rw hit found), found) (stopped r.action (check e name ip p r w).1)
        | inr miss ↦ rw (walk_miss r rs w (rw hit miss), miss, sym (pend miss)) again
      ]

module _ {N : Type 0} (e : Engine N) where
  -- The decision of `route` at the domain, the address and the port it routes by.
  unfoldable pub routed : Target → RouteAction
  routed t = let (effective, (name, ip)) = reversed e t in verdict e name ip (port t) false e.rules

-- The decision of `route` is that of the first rule that accepts the effective target, a rule
-- with an IP criterion by the target's own address or else by the answer of one resolution; when
-- no rule accepts and a blocking rule stayed undecided because the resolution failed, it is to
-- block; else it is the default action's.
pub route_verdict :
    {N : Type 0} (e : Engine N) (t : Target) → (route e t).decision ≡ act e (routed e t)
unfolding route routed act
route_verdict e t =
    let (effective, (name, ip)) = reversed e t in
    ap (λ a. (act_full e a).decision) (walk-verdict e name ip (port t) e.rules start (inl refl))
