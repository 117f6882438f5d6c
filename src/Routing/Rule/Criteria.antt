-- ===== src/Routing/Rule/Criteria.antt =====
-- The criteria of a rule: alternatives within a category, all categories together.
use jamm_vpn.Base.{
  ◌≡◌, refl, ◌⊎◌, ◌↔◌, Bool, true, false, not, ◌&&◌, ◌||◌, Option, none, some, List, [], ◌∷◌, ◌==◌,
  arith, any, is_empty, if◌then◌else◌,
}
use jamm_vpn.Split.Cidr
use jamm_vpn.Split.Config
use jamm_vpn.Routing.Domain
use jamm_vpn.Routing.Rule.{Rule, RouteRequest, is_some_and, matches, matches_sans_ip}

-- Some element has the property.
abbrev pub Some {ℓ} : {A : Type ℓ} → (A → Type 0) → List A → Type 0
Some P [] = ⊥
Some P (x ∷ xs) = P x ⊎ Some P xs

-- A category restricts nothing when it is empty; else the request must offer a value that one
-- of its entries accepts.
abbrev pub Category {ℓ κ} :
    {A : Type ℓ} {V : Type κ} → (A → V → Type 0) → List A → Option V → Type 0
Category P [] o = Unit
Category P (x ∷ xs) none = ⊥
Category P (x ∷ xs) (some v) = Some (λ a. P a v) (x ∷ xs)

any_iff {ℓ} :
    {A : Type ℓ} (p : A → Bool) (xs : List A) → (any p xs ≡ true) ↔ Some (λ a. p a ≡ true) xs
any_iff p [] = (λ e. cc, λ d. absurd d)
any_iff p (x ∷ xs) =
    let (to, from) = any_iff p xs in (λ e. ground (arith, to), λ d. ground (arith, from))

Category-iff {ℓ κ} :
    {A : Type ℓ} {V : Type κ} (p : A → V → Bool) (xs : List A) (o : Option V)
    → ((not (is_empty xs) && not (is_some_and (λ v. any (λ a. p a v) xs) o)) ≡ false)
      ↔ Category (λ a v. p a v ≡ true) xs o
Category-iff p [] o = (λ e. tt, λ d. refl)
Category-iff p (x ∷ xs) none = (λ e. cc, λ d. absurd d)
Category-iff p (x ∷ xs) (some v) =
    let (to, from) = any_iff (λ a. p a v) (x ∷ xs) in (λ e. to (not_false e), λ d. rw (from d))
  where
    not_false : {b : Bool} → not b ≡ false → b ≡ true
    not_false {b} e = ground arith

no_geo_iff :
    (r : Rule)
    → ((not (is_empty r.geosite) || not (is_empty r.geoip)) ≡ false)
      ↔ ((r.geosite ≡ []) × (r.geoip ≡ []))
no_geo_iff r = (λ e. ground arith, λ d. ground arith)

-- What a rule asks of the request, category by category.
module _ (r : Rule) (req : RouteRequest) where
  abbrev pub DomainsHold : Type 0
  DomainsHold = Category (λ d h. Domain.matches d h ≡ true) r.domains req.domain

  abbrev pub CidrsHold : Type 0
  CidrsHold = Category (λ c ip. Cidr.contains c ip ≡ true) r.ip_cidrs req.ip

  abbrev pub ProcessesHold : Type 0
  ProcessesHold = Category (λ m app. Config.matches m app ≡ true) r.processes (some req.app)

  abbrev pub PortsHold : Type 0
  PortsHold = Category (λ p q. (p == q) ≡ true) r.ports (some req.port)

  -- All criteria but those on the address.
  abbrev pub OthersHold : Type 0
  OthersHold = (r.geosite ≡ []) × (r.geoip ≡ []) × DomainsHold × ProcessesHold × PortsHold

-- A ladder of early returns passes when every test fails.
ladder4_iff :
    (a b c d : Bool)
    → ((if a then false else if b then false else if c then false else if d then false else true)
        ≡ true)
      ↔ ((a ≡ false) × (b ≡ false) × (c ≡ false) × (d ≡ false))
ladder4_iff a b c d = (λ e. ground arith, λ h. ground arith)

ladder5_iff :
    (a b c d f : Bool)
    → ((if a
          then false
          else if b
          then false
          else if c
          then false
          else if d
          then false
          else if f
          then false
          else true)
        ≡ true)
      ↔ ((a ≡ false) × (b ≡ false) × (c ≡ false) × (d ≡ false) × (f ≡ false))
ladder5_iff a b c d f = (λ e. ground arith, λ h. ground arith)

-- A rule matches exactly when it has no geo criterion and every category that is not empty has an
-- entry that accepts the request; without regard to the address, the same but for `ip_cidrs`.
pub rule_matches_iff :
    (r : Rule) (req : RouteRequest)
    → ((matches r req ≡ true) ↔ (OthersHold r req × CidrsHold r req))
      × ((matches_sans_ip r req ≡ true) ↔ OthersHold r req)
unfolding matches matches_sans_ip
rule_matches_iff r req =
    let geo = no_geo_iff r in
    let dom = Category-iff Domain.matches r.domains req.domain in
    let cid = Category-iff Cidr.contains r.ip_cidrs req.ip in
    let pro = Category-iff Config.matches r.processes (some req.app) in
    let por = Category-iff ◌==◌ r.ports (some req.port) in
    let whole = ladder5_iff _ _ _ _ _ in
    let sans = ladder4_iff _ _ _ _ in
    (
      (
        λ e.
            let (g, d, c, p, q) = whole.0 e in
            (((geo.0 g).0, (geo.0 g).1, dom.0 d, pro.0 p, por.0 q), cid.0 c),
        λ h.
            whole.1
              (geo.1 (h.0.0, h.0.1), dom.1 (h.0.2), cid.1 (h.1), pro.1 (h.0.3), por.1 (h.0.4)),
      ),
      (
        λ e. let (g, d, p, q) = sans.0 e in ((geo.0 g).0, (geo.0 g).1, dom.0 d, pro.0 p, por.0 q),
        λ h. sans.1 (geo.1 (h.0, h.1), dom.1 (h.2), pro.1 (h.3), por.1 (h.4)),
      ),
    )
