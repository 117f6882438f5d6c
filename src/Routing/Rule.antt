-- ===== src/Routing/Rule.antt =====
-- crates/core/src/routing/rule.rs and engine.rs: rules, their matching, and the first match.
pub mod Criteria
use jamm_vpn.Base.{
  ℕ, ◌≡◌, Bool, true, false, not, ◌&&◌, ◌||◌, Option, none, some, List, [], ◌∷◌, ◌==◌,
  if◌then◌else◌, any, is_empty,
}
use jamm_vpn.Base.Text.{Str}
use jamm_vpn.Addr.{IpAddr}
use jamm_vpn.Split.Cidr
use jamm_vpn.Split.Cidr.{IpCidr}
use jamm_vpn.Split.Config
use jamm_vpn.Split.Config.{AppMatcher, ConnApp}
use jamm_vpn.Routing.Domain
use jamm_vpn.Routing.Domain.{DomainRule}

pub data RouteAction : Type 0 where
  direct : RouteAction
  proxy : Option Str → RouteAction
  block : RouteAction

pub record Rule : Type 0 where
  pub domains : List DomainRule
  pub ip_cidrs : List IpCidr
  pub processes : List AppMatcher
  pub ports : List ℕ
  pub geosite : List Str
  pub geoip : List Str
  pub action : RouteAction

-- `Rule::default()`: no criterion.
abbrev pub default : Rule
default = record {
  domains = [];
  ip_cidrs = [];
  processes = [];
  ports = [];
  geosite = [];
  geoip = [];
  action = direct;
}

pub record RouteRequest : Type 0 where
  pub domain : Option Str
  pub ip : Option IpAddr
  pub port : ℕ
  pub app : ConnApp

-- `match o { Some(a) if p(a) => {} _ => return false }`
abbrev pub is_some_and {ℓ} : {A : Type ℓ} → (A → Bool) → Option A → Bool
is_some_and p none = false
is_some_and p (some a) = p a

unfoldable pub matches : Rule → RouteRequest → Bool
matches r req =
    if not (is_empty r.geosite) || not (is_empty r.geoip)
    then false
    else if not (is_empty r.domains)
        && not (is_some_and (λ h. any (λ d. Domain.matches d h) r.domains) req.domain)
    then false
    else if not (is_empty r.ip_cidrs)
        && not (is_some_and (λ ip. any (λ c. Cidr.contains c ip) r.ip_cidrs) req.ip)
    then false
    else if not (is_empty r.processes) && not (any (λ m. Config.matches m req.app) r.processes)
    then false
    else if not (is_empty r.ports) && not (any (λ p. p == req.port) r.ports)
    then false
    else true

unfoldable pub matches_sans_ip : Rule → RouteRequest → Bool
matches_sans_ip r req =
    if not (is_empty r.geosite) || not (is_empty r.geoip)
    then false
    else if not (is_empty r.domains)
        && not (is_some_and (λ h. any (λ d. Domain.matches d h) r.domains) req.domain)
    then false
    else if not (is_empty r.processes) && not (any (λ m. Config.matches m req.app) r.processes)
    then false
    else if not (is_empty r.ports) && not (any (λ p. p == req.port) r.ports)
    then false
    else true

-- `routing::evaluate`
unfoldable pub evaluate : List Rule → RouteRequest → RouteAction → RouteAction
evaluate [] req default_action = default_action
evaluate (r ∷ rules) req default_action =
    if matches r req then r.action else evaluate rules req default_action
