-- ===== src/Engine.antt =====
-- crates/net/src/engine.rs: the tunnel's engine, from a connection's target to an outbound.
-- `N` stands for the outbounds other than `Direct` (crates/net/src/outbound.rs): the engine only
-- stores and hands them on. `resolver` is what one call of the DNS resolver answers, `none` an error.
pub mod Walk
pub mod Route
pub mod Dns
pub mod Reversal
use jamm_vpn.Base.{
  ℕ, ◌≡◌, Bool, true, false, not, ◌&&◌, ◌||◌, Option, none, some, List, [], ◌∷◌, ◌==◌,
  if◌then◌else◌, is_empty, any,
}
use jamm_vpn.Base.Text.{Str, str_eq}
use jamm_vpn.Base.Maps.{Map}
use jamm_vpn.Addr.{IpAddr, Target, domain, socket, port}
use jamm_vpn.Addr.Parse.{parse_ip}
use jamm_vpn.Split.Cidr
use jamm_vpn.Split.Config
use jamm_vpn.Split.Config.{ConnApp, unknown_app}
use jamm_vpn.Routing.Domain
use jamm_vpn.Routing.Rule.{Rule, RouteAction, is_some_and}
use jamm_vpn.FakeIp.{FakeIp, domain_of}
use jamm_vpn.Geo.Site
use jamm_vpn.Geo.Site.{GeoSiteDb}
use jamm_vpn.Geo.Ip
use jamm_vpn.Geo.Ip.{GeoIpDb}

pub data Outbound (N : Type 0) : Type 0 where
  direct : Outbound N
  node : N → Outbound N

pub data Decision (N : Type 0) : Type 0 where
  connect : Outbound N → Decision N
  block : Decision N

pub record Routed (N : Type 0) : Type 0 where
  pub decision : Decision N
  pub target : Target
  pub chosen_node : Option Str
  pub fallback : Option (Outbound N)
  pub fallback_name : Option Str

pub record Engine (N : Type 0) : Type 0 where
  pub outbounds : Map Str (Outbound N)
  pub default_proxy : Option Str
  pub rules : List Rule
  pub default_action : RouteAction
  pub resolver : Option (Str → Option (List IpAddr))
  pub fakeip : Option FakeIp
  pub geosite : Option GeoSiteDb
  pub geoip : Option GeoIpDb

unfoldable pub has_ip_crit : Rule → Bool
has_ip_crit rule = not (is_empty rule.ip_cidrs) || not (is_empty rule.geoip)

-- `strip_suffix(c)` of a text.
strip_suffix : ℕ → Str → Option Str
strip_suffix c [] = none
strip_suffix c (x ∷ xs) =
    let rest = strip_suffix c xs in
    if is_empty xs
    then (if x == c then some [] else none)
    else elim rest [ none ↦ none | some r ↦ some (x ∷ r) ]

strip_prefix : ℕ → Str → Option Str
strip_prefix c [] = none
strip_prefix c (x ∷ xs) = if x == c then some xs else none

abbrev pub unwrap_or : Str → Option Str → Str
unwrap_or d none = d
unwrap_or d (some s) = s

unfoldable pub literal_ip : Str → Option IpAddr
unfolding strip_suffix strip_prefix
literal_ip host =
    let h = unwrap_or host (strip_suffix b'.' host) in
    let inner : Option Str = elim (strip_prefix b'[' h) [
      | none ↦ none
      | some s ↦ strip_suffix b']' s
    ] in
    parse_ip (unwrap_or h inner)

-- `(domain, ip)` of a target.
unfoldable pub named : Target → Option Str × Option IpAddr
named (domain host p) = (some host, literal_ip host)
named (socket ip p) = (none, some ip)

module _ {N : Type 0} (e : Engine N) where
  unfoldable pub domain_in_rule : Rule → Str → Bool
  domain_in_rule rule host =
      any (λ d. Domain.matches d host) rule.domains
      || any (λ cat. is_some_and (λ db. Site.matches db cat host) e.geosite) rule.geosite

  unfoldable pub ip_in_rule : Rule → IpAddr → Bool
  ip_in_rule rule ip =
      any (λ c. Cidr.contains c ip) rule.ip_cidrs
      || any (λ cc'. is_some_and (λ db. Ip.matches db cc' ip) e.geoip) rule.geoip

  unfoldable pub non_ip_ok : Rule → Option Str → ℕ → ConnApp → Bool
  non_ip_ok rule name p app =
      if (not (is_empty rule.domains) || not (is_empty rule.geosite))
        && not (is_some_and (domain_in_rule rule) name)
      then false
      else if not (is_empty rule.ports) && not (any (λ q. q == p) rule.ports)
      then false
      else if not (is_empty rule.processes) && not (any (λ m. Config.matches m app) rule.processes)
      then false
      else true

  unfoldable pub act_full : RouteAction → record {
    decision : Decision N;
    chosen : Option Str;
    fallback : Option (Outbound N);
    name : Option Str;
  }
  act_full RouteAction.direct = record {
    decision = connect direct;
    chosen = none;
    fallback = none;
    name = none;
  }
  act_full RouteAction.block = record {
    decision = block;
    chosen = none;
    fallback = none;
    name = none;
  }
  act_full (RouteAction.proxy tag) =
      let key : Option Str = elim tag [ some t ↦ some t | none ↦ e.default_proxy ] in
      let found : Option (Outbound N) = elim key [ none ↦ none | some k ↦ e.outbounds k ] in
      let decision : Decision N = elim found [ none ↦ block | some ob ↦ connect ob ] in
      let plain : record {
        decision : Decision N;
        chosen : Option Str;
        fallback : Option (Outbound N);
        name : Option Str;
      } =
        record { decision = decision; chosen = none; fallback = none; name = none } in
      elim tag [
        | none ↦ plain
        | some t ↦ elim e.default_proxy [
          | none ↦ plain
          | some d ↦ if str_eq t d then plain else record {
            decision = decision;
            chosen = some t;
            fallback = e.outbounds d;
            name = some d;
          }
        ]
      ]

  unfoldable pub act : RouteAction → Decision N
  act a = (act_full a).decision
