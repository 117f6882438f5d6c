-- ===== src/Split/Engine.antt =====
-- crates/core/src/split/engine.rs: the priority ladder that decides a connection.
pub mod Local
pub mod Ladder
use jamm_vpn.Base.{
  ℕ, ◌≡◌, Bool, true, false, ◌||◌, Option, none, some, List, [], ◌∷◌, if◌then◌else◌, any,
}
use jamm_vpn.Base.Text.{Str, rsplit_once}
use jamm_vpn.Error.{ok, err}
use jamm_vpn.Addr.{IpAddr, ip_eq}
use jamm_vpn.Addr.Parse.{parse_ip}
use jamm_vpn.Split.Cidr.{parse, contains}
use jamm_vpn.Split.Config.{
  SplitMode, inclusive, exclusive, ConnApp, SplitConfig, app_selected, always_bypass_cidrs,
}

pub data Action : Type 0 where
  direct tunnel block : Action

pub record ConnRequest : Type 0 where
  pub app : ConnApp
  pub dst_ip : IpAddr
  pub dst_port : ℕ

pub data Route : Type 0 where
  direct tunnel : Route

-- The texts that do not parse are left out.
unfoldable pub cidrs_contain : List Str → IpAddr → Bool
cidrs_contain [] ip = false
cidrs_contain (c ∷ cs) ip =
    let here : Bool = elim (parse c) [ ok net ↦ contains net ip | err _ ↦ false ] in
    here || cidrs_contain cs ip

unfoldable pub endpoint_ip : Str → Option IpAddr
unfolding parse_ip rsplit_once
endpoint_ip e = elim (parse_ip e) [
  | some ip ↦ some ip
  | none ↦ elim (rsplit_once b':' e) [ none ↦ none | some (host, _) ↦ parse_ip host ]
]

-- `endpoint_ip(e) == Some(ip)`
unfoldable pub is_endpoint : IpAddr → Str → Bool
is_endpoint ip e = elim (endpoint_ip e) [ none ↦ false | some a ↦ ip_eq a ip ]

-- Steps 4 and 5 of `decide`.
unfoldable pub intended : ConnRequest → SplitConfig → Route
intended req cfg =
    if cidrs_contain cfg.force_tunnel_cidrs req.dst_ip then tunnel else elim cfg.mode [
      | inclusive ↦ if app_selected cfg req.app then tunnel else direct
      | exclusive ↦ if app_selected cfg req.app then direct else tunnel
    ]

-- Step 6 of `decide`.
unfoldable pub enforce : Route → SplitConfig → Bool → Action
enforce direct cfg tunnel_up = direct
enforce tunnel cfg tunnel_up =
    if tunnel_up then tunnel else if cfg.kill_switch then block else direct

unfoldable pub decide : ConnRequest → SplitConfig → Bool → Action
decide req cfg tunnel_up =
    if any (is_endpoint req.dst_ip) cfg.server_endpoints
    then direct
    else if cidrs_contain always_bypass_cidrs req.dst_ip
    then direct
    else if cidrs_contain cfg.force_direct_cidrs req.dst_ip
    then direct
    else enforce (intended req cfg) cfg tunnel_up
