-- ===== src/Tests/Routes.antt =====
-- The engine at concrete rules: a block by address, with and without a resolver.
use jamm_vpn.Base.{◌*◌, ◌+◌, ◌^◌, ◌≡◌, refl, inl, inr, true, Option, none, some, List, [], ◌∷◌}
use jamm_vpn.Base.Text.{Str, bytes}
use jamm_vpn.Addr.{IpAddr, v4, Target, domain, socket}
use jamm_vpn.Split.Cidr.{IpCidr}
use jamm_vpn.Routing.Rule
use jamm_vpn.Routing.Rule.{Rule, RouteAction}
use jamm_vpn.FakeIp.{FakeIp, domain_of}
use jamm_vpn.Engine.{
  Engine, Outbound, Decision, connect, block, direct, has_ip_crit, literal_ip, non_ip_ok, act,
  act_full, named,
}
use jamm_vpn.Engine.Walk.{start, walk, route, resolve_target}
use jamm_vpn.Engine.Route.{routed, route_verdict}
use jamm_vpn.Engine.Dns.{route_fails_closed}
use jamm_vpn.Engine.Reversal.{route_transparent}

abbrev site : Str
site = bytes "example.com"

abbrev blocked_net : IpCidr
blocked_net = record { base = v4 (10 * 2 ^ 24); prefix = 8 }

-- Block a network, by the address only.
abbrev by_address : Rule
by_address = record Rule.default { ip_cidrs = blocked_net ∷ []; action = RouteAction.block }

-- Everything else goes directly; nothing is a proxy. `Unit` stands for the other outbounds.
abbrev plain_engine : Engine Unit
plain_engine = record {
  outbounds = λ _. none;
  default_proxy = none;
  rules = by_address ∷ [];
  default_action = RouteAction.direct;
  resolver = none;
  fakeip = none;
  geosite = none;
  geoip = none;
}

abbrev no_answer : Str → Option (List IpAddr)
no_answer _ = none

abbrev failing_engine : Engine Unit
failing_engine = record plain_engine { resolver = some no_answer }

abbrev pool : FakeIp
pool = record {
  base = (198 * 256 + 18) * 2 ^ 16;
  count = 2 ^ 17;
  cursor = 2;
  dom_to_ip = λ _. none;
  ip_to_dom = λ _. some site;
}

abbrev fake_engine : Engine Unit
fake_engine = record failing_engine { fakeip = some pool }

abbrev fake_address : IpAddr
fake_address = v4 ((198 * 256 + 18) * 2 ^ 16 + 1)

site_plain : literal_ip site ≡ none
unfolding literal_ip jamm_vpn.Addr.Parse.parse_ip
site_plain = refl

route_verdict_example :
    (route failing_engine (domain site 443)).decision
    ≡ act failing_engine (routed failing_engine (domain site 443))
route_verdict_example = route_verdict failing_engine (domain site 443)

others_hold :
    non_ip_ok failing_engine by_address (some site) 443 jamm_vpn.Split.Config.unknown_app ≡ true
unfolding non_ip_ok
others_hold = refl

has_address : has_ip_crit by_address ≡ true
unfolding has_ip_crit
has_address = refl

route_fails_closed_example : (route failing_engine (domain site 443)).decision ≡ block
route_fails_closed_example =
    route_fails_closed failing_engine site 443 no_answer site_plain refl refl (inr has_address, tt)
      (inl (others_hold, has_address, refl))

knows : domain_of pool fake_address ≡ some site
unfolding domain_of
knows = refl

route_transparent_example :
    route fake_engine (socket fake_address 443) ≡ route fake_engine (domain site 443)
route_transparent_example =
    route_transparent fake_engine pool fake_address site 443 refl knows site_plain

settled : (named (socket (v4 (10 * 2 ^ 24)) 443)).1 ≡ some (v4 (10 * 2 ^ 24))
unfolding named
settled = refl

-- Without a resolver's answer the two differ: the walk without DNS lets the domain pass.
fails_open : resolve_target failing_engine (domain site 443) ≡ connect direct
unfolding resolve_target jamm_vpn.Engine.Walk.first_known named non_ip_ok has_ip_crit literal_ip
    jamm_vpn.Addr.Parse.parse_ip jamm_vpn.Addr.port act act_full
fails_open = refl
