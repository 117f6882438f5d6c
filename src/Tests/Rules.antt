-- ===== src/Tests/Rules.antt =====
-- Split tunnelling and the rules on domains and addresses, at concrete values.
use jamm_vpn.Base.{
  ℕ, ◌*◌, ◌+◌, ◌^◌, ◌≡◌, refl, ◌≢◌, ◌⊎◌, inl, inr, ◌↔◌, ◌++◌, ◌≤◌, Bool, true, false, Option, none,
  some, List, [], ◌∷◌, arith,
}
use jamm_vpn.Base.Text.{
  Str, bytes, to_ascii_lowercase, trim_end_matches, trim_start_matches, str_eq, ends_with,
}
use jamm_vpn.Error.{ok}
use jamm_vpn.Addr.{IpAddr, v4}
use jamm_vpn.Split.Cidr.{IpCidr, contains, parse}
use jamm_vpn.Split.Cidr.Blocks.{InBlock, contains_iff}
use jamm_vpn.Split.Config.{
  AppMatcher, ConnApp, matches, SplitConfig, default, unknown_app, always_bypass_cidrs, inclusive,
  exclusive,
}
use jamm_vpn.Split.Engine.{ConnRequest, Action, decide, cidrs_contain, is_endpoint}
use jamm_vpn.Split.Engine.Local.{IsLocal}
use jamm_vpn.Split.Engine.Ladder.{IsExcepted, WantsTunnel, decide_iff}
use jamm_vpn.Routing.Domain.{DomainRule, suffix}
use jamm_vpn.Routing.Rule
use jamm_vpn.Routing.Rule.{Rule, RouteRequest, RouteAction, matches_sans_ip}
use jamm_vpn.Routing.Rule.Criteria.{OthersHold, CidrsHold, rule_matches_iff}

-- 10.0.0.0/8, 10.1.2.3 and 8.8.8.8.
abbrev ten : IpCidr
ten = record { base = v4 (10 * 2 ^ 24); prefix = 8 }

abbrev inside : IpAddr
inside = v4 (10 * 2 ^ 24 + 1 * 2 ^ 16 + 2 * 2 ^ 8 + 3)

abbrev outside : IpAddr
outside = v4 (8 * 2 ^ 24 + 8 * 2 ^ 16 + 8 * 2 ^ 8 + 8)

ten_parsed : parse (bytes "10.0.0.0/8") ≡ ok ten
unfolding parse
ten_parsed = refl

contains_iff_example : (contains ten inside ≡ true) ↔ InBlock ten inside
contains_iff_example = contains_iff ten inside (omega arith, omega arith) (omega arith)

abbrev chrome : ConnApp
chrome = record { exe_path = some (bytes "C:\\Apps\\Chrome.EXE"); process_name = none }

abbrev by_name : AppMatcher
by_name = AppMatcher.process_name (bytes "chrome.exe")

by_name_test : matches by_name chrome ≡ true
unfolding matches jamm_vpn.Base.Text.eq_ignore_ascii_case
by_name_test = refl

abbrev guarded : SplitConfig
guarded = record default { apps = by_name ∷ []; kill_switch = true }

abbrev browsing : ConnRequest
browsing = record { app = chrome; dst_ip = outside; dst_port = 443 }

down_test : decide browsing guarded false ≡ Action.block
unfolding decide cidrs_contain parse contains jamm_vpn.Split.Engine.intended
    jamm_vpn.Split.Engine.enforce jamm_vpn.Split.Config.app_selected
    jamm_vpn.Base.Text.eq_ignore_ascii_case
down_test = refl

decide_iff_example :
    ((decide browsing guarded false ≡ Action.tunnel)
      ↔ ((¬ (IsExcepted browsing guarded)) × WantsTunnel browsing guarded × (false ≡ true)))
    × ((decide browsing guarded false ≡ Action.block) ↔ (
        (¬ (IsExcepted browsing guarded))
        × WantsTunnel browsing guarded
        × (false ≡ false)
        × (guarded.kill_switch ≡ true)))
decide_iff_example = decide_iff browsing guarded false (omega arith)

not-IsLocal : ¬ (IsLocal outside)
not-IsLocal d = ground arith

not-IsExcepted : ¬ (IsExcepted browsing guarded)
unfolding cidrs_contain
not-IsExcepted (inl h) = cc
not-IsExcepted (inr (inl h)) = not-IsLocal h
not-IsExcepted (inr (inr h)) = cc

nothing_forced : cidrs_contain guarded.force_tunnel_cidrs browsing.dst_ip ≡ false
unfolding cidrs_contain
nothing_forced = refl

abbrev rule_test : DomainRule
rule_test = suffix (bytes ".Example.com")

abbrev host_test : Str
host_test = bytes "API.example.COM."

abbrev blocks_ten : Rule
blocks_ten = record Rule.default {
  domains = rule_test ∷ [];
  ip_cidrs = ten ∷ [];
  action = RouteAction.block;
}

abbrev asked : RouteRequest
asked = record { domain = some host_test; ip = some inside; port = 443; app = unknown_app }

rule_matches_iff_example :
    ((Rule.matches blocks_ten asked ≡ true)
      ↔ (OthersHold blocks_ten asked × CidrsHold blocks_ten asked))
    × ((matches_sans_ip blocks_ten asked ≡ true) ↔ OthersHold blocks_ten asked)
rule_matches_iff_example = rule_matches_iff blocks_ten asked
