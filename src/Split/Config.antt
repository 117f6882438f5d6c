-- ===== src/Split/Config.antt =====
-- crates/core/src/split/config.rs: which applications the split is about.
pub mod Case
use jamm_vpn.Base.{
  ℕ, ◌≡◌, Bool, true, false, ◌||◌, Option, none, some, List, [], ◌∷◌, ◌==◌, if◌then◌else◌, any,
}
use jamm_vpn.Base.Text.{Str, bytes, eq_ignore_ascii_case}

pub data SplitMode : Type 0 where
  inclusive exclusive : SplitMode

pub data SplitDriver : Type 0 where
  winpk_filter win_divert : SplitDriver

pub data AppMatcher : Type 0 where
  exe_path process_name : Str → AppMatcher

pub record ConnApp : Type 0 where
  pub exe_path : Option Str
  pub process_name : Option Str

-- `ConnApp::default()`: the program behind the connection is not known.
abbrev pub unknown_app : ConnApp
unknown_app = record { exe_path = none; process_name = none }

is_separator : ℕ → Bool
is_separator c = c == b'\\' || c == b'/'

-- `path.rsplit(['\\', '/']).next()`: what stands behind the last separator.
file_name_from : Str → Option Str
unfolding is_separator
file_name_from [] = none
file_name_from (c ∷ cs) = elim (file_name_from cs) [
  | some name ↦ some name
  | none ↦ if is_separator c then some cs else none
]

unfoldable pub file_name : Str → Str
unfolding file_name_from
file_name path = elim (file_name_from path) [ some name ↦ name | none ↦ path ]

unfoldable pub effective_name : ConnApp → Option Str
unfolding file_name
effective_name app = elim app.process_name [
  | some n ↦ some n
  | none ↦ elim app.exe_path [ none ↦ none | some p ↦ some (file_name p) ]
]

-- `is_some_and(|x| x.eq_ignore_ascii_case(s))`
unfoldable pub is_some_like : Str → Option Str → Bool
is_some_like s none = false
is_some_like s (some x) = eq_ignore_ascii_case x s

unfoldable pub matches : AppMatcher → ConnApp → Bool
unfolding is_some_like effective_name
matches (AppMatcher.exe_path p) app = is_some_like p app.exe_path
matches (AppMatcher.process_name n) app = is_some_like n (effective_name app)

pub record SplitConfig : Type 0 where
  pub mode : SplitMode
  pub apps : List AppMatcher
  pub inherit_children : Bool
  pub kill_switch : Bool
  pub force_direct_cidrs : List Str
  pub force_tunnel_cidrs : List Str
  pub server_endpoints : List Str
  pub driver : SplitDriver

-- `SplitConfig::default()`
abbrev pub default : SplitConfig
default = record {
  mode = inclusive;
  apps = [];
  inherit_children = true;
  kill_switch = false;
  force_direct_cidrs = [];
  force_tunnel_cidrs = [];
  server_endpoints = [];
  driver = winpk_filter;
}

unfoldable pub app_selected : SplitConfig → ConnApp → Bool
unfolding matches
app_selected cfg app = any (λ m. matches m app) cfg.apps

-- `ALWAYS_BYPASS_CIDRS`
abbrev pub always_bypass_cidrs : List Str
always_bypass_cidrs =
    bytes "10.0.0.0/8"
    ∷ bytes "172.16.0.0/12"
    ∷ bytes "192.168.0.0/16"
    ∷ bytes "127.0.0.0/8"
    ∷ bytes "169.254.0.0/16"
    ∷ bytes "224.0.0.0/4"
    ∷ bytes "255.255.255.255/32"
    ∷ bytes "::1/128"
    ∷ bytes "fe80::/10"
    ∷ bytes "fc00::/7"
    ∷ bytes "ff00::/8"
    ∷ []
