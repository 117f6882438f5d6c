-- ===== src/Routing/Domain.antt =====
-- crates/core/src/routing/domain.rs: rules about host names.
pub mod Suffix
use jamm_vpn.Base.{ℕ, ◌≡◌, Bool, ◌||◌, List, [], ◌∷◌}
use jamm_vpn.Base.Text.{
  Str, str_eq, to_ascii_lowercase, ends_with, contains, trim_start_matches, trim_end_matches,
}

pub data DomainRule : Type 0 where
  full suffix keyword : Str → DomainRule

-- The host as the rules see it: no trailing dots, lower case.
unfoldable pub normal_host : Str → Str
unfolding trim_end_matches to_ascii_lowercase
normal_host host = to_ascii_lowercase (trim_end_matches b'.' host)

unfoldable pub matches : DomainRule → Str → Bool
unfolding normal_host trim_start_matches to_ascii_lowercase str_eq ends_with contains
matches (full d) host = str_eq (normal_host host) (to_ascii_lowercase d)
matches (suffix d) host =
    let d = to_ascii_lowercase (trim_start_matches b'.' d) in
    let h = normal_host host in str_eq h d || ends_with h (b'.' ∷ d)
matches (keyword k) host = contains (normal_host host) (to_ascii_lowercase k)
