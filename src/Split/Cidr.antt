-- ===== src/Split/Cidr.antt =====
-- crates/core/src/split/cidr.rs: an IP network with a prefix length.
pub mod Blocks
use Prim.Native.Nat.{bit_and}
use jamm_vpn.Base.{
  ℕ, ◌-◌, ◌*◌, ◌%◌, ◌^◌, ◌≤◌, ◌≡◌, Bool, true, false, Option, none, some, ltb, leb, ◌==◌,
  if◌then◌else◌,
}
use jamm_vpn.Base.Text.{Str, split_once}
use jamm_vpn.Error.{ParseError, Result, ok, err, invalid_cidr, ◌>>=◌}
use jamm_vpn.Addr.{IpAddr, v4, v6, IsIp, is_ipv4}
use jamm_vpn.Addr.Parse.{parse_ip, parse_uint}

pub record IpCidr : Type 0 where
  pub base : IpAddr
  pub prefix : ℕ

-- `if base.is_ipv4() { 32 } else { 128 }`
abbrev pub max_prefix : IpAddr → ℕ
max_prefix (v4 _) = 32
max_prefix (v6 _) = 128

-- `IpCidr::new`; the error's text is the network as it would be displayed.
unfoldable pub new : (IpAddr → ℕ → Str) → IpAddr → ℕ → Result ParseError IpCidr
new display base prefix =
    if ltb (max_prefix base) prefix
    then err (invalid_cidr (display base prefix))
    else ok (record { base = base; prefix = prefix })

-- `ok_or` with the error that names the whole text.
abbrev or_invalid : {A : Type 0} → Str → Option A → Result ParseError A
or_invalid s none = err (invalid_cidr s)
or_invalid s (some a) = ok a

-- The text before `/`, and the prefix behind it where there is one.
split_prefix : Str → Result ParseError (Str × Option ℕ)
unfolding split_once
split_prefix s = elim (split_once b'/' s) [
  | some (ip, p) ↦ do pfx ← or_invalid s (parse_uint 256 p); ok (ip, some pfx)
  | none ↦ ok (s, none)
]

checked : Str → IpAddr → ℕ → Result ParseError IpCidr
checked s base prefix =
    if ltb (max_prefix base) prefix
    then err (invalid_cidr s)
    else ok (record { base = base; prefix = prefix })

-- The family's own width where the text gives no prefix.
prefix_or_max : IpAddr → Option ℕ → ℕ
prefix_or_max base none = max_prefix base
prefix_or_max base (some p) = p

unfoldable pub parse : Str → Result ParseError IpCidr
unfolding split_prefix parse_ip parse_uint is_ipv4 checked prefix_or_max
parse s = do
  (ip_str, prefix_opt) ← split_prefix s
  base ← or_invalid s (parse_ip ip_str)
  checked s base (prefix_or_max base prefix_opt)

-- `u32::MAX << (32 - prefix)` and its like at width `w`: the bits shifted out are lost.
unfoldable pub netmask : ℕ → ℕ → ℕ
netmask w prefix =
    if prefix == 0
    then 0
    else if leb w prefix
    then 2 ^ w - 1
    else (2 ^ w - 1) * 2 ^ (w - prefix) % 2 ^ w

unfoldable pub v4_match : ℕ → ℕ → ℕ → Bool
unfolding netmask
v4_match base addr prefix = bit_and base (netmask 32 prefix) == bit_and addr (netmask 32 prefix)

unfoldable pub v6_match : ℕ → ℕ → ℕ → Bool
unfolding netmask
v6_match base addr prefix = bit_and base (netmask 128 prefix) == bit_and addr (netmask 128 prefix)

unfoldable pub family_match : IpAddr → IpAddr → ℕ → Bool
unfolding v4_match v6_match
family_match (v4 base) (v4 addr) prefix = v4_match base addr prefix
family_match (v6 base) (v6 addr) prefix = v6_match base addr prefix
family_match _ _ prefix = false

unfoldable pub contains : IpCidr → IpAddr → Bool
unfolding family_match
contains c ip = family_match c.base ip c.prefix

-- A network that `new` or `parse` may return: the prefix fits the family.
abbrev pub IsCidr : IpCidr → Type 0
IsCidr c = IsIp c.base × (c.prefix ≤ max_prefix c.base)
