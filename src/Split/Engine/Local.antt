-- ===== src/Split/Engine/Local.antt =====
-- The networks that always go past the tunnel, as intervals of addresses.
use jamm_vpn.Base.{
  ℕ, ◌+◌, ◌-◌, ◌*◌, ◌/◌, ◌^◌, ◌≡◌, refl, ◌⊎◌, inl, inr, ◌↔◌, Bool, true, ◌||◌, List, [], ◌∷◌, arith,
  Bool-cases, any, All,
}
use jamm_vpn.Addr.{IpAddr, v4, v6, IsIp, is_ipv4}
use jamm_vpn.Split.Cidr.{IpCidr, parse, contains, IsCidr}
use jamm_vpn.Split.Cidr.Blocks.{contains_iff, InBlock}
use jamm_vpn.Split.Config.{always_bypass_cidrs}
use jamm_vpn.Split.Engine.{cidrs_contain}

-- 10/8, 172.16/12, 192.168/16, 127/8, 169.254/16, 224/4 and 255.255.255.255; ::1, fe80::/10,
-- fc00::/7 and ff00::/8.
abbrev pub IsLocal : IpAddr → Type 0
IsLocal (v4 a) =
    (a / 2 ^ 24 ≡ 10)
    ⊎ (a / 2 ^ 20 ≡ 172 * 16 + 1)
    ⊎ (a / 2 ^ 16 ≡ 192 * 256 + 168)
    ⊎ (a / 2 ^ 24 ≡ 127)
    ⊎ (a / 2 ^ 16 ≡ 169 * 256 + 254)
    ⊎ (a / 2 ^ 28 ≡ 14)
    ⊎ (a ≡ 2 ^ 32 - 1)
IsLocal (v6 a) =
    (a ≡ 1) ⊎ (a / 2 ^ 118 ≡ 0xfe80 / 2 ^ 6) ⊎ (a / 2 ^ 121 ≡ 0xfc / 2) ⊎ (a / 2 ^ 120 ≡ 0xff)

abbrev net4 : ℕ → ℕ → IpCidr
net4 a p = record { base = v4 a; prefix = p }

abbrev net6 : ℕ → ℕ → IpCidr
net6 a p = record { base = v6 a; prefix = p }

abbrev bypass_nets : List IpCidr
bypass_nets =
    net4 (10 * 2 ^ 24) 8
    ∷ net4 ((172 * 256 + 16) * 2 ^ 16) 12
    ∷ net4 ((192 * 256 + 168) * 2 ^ 16) 16
    ∷ net4 (127 * 2 ^ 24) 8
    ∷ net4 ((169 * 256 + 254) * 2 ^ 16) 16
    ∷ net4 (224 * 2 ^ 24) 4
    ∷ net4 (2 ^ 32 - 1) 32
    ∷ net6 1 128
    ∷ net6 (0xfe80 * 2 ^ 112) 10
    ∷ net6 (0xfc00 * 2 ^ 112) 7
    ∷ net6 (0xff00 * 2 ^ 112) 8
    ∷ []

-- The texts parse, each to its network.
bypass_parsed :
    (ip : IpAddr) → cidrs_contain always_bypass_cidrs ip ≡ any (λ c. contains c ip) bypass_nets
unfolding cidrs_contain parse
bypass_parsed ip = refl

abbrev InSome : List IpCidr → IpAddr → Type 0
InSome [] ip = ⊥
InSome (c ∷ cs) ip = InBlock c ip ⊎ InSome cs ip

or_true : (b : Bool) {c : Bool} → c ≡ true → (b || c) ≡ true
or_true b h = ground arith

any-contains_iff :
    (cs : List IpCidr) (ip : IpAddr)
    → IsIp ip
    → All IsCidr cs
    → (any (λ c. contains c ip) cs ≡ true) ↔ InSome cs ip
any-contains_iff [] ip h k = (λ e. cc, λ e. absurd e)
any-contains_iff (c ∷ cs) ip h (k, ks) =
    let (here→, here←) = contains_iff c ip k h in
    let (there→, there←) = any-contains_iff cs ip h ks in
    (
      λ e. elim (Bool-cases (contains c ip)) [
        | inl t ↦ inl (here→ t)
        | inr f ↦ inr (there→ (rw f at e))
      ],
      λ d. elim d [ inl b ↦ rw (here← b) | inr r ↦ or_true (contains c ip) (there← r) ],
    )

bypass_nets-IsCidr : All IsCidr bypass_nets
unfolding is_ipv4
bypass_nets-IsCidr = omega arith

some_iff_IsLocal : (ip : IpAddr) → IsIp ip → InSome bypass_nets ip ↔ IsLocal ip
some_iff_IsLocal (v4 a) h = (λ d. ground arith, λ d. ground arith)
some_iff_IsLocal (v6 a) h = (λ d. ground arith, λ d. ground arith)

-- The list of networks that always go past the tunnel holds exactly these addresses.
pub always_bypass_iff :
    (ip : IpAddr) → IsIp ip → (cidrs_contain always_bypass_cidrs ip ≡ true) ↔ IsLocal ip
always_bypass_iff ip h =
    let (some→, some←) = any-contains_iff bypass_nets ip h bypass_nets-IsCidr in
    let (local→, local←) = some_iff_IsLocal ip h in
    (λ e. local→ (some→ (rw bypass_parsed at e)), λ d. rw bypass_parsed (some← (local← d)))
