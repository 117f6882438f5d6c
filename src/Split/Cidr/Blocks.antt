-- ===== src/Split/Cidr/Blocks.antt =====
-- The networks of crates/core/src/split/cidr.rs as intervals of addresses.
use Prim.Native.Nat.{bit_and}
use native.Mathlib.Nat.{
  one-le-pow, pow-suc, mul-add-mod_self_right, mod-eq_of_lt, add-zero, div-lt_iff_lt-mul,
  div-eq_of_lt, mul-div_cancel,
}
use mathlib.Core.Path.{subst}
use jamm_vpn.Base.{==_iff}
use jamm_vpn.Base.{
  ℕ, zero, suc, ◌+◌, ◌-◌, ◌*◌, ◌/◌, ◌%◌, ◌^◌, ◌≤◌, ◌<◌, ◌≡◌, sym, ap, ◌∙◌, ◌↔◌, arith, true,
}
use jamm_vpn.Base.Bits.{bit_and_shifted, bit_and_ones}
use jamm_vpn.Addr.{IpAddr, v4, v6, IsIp, is_ipv4}
use jamm_vpn.Split.Cidr.{IpCidr, max_prefix, netmask, family_match, contains, IsCidr}

pow_add : (p k : ℕ) → 2 ^ (p + k) ≡ 2 ^ p * 2 ^ k
pow_add p zero = ground arith
pow_add p (suc k) =
    let e : p + suc k ≡ suc (p + k) = omega arith in
    rw e (grind (arith, pow-suc 2 (p + k), pow-suc 2 k, pow_add p k))

-- `(W - 1) * K` is `(P - 1) * K` above a multiple of `W`, for `W = P * K`.
above_multiple : (p k : ℕ) → (suc p * suc k - 1) * suc k ≡ k * (suc p * suc k) + p * suc k
above_multiple p k = let e : suc p * suc k - 1 ≡ p * k + p + k = omega arith in rw e (grind arith)

shifted_ones : (p k : ℕ) → (suc p * suc k - 1) * suc k % (suc p * suc k) ≡ p * suc k
shifted_ones p k = rw above_multiple (rw mul-add-mod_self_right (mod-eq_of_lt (omega arith)))

shifted_ones_pos : (P K : ℕ) → 0 < P → 0 < K → (P * K - 1) * K % (P * K) ≡ (P - 1) * K
shifted_ones_pos zero K hp hk = elim hp [ ]
shifted_ones_pos (suc p) zero hp hk = elim hk [ ]
shifted_ones_pos (suc p) (suc k) hp hk =
    let e : suc p - 1 ≡ p = omega arith in rw e (shifted_ones p k)

netmask_lem : (p k : ℕ) → 0 < p → netmask (p + k) p ≡ (2 ^ p - 1) * 2 ^ k
unfolding netmask
netmask_lem p zero h = ground (arith, ap (λ (t : ℕ). 2 ^ t) (add-zero p))
netmask_lem p (suc k) h =
    let e : p + suc k - p ≡ suc k = omega arith in
    ground (
      arith,
      e,
      pow_add p (suc k),
      shifted_ones_pos (2 ^ p) (2 ^ suc k) (one-le-pow p 2 (omega arith))
          (one-le-pow (suc k) 2 (omega arith)),
    )

div_pow_lt : (p k a : ℕ) → a < 2 ^ (p + k) → a / 2 ^ k < 2 ^ p
div_pow_lt p k a l = (div-lt_iff_lt-mul (one-le-pow k 2 (omega arith))).1 (rw (← pow_add p k) l)

-- A network keeps the first `p` bits of a word of `p + k` bits.
netmask_split :
    (p k a : ℕ) → 0 < p → a < 2 ^ (p + k) → bit_and a (netmask (p + k) p) ≡ a / 2 ^ k * 2 ^ k
netmask_split p k a h l = rw (netmask_lem p k h) (
    bit_and_shifted k a (2 ^ p - 1)
    ∙ ap (λ (t : ℕ). t * 2 ^ k) (bit_and_ones p (a / 2 ^ k) (div_pow_lt p k a l)))

block_fits : (x y k : ℕ) → x < y → x * k + k ≤ y * k
block_fits x y k h = grind arith

no_bits : (w a : ℕ) → a < 2 ^ w → bit_and a 0 ≡ 0
no_bits w a h = let q : a / 2 ^ w ≡ 0 = div-eq_of_lt h in ground (arith, bit_and_shifted w a 0, q)

netmask_none : (w a : ℕ) → a < 2 ^ w → bit_and a (netmask w 0) ≡ 0
unfolding netmask
netmask_none w a h = no_bits w a h

times_cancel : (x y k : ℕ) → 0 < k → x * k ≡ y * k → x ≡ y
times_cancel x y k h e = sym (mul-div_cancel x h) ∙ (ap (λ (t : ℕ). t / k) e ∙ mul-div_cancel y h)

-- Two words of `p + k` bits agree under the netmask exactly where they lie in one block of `2 ^ k`.
masked_split_iff :
    (p k a b : ℕ)
    → a < 2 ^ (p + k)
    → b < 2 ^ (p + k)
    → (bit_and a (netmask (p + k) p) ≡ bit_and b (netmask (p + k) p)) ↔ (a / 2 ^ k ≡ b / 2 ^ k)
masked_split_iff zero k a b la lb =
    let w : 0 + k ≡ k = omega arith in
    (
      λ _. div-eq_of_lt (rw w at la) ∙ sym (div-eq_of_lt (rw w at lb)),
      λ _. netmask_none (0 + k) a la ∙ sym (netmask_none (0 + k) b lb),
    )
masked_split_iff (suc p) k a b la lb =
    let ea = netmask_split (suc p) k a (omega arith) la in
    let eb = netmask_split (suc p) k b (omega arith) lb in
    (
      λ e. times_cancel _ _ (2 ^ k) (one-le-pow k 2 (omega arith)) (sym ea ∙ (e ∙ eb)),
      λ e. ea ∙ (ap (λ (t : ℕ). t * 2 ^ k) e ∙ sym eb),
    )

pub masked_eq_iff :
    (w p a b : ℕ)
    → p ≤ w
    → a < 2 ^ w
    → b < 2 ^ w
    → (bit_and a (netmask w p) ≡ bit_and b (netmask w p)) ↔ (a / 2 ^ (w - p) ≡ b / 2 ^ (w - p))
masked_eq_iff w p a b h la lb =
    let e : p + (w - p) ≡ w = omega arith in
    subst
      (λ (v : ℕ).
        a < 2 ^ v
        → b < 2 ^ v
        → (bit_and a (netmask v p) ≡ bit_and b (netmask v p)) ↔ (a / 2 ^ (w - p) ≡ b / 2 ^ (w - p)))
      e (masked_split_iff p (w - p) a b) la lb

-- The network address of a prefix, and the last address of its block.
pub network_address :
    (w p a : ℕ)
    → 0 < p
    → p ≤ w
    → a < 2 ^ w
    → (bit_and a (netmask w p) ≡ a / 2 ^ (w - p) * 2 ^ (w - p))
      × (bit_and a (netmask w p) + 2 ^ (w - p) ≤ 2 ^ w)
network_address w p a h l la =
    subst
      (λ (v : ℕ).
        a < 2 ^ v
        → (bit_and a (netmask v p) ≡ a / 2 ^ (w - p) * 2 ^ (w - p))
          × (bit_and a (netmask v p) + 2 ^ (w - p) ≤ 2 ^ v))
      (let e : p + (w - p) ≡ w = omega arith in e)
      (λ m.
        let n = netmask_split p (w - p) a h m in
        (
          n,
          rw (n, pow_add)
              (block_fits (a / 2 ^ (w - p)) (2 ^ p) (2 ^ (w - p)) (div_pow_lt p (w - p) a m)),
        ))
      la

abbrev pub SameBlock : IpAddr → IpAddr → ℕ → Type 0
SameBlock (v4 a) (v4 b) p = a / 2 ^ (32 - p) ≡ b / 2 ^ (32 - p)
SameBlock (v6 a) (v6 b) p = a / 2 ^ (128 - p) ≡ b / 2 ^ (128 - p)
SameBlock _ _ p = ⊥

family_match_iff :
    (a b : IpAddr) (p : ℕ)
    → IsIp a
    → IsIp b
    → p ≤ max_prefix a
    → (family_match a b p ≡ true) ↔ SameBlock a b p
unfolding family_match is_ipv4
family_match_iff (v4 a) (v4 b) p ha hb h = (
  λ e. (masked_eq_iff 32 p a b h ha hb).0 ((==_iff _ _).0 e),
  λ e. (==_iff _ _).1 ((masked_eq_iff 32 p a b h ha hb).1 e),
)
family_match_iff (v6 a) (v6 b) p ha hb h = (
  λ e. (masked_eq_iff 128 p a b h ha hb).0 ((==_iff _ _).0 e),
  λ e. (==_iff _ _).1 ((masked_eq_iff 128 p a b h ha hb).1 e),
)
family_match_iff (v4 a) (v6 b) p ha hb h = (λ e. cc, λ e. absurd e)
family_match_iff (v6 a) (v4 b) p ha hb h = (λ e. cc, λ e. absurd e)

-- The addresses of a network: those that share its first `prefix` bits, in its own family.
abbrev pub InBlock : IpCidr → IpAddr → Type 0
InBlock c ip = SameBlock c.base ip c.prefix

-- `contains` holds exactly for the addresses of the network's block.
pub contains_iff :
    (c : IpCidr) (ip : IpAddr) → IsCidr c → IsIp ip → (contains c ip ≡ true) ↔ InBlock c ip
unfolding contains is_ipv4
contains_iff c ip h k = family_match_iff c.base ip c.prefix h.0 k h.1
