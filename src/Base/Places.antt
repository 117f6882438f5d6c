-- ===== src/Base/Places.antt =====
-- The places of a word: single bits under `<<`, `|`, `&` and the wrap-around of a machine word.
use Prim.Native.Nat.{bit_and, bit_or}
use native.Mathlib.Nat.{
  pow-suc, pow-succ', one-le-pow, div-add-mod, mod-lt, mod-eq_of_lt, mul-add-mod_self_left,
  mul_assoc,
}
use jamm_vpn.Base.{
  ℕ, zero, suc, ◌+◌, ◌*◌, ◌/◌, ◌%◌, ◌^◌, ◌≤◌, ◌<◌, ◌≡◌, ◌≢◌, refl, sym, ap, ◌∙◌, arith,
}
use jamm_vpn.Base.Bits.{
  bit_and_shifted, bit_and_lowest, bit_and-zero, bit_or_lowest, bit_or-zero, halve_shift,
  double_shift,
}

-- The bit at a place, 0 or 1.
abbrev pub place : ℕ → ℕ → ℕ
place zero w = w % 2
place (suc d) w = place d (w / 2)

pub place_div : (d w : ℕ) → place d w ≡ w / 2 ^ d % 2
place_div zero w = omega arith
place_div (suc d) w = place_div d (w / 2) ∙ ap (λ m. m % 2) (sym (halve_shift d w))

pub place_few : (d w : ℕ) → place d w < 2
place_few zero w = omega arith
place_few (suc d) w = place_few d (w / 2)

-- `w & (1 << d)`.
pub bit_and-place : (d w : ℕ) → bit_and w (1 * 2 ^ d) ≡ place d w * 2 ^ d
bit_and-place d w =
    let low : bit_and (w / 2 ^ d) 1 ≡ w / 2 ^ d % 2 = omega (
      arith,
      bit_and_lowest (w / 2 ^ d) 1,
      bit_and-zero (w / 2 ^ d / 2) (w / 2 ^ d / 2) (omega arith),
    ) in
    bit_and_shifted d w 1 ∙ ap (λ m. m * 2 ^ d) (low ∙ sym (place_div d w))

-- `w | (1 << d)` where the bit is not set.
pub bit_or-place : (d w : ℕ) → place d w ≡ 0 → bit_or w (1 * 2 ^ d) ≡ w + 2 ^ d
bit_or-place zero w h = ground (arith, h, bit_or_lowest w 1, bit_or-zero (w / 2) (w / 2))
bit_or-place (suc d) w h =
    ground (arith, h, pow-suc 2 d, bit_or_lowest w (1 * 2 ^ suc d), bit_or-place d (w / 2) h)

-- A bit that was not set is set, and the others stay.
pub place-set_same : (d w : ℕ) → place d w ≡ 0 → place d (w + 2 ^ d) ≡ 1
place-set_same zero w h = omega (arith, h)
place-set_same (suc d) w h =
    let half : (w + 2 ^ suc d) / 2 ≡ w / 2 + 2 ^ d = omega (arith, pow-suc 2 d) in
    rw half (place-set_same d (w / 2) h)

pub place-set_other : (e d w : ℕ) → place d w ≡ 0 → e ≢ d → place e (w + 2 ^ d) ≡ place e w
place-set_other zero zero w h apart = absurd (apart refl)
place-set_other zero (suc d) w h apart = omega (arith, pow-suc 2 d)
place-set_other (suc e) zero w h apart =
    let half : (w + 2 ^ 0) / 2 ≡ w / 2 = omega (arith, h) in rw half refl
place-set_other (suc e) (suc d) w h apart =
    let half : (w + 2 ^ suc d) / 2 ≡ w / 2 + 2 ^ d = omega (arith, pow-suc 2 d) in
    rw half (place-set_other e d (w / 2) h (λ s. apart (ap (λ n. suc n) s)))

-- `w << s`.
pub place-shift_below : (e s w : ℕ) → e < s → place e (w * 2 ^ s) ≡ 0
place-shift_below e zero w h = absurd (omega (arith, h))
place-shift_below zero (suc s) w h = omega (arith, double_shift s w)
place-shift_below (suc e) (suc s) w h =
    let half : w * 2 ^ suc s / 2 ≡ w * 2 ^ s = omega (arith, double_shift s w) in
    rw half (place-shift_below e s w (omega (arith, h)))

pub place-shift_above : (e s w : ℕ) → place (e + s) (w * 2 ^ s) ≡ place e w
place-shift_above e zero w =
    let none : e + 0 ≡ e = omega arith in
    let same : w * 2 ^ 0 ≡ w = omega arith in rw (none, same) refl
place-shift_above e (suc s) w =
    let half : w * 2 ^ suc s / 2 ≡ w * 2 ^ s = omega (arith, double_shift s w) in
    let up : e + suc s ≡ suc (e + s) = omega arith in
    ap (λ n. place n (w * 2 ^ suc s)) up ∙ ap (λ v. place (e + s) v) half ∙ place-shift_above e s w

-- The remainder by an even number, from below.
module _ (x m : ℕ) (h : 1 ≤ m) where
  whole : x ≡ 2 * (m * (x / (2 * m))) + x % (2 * m)
  whole = sym (div-add-mod x (2 * m)) ∙ ap (λ p. p + x % (2 * m)) (mul_assoc 2 m (x / (2 * m)))

  mod_half : x % (2 * m) / 2 ≡ x / 2 % m
  mod_half =
      let r = x % (2 * m) in
      let small : r < 2 * m = mod-lt x (omega (arith, h)) in
      let half : x / 2 ≡ m * (x / (2 * m)) + r / 2 = omega (arith, whole) in
      let rest : r / 2 % m ≡ r / 2 = mod-eq_of_lt (omega (arith, small)) in
      sym (ap (λ y. y % m) half ∙ mul-add-mod_self_left m (x / (2 * m)) (r / 2) ∙ rest)

  mod_low : x % (2 * m) % 2 ≡ x % 2
  mod_low = omega (arith, whole)

-- The low places survive the wrap-around.
pub place-wrap : (e k w : ℕ) → e < k → place e (w % 2 ^ k) ≡ place e w
place-wrap e zero w h = absurd (omega (arith, h))
place-wrap zero (suc k) w h =
    ap (λ m. w % m % 2) (pow-succ' 2 k) ∙ mod_low w (2 ^ k) (one-le-pow k 2 (omega arith))
place-wrap (suc e) (suc k) w h =
    let half : w % 2 ^ suc k / 2 ≡ w / 2 % 2 ^ k =
      ap (λ m. w % m / 2) (pow-succ' 2 k) ∙ mod_half w (2 ^ k) (one-le-pow k 2 (omega arith)) in
    rw half (place-wrap e k (w / 2) (omega (arith, h)))
