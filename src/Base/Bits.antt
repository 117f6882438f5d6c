-- ===== src/Base/Bits.antt =====
-- `&` with the masks that the program uses, in plain arithmetic: the netmask of a prefix, and the
-- low bits of a word.
use Prim.Native.Nat.{min, max, bit_and, bit_or, digits, bit_and-bitwise, bit_or-bitwise}
use native.Mathlib.Nat.{pow-suc, one-le-pow, div-div-eq-div-mul}
use jamm_vpn.Base.{ℕ, zero, suc, ◌+◌, ◌-◌, ◌*◌, ◌/◌, ◌%◌, ◌^◌, ◌≤◌, ◌<◌, ◌≡◌, refl, sym, ap, arith}

-- The native operation stands for a recursion on binary digits; its count of rounds is irrelevant.
rounds_irrelevant :
    (m n a b : ℕ) → a ≤ m → a ≤ n → digits (λ _. 0) min m a b ≡ digits (λ _. 0) min n a b
rounds_irrelevant zero zero a b p q = refl
rounds_irrelevant zero (suc n) zero b p q = refl
rounds_irrelevant zero (suc n) (suc a) b p q = absurd (omega arith)
rounds_irrelevant (suc m) zero zero b p q = refl
rounds_irrelevant (suc m) zero (suc a) b p q = absurd (omega arith)
rounds_irrelevant (suc m) (suc n) zero b p q = refl
rounds_irrelevant (suc m) (suc n) (suc a) b p q =
    omega (arith, rounds_irrelevant m n (suc a / 2) (b / 2) (omega arith) (omega arith))

zero-bit_and : (b : ℕ) → bit_and 0 b ≡ 0
zero-bit_and b = bit_and-bitwise 0 b

pub bit_and_lowest : (a b : ℕ) → bit_and a b ≡ bit_and (a / 2) (b / 2) * 2 + min (a % 2) (b % 2)
bit_and_lowest zero b = omega (arith, zero-bit_and b, zero-bit_and (b / 2))
bit_and_lowest (suc a) b = omega (
  arith,
  bit_and-bitwise (suc a) b,
  bit_and-bitwise (suc a / 2) (b / 2),
  rounds_irrelevant a (suc a / 2) (suc a / 2) (b / 2) (omega arith) (omega arith),
)

pub double_shift : (k m : ℕ) → m * 2 ^ suc k ≡ 2 * (m * 2 ^ k)
double_shift k m = omega (arith, ap (λ (t : ℕ). m * t) (pow-suc 2 k))

pub halve_shift : (k a : ℕ) → a / 2 ^ suc k ≡ a / 2 / 2 ^ k
halve_shift k a =
    let e : 2 ^ suc k ≡ 2 * 2 ^ k = omega (arith, pow-suc 2 k) in
    rw e (sym (div-div-eq-div-mul a 2 (2 ^ k)))

-- Zeros at the low end of the mask.
pub bit_and_shifted : (k a m : ℕ) → bit_and a (m * 2 ^ k) ≡ bit_and (a / 2 ^ k) m * 2 ^ k
bit_and_shifted zero a m = ground arith
bit_and_shifted (suc k) a m = ground (
  arith,
  double_shift k m,
  halve_shift k a,
  double_shift k (bit_and (a / 2 / 2 ^ k) m),
  bit_and_lowest a (2 * (m * 2 ^ k)),
  bit_and_shifted k (a / 2) m,
)

-- A mask of `n` ones keeps a word of `n` bits.
pub bit_and_ones : (n a : ℕ) → a < 2 ^ n → bit_and a (2 ^ n - 1) ≡ a
bit_and_ones zero a h = let e : a ≡ 0 = omega arith in rw e (zero-bit_and 0)
bit_and_ones (suc n) a h = ground (
  arith,
  pow-suc 2 n,
  one-le-pow n 2,
  bit_and_lowest a (2 ^ suc n - 1),
  bit_and_ones n (a / 2) (omega (arith, pow-suc 2 n)),
)

pub bit_and-zero : (n a : ℕ) → a ≤ n → bit_and a 0 ≡ 0
bit_and-zero zero a h = let e : a ≡ 0 = omega (arith, h) in rw e (zero-bit_and 0)
bit_and-zero (suc n) a h =
    omega (arith, bit_and_lowest a 0, bit_and-zero n (a / 2) (omega (arith, h)))

-- The low six bits.
pub bit_and_six : (a : ℕ) → bit_and a 63 ≡ a % 64
bit_and_six a = omega (
  arith,
  bit_and_lowest a 63,
  bit_and_lowest (a / 2) 31,
  bit_and_lowest (a / 2 / 2) 15,
  bit_and_lowest (a / 2 / 2 / 2) 7,
  bit_and_lowest (a / 2 / 2 / 2 / 2) 3,
  bit_and_lowest (a / 2 / 2 / 2 / 2 / 2) 1,
  bit_and-zero (a / 2 / 2 / 2 / 2 / 2 / 2) (a / 2 / 2 / 2 / 2 / 2 / 2) (omega arith),
)

rounds_or : (m n a b : ℕ) → a ≤ m → a ≤ n → digits (λ b. b) max m a b ≡ digits (λ b. b) max n a b
rounds_or zero zero a b p q = refl
rounds_or zero (suc n) zero b p q = refl
rounds_or zero (suc n) (suc a) b p q = absurd (omega arith)
rounds_or (suc m) zero zero b p q = refl
rounds_or (suc m) zero (suc a) b p q = absurd (omega arith)
rounds_or (suc m) (suc n) zero b p q = refl
rounds_or (suc m) (suc n) (suc a) b p q =
    omega (arith, rounds_or m n (suc a / 2) (b / 2) (omega arith) (omega arith))

zero-bit_or : (b : ℕ) → bit_or 0 b ≡ b
zero-bit_or b = bit_or-bitwise 0 b

pub bit_or_lowest : (a b : ℕ) → bit_or a b ≡ bit_or (a / 2) (b / 2) * 2 + max (a % 2) (b % 2)
bit_or_lowest zero b = omega (arith, zero-bit_or b, zero-bit_or (b / 2))
bit_or_lowest (suc a) b = omega (
  arith,
  bit_or-bitwise (suc a) b,
  bit_or-bitwise (suc a / 2) (b / 2),
  rounds_or a (suc a / 2) (suc a / 2) (b / 2) (omega arith) (omega arith),
)

pub bit_or-zero : (n a : ℕ) → a ≤ n → bit_or a 0 ≡ a
bit_or-zero zero a h = let e : a ≡ 0 = omega (arith, h) in rw e (zero-bit_or 0)
bit_or-zero (suc n) a h = omega (arith, bit_or_lowest a 0, bit_or-zero n (a / 2) (omega (arith, h)))

-- Words that share no bit: `|` is `+`.
pub bit_or_below : (k a m : ℕ) → a < 2 ^ k → bit_or a (m * 2 ^ k) ≡ a + m * 2 ^ k
bit_or_below zero a m h =
    let e : a ≡ 0 = omega arith in rw e (rw (zero-bit_or (m * 2 ^ 0)) (omega arith))
bit_or_below (suc k) a m h = ground (
  arith,
  double_shift k m,
  bit_or_lowest a (2 * (m * 2 ^ k)),
  bit_or_below k (a / 2) m (omega (arith, pow-suc 2 k)),
)

pub bit_or_above : (k a m : ℕ) → a < 2 ^ k → bit_or (m * 2 ^ k) a ≡ m * 2 ^ k + a
bit_or_above zero a m h =
    let e : a ≡ 0 = omega arith in
    rw e (rw (bit_or-zero (m * 2 ^ 0) (m * 2 ^ 0) (omega arith)) (omega arith))
bit_or_above (suc k) a m h = ground (
  arith,
  double_shift k m,
  bit_or_lowest (2 * (m * 2 ^ k)) a,
  bit_or_above k (a / 2) m (omega (arith, pow-suc 2 k)),
)
