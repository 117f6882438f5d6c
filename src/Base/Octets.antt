-- ===== src/Base/Octets.antt =====
-- Octets: `to_be_bytes`, `from_be_bytes`, `to_le_bytes`, `from_le_bytes` and `octets` of the standard library.
use native.Mathlib.Nat.{pow-suc}
use jamm_vpn.Base.{
  ℕ, zero, suc, ◌+◌, ◌*◌, ◌/◌, ◌%◌, ◌^◌, ◌<◌, ◌≡◌, refl, List, [], ◌∷◌, ◌++◌, arith, All, length,
  length-append,
}

-- The low `n` octets of `v`.
unfoldable pub to_be : ℕ → ℕ → List ℕ
to_be zero v = []
to_be (suc n) v = to_be n (v / 256) ++ (v % 256 ∷ [])

abbrev from_acc : ℕ → List ℕ → ℕ
from_acc a [] = a
from_acc a (b ∷ bs) = from_acc (a * 256 + b) bs

unfoldable pub from_be : List ℕ → ℕ
from_be bs = from_acc 0 bs

pub length-to_be : (n v : ℕ) → length (to_be n v) ≡ n
unfolding to_be
length-to_be zero v = refl
length-to_be (suc n) v =
    omega (arith, length-append (to_be n (v / 256)) (v % 256 ∷ []), length-to_be n (v / 256))

from_acc-snoc :
    (a : ℕ) (bs : List ℕ) (b : ℕ) → from_acc a (bs ++ (b ∷ [])) ≡ from_acc a bs * 256 + b
from_acc-snoc a [] b = refl
from_acc-snoc a (c ∷ bs) b = from_acc-snoc (a * 256 + c) bs b

pub from_be-to_be : (n v : ℕ) → v < 256 ^ n → from_be (to_be n v) ≡ v
unfolding from_be to_be
from_be-to_be zero v h = omega arith
from_be-to_be (suc n) v h =
    let again = from_be-to_be n (v / 256) (omega (arith, h)) in
    omega (arith, from_acc-snoc 0 (to_be n (v / 256)) (v % 256), again)

unfoldable pub to_le : ℕ → ℕ → List ℕ
to_le zero v = []
to_le (suc n) v = v % 256 ∷ to_le n (v / 256)

abbrev pub from_le : List ℕ → ℕ
from_le [] = 0
from_le (b ∷ bs) = b + 256 * from_le bs

pub length-to_le : (n v : ℕ) → length (to_le n v) ≡ n
unfolding to_le
length-to_le zero v = refl
length-to_le (suc n) v = omega (arith, length-to_le n (v / 256))

pub from_le-to_le : (n v : ℕ) → v < 256 ^ n → from_le (to_le n v) ≡ v
unfolding to_le
from_le-to_le zero v h = omega (arith, h)
from_le-to_le (suc n) v h =
    omega (arith, from_le-to_le n (v / 256) (omega (arith, h, pow-suc 256 n)))

-- Bytes written as a number and back.
pub to_le-from_le :
    (n : ℕ) (bs : List ℕ) → length bs ≡ n → All (λ b. b < 256) bs → to_le n (from_le bs) ≡ bs
unfolding to_le
to_le-from_le zero [] e h = refl
to_le-from_le zero (b ∷ bs) e h = absurd (omega (arith, e))
to_le-from_le (suc n) [] e h = absurd (omega (arith, e))
to_le-from_le (suc n) (b ∷ bs) e (small, h) =
    let first : (b + 256 * from_le bs) % 256 ≡ b = omega (arith, small) in
    let rest : (b + 256 * from_le bs) / 256 ≡ from_le bs = omega (arith, small) in
    rw (first, rest, to_le-from_le n bs (omega (arith, e)) h) refl
