-- ===== src/Base64/Sextets.antt =====
-- The groups of six bits of crates/core/src/base64.rs, there and back.
use Prim.Native.Nat.{bit_and, bit_or}
use jamm_vpn.Base.{
  ℕ, zero, suc, ◌+◌, ◌*◌, ◌/◌, ◌%◌, ◌-◌, ◌^◌, ◌<◌, ◌≡◌, refl, ◌∙◌, Bool, true, false, not, ◌&&◌,
  List, [], ◌∷◌, arith, leb, if◌then◌else◌, ◌==◌, inl, inr, Bool-cases,
}
use jamm_vpn.Base.Bits.{bit_and_six, bit_or_above}
use jamm_vpn.Base.Text.{Str}
use jamm_vpn.Error.{ParseError, Result, ok, ◌>>=◌}
use jamm_vpn.Base64.{decode_table, is_skipped, decode_bytes, letter, chunk_word}

==→eq : (a b : ℕ) → (a == b) ≡ true → a ≡ b
==→eq a b h = ground arith

false_by_not : (b : Bool) → not b ≡ true → b ≡ false
false_by_not b h = ground arith

-- A letter of the alphabet stands for its six bits, and is no space.
is_read : ℕ → Bool
unfolding decode_table is_skipped letter
is_read v = (decode_table (letter v) == v) && not (is_skipped (letter v))

all_below : (ℕ → Bool) → ℕ → Bool
all_below p zero = true
all_below p (suc n) = p n && all_below p n

below : (p : ℕ → Bool) (n v : ℕ) → all_below p n ≡ true → v < n → p v ≡ true
unfolding all_below
below p zero v h k = absurd (omega (arith, k))
below p (suc n) v h k = elim (Bool-cases (v == n)) [
  | inl same ↦ let e : v ≡ n = ground (arith, same) in rw e (ground (arith, h))
  | inr other ↦ below p n v (ground (arith, h)) (ground (arith, k, other))
]

all_read : all_below is_read 64 ≡ true
unfolding all_below is_read decode_table is_skipped letter
all_read = refl

and_true : (a b : Bool) → a && b ≡ true → (a ≡ true) × (b ≡ true)
and_true a b h = (ground arith, ground arith)

letter_read : (v : ℕ) → v < 64 → (decode_table (letter v) ≡ v) × (is_skipped (letter v) ≡ false)
unfolding is_read
letter_read v h =
    let (same, read) = and_true _ _ (below is_read 64 v all_read h) in
    (==→eq (decode_table (letter v)) v same, false_by_not (is_skipped (letter v)) read)

not_invalid : (v : ℕ) → v < 64 → (v == 255) ≡ false
not_invalid v h = ground (arith, h)

-- One letter in the loop.
pub decode_letter :
    (buf bits v : ℕ) (bs : Str)
    → v < 64
    → let next = buf * 2 ^ 6 % 2 ^ 32 + v in
      decode_bytes buf bits (letter v ∷ bs) ≡ (
        if leb 8 (bits + 6)
        then (decode_bytes next (bits + 6 - 8) bs
            >>= (λ rest. ok (next / 2 ^ (bits + 6 - 8) % 256 ∷ rest)))
        else decode_bytes next (bits + 6) bs)
unfolding decode_bytes
decode_letter buf bits v bs h =
    let (same, read) = letter_read v h in
    let shifted : buf * 2 ^ 6 % 2 ^ 32 ≡ buf % 2 ^ 26 * 2 ^ 6 = omega arith in
    let joined : bit_or (buf * 2 ^ 6 % 2 ^ 32) v ≡ buf * 2 ^ 6 % 2 ^ 32 + v =
      rw shifted (bit_or_above 6 v (buf % 2 ^ 26) (omega (arith, h))) in
    elim (Bool-cases (leb 8 (bits + 6))) [
      | inl full ↦ rw (decode_bytes, read, same, not_invalid v h, full, same, joined) refl
      | inr more ↦ rw (decode_bytes, read, same, not_invalid v h, more, same, joined) refl
    ]

chunk_word_lem :
    (b0 b1 b2 : ℕ) → b1 < 256 → b2 < 256 → chunk_word b0 b1 b2 ≡ b0 * 65536 + b1 * 256 + b2
unfolding chunk_word
chunk_word_lem b0 b1 b2 h1 h2 =
    let two : bit_or (b0 * 2 ^ 16) (b1 * 2 ^ 8) ≡ b0 * 2 ^ 16 + b1 * 2 ^ 8 =
      bit_or_above 16 (b1 * 2 ^ 8) b0 (omega (arith, h1)) in
    let shape : b0 * 2 ^ 16 + b1 * 2 ^ 8 ≡ (b0 * 2 ^ 8 + b1) * 2 ^ 8 = omega arith in
    rw (two, shape) (bit_or_above 8 b2 (b0 * 2 ^ 8 + b1) (omega (arith, h2)) ∙ omega arith)

-- The four groups of six bits.
module _ (b0 b1 b2 : ℕ) (h0 : b0 < 256) (h1 : b1 < 256) (h2 : b2 < 256) where
  pub first : bit_and (chunk_word b0 b1 b2 / 2 ^ 18) 63 ≡ b0 / 4
  first = bit_and_six _ ∙ omega (arith, h0, h1, h2, chunk_word_lem b0 b1 b2 h1 h2)

  pub second : bit_and (chunk_word b0 b1 b2 / 2 ^ 12) 63 ≡ b0 % 4 * 16 + b1 / 16
  second = bit_and_six _ ∙ omega (arith, h0, h1, h2, chunk_word_lem b0 b1 b2 h1 h2)

  pub third : bit_and (chunk_word b0 b1 b2 / 2 ^ 6) 63 ≡ b1 % 16 * 4 + b2 / 64
  third = bit_and_six _ ∙ omega (arith, h0, h1, h2, chunk_word_lem b0 b1 b2 h1 h2)

  pub fourth : bit_and (chunk_word b0 b1 b2) 63 ≡ b2 % 64
  fourth = bit_and_six _ ∙ omega (arith, h0, h1, h2, chunk_word_lem b0 b1 b2 h1 h2)

-- The bytes that the shifts give back, whatever stood in the word before.
pub out_first :
    (w b0 low : ℕ)
    → b0 < 256
    → low < 16
    → ((w * 64 % 4294967296 + b0 / 4) * 64 % 4294967296 + (b0 % 4 * 16 + low)) / 16 % 256 ≡ b0
out_first w b0 low h k = omega (arith, h, k)

pub out_second :
    (w b0 b1 low : ℕ)
    → b1 < 256
    → low < 4
    → ((w * 64 % 4294967296 + (b0 % 4 * 16 + b1 / 16)) * 64 % 4294967296 + (b1 % 16 * 4 + low))
        / 4
        % 256
      ≡ b1
out_second w b0 b1 low h k = omega (arith, h, k)

pub out_third :
    (w b1 b2 : ℕ)
    → b2 < 256
    → ((w * 64 % 4294967296 + (b1 % 16 * 4 + b2 / 64)) * 64 % 4294967296 + b2 % 64) / 1 % 256 ≡ b2
out_third w b1 b2 h = omega (arith, h)

pub decode_end : (buf bits : ℕ) → decode_bytes buf bits [] ≡ ok []
unfolding decode_bytes
decode_end buf bits = refl

pub decode_pad :
    (buf bits : ℕ) (bs : Str) → decode_bytes buf bits (b'=' ∷ bs) ≡ decode_bytes buf bits bs
unfolding decode_bytes is_skipped
decode_pad buf bits bs = refl

-- Results of bytes that agree one by one.
pub two_equal :
    {x a y b : ℕ}
    → x ≡ a
    → y ≡ b
    → ◌≡◌ {A = Result ParseError (List ℕ)} (ok (x ∷ y ∷ [])) (ok (a ∷ b ∷ []))
two_equal e f = λ i. ok (e i ∷ f i ∷ [])

pub three_equal :
    {x a y b z c : ℕ} {t : List ℕ}
    → x ≡ a
    → y ≡ b
    → z ≡ c
    → ◌≡◌ {A = Result ParseError (List ℕ)} (ok (x ∷ y ∷ z ∷ t)) (ok (a ∷ b ∷ c ∷ t))
three_equal {t = t} e f g = λ i. ok (e i ∷ f i ∷ g i ∷ t)
