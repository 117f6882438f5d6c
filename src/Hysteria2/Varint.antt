-- ===== src/Hysteria2/Varint.antt =====
-- QUIC integers of Hysteria2: what was written reads back, with the length it took.
use Prim.Native.Nat.{bit_or}
use native.Mathlib.Nat.{pow-suc}
use jamm_vpn.Base.{
  ℕ, zero, suc, ◌+◌, ◌*◌, ◌/◌, ◌%◌, ◌^◌, ◌<◌, ◌≡◌, refl, ap, ◌∙◌, inl, inr, some, List, [], ◌∷◌,
  ◌++◌, ltb, arith, length, take, take-append, length-append, Bool-cases,
}
use jamm_vpn.Base.Bits.{bit_and_six, bit_or_below, bit_or_above}
use jamm_vpn.Base.Octets.{to_be, length-to_be}
use jamm_vpn.Hysteria2.{put_varint, extra_of, read_octets, read_varint_buf}

read_octets-snoc :
    (val : ℕ) (bs : List ℕ) (b : ℕ)
    → read_octets val (bs ++ (b ∷ [])) ≡ bit_or (read_octets val bs * 2 ^ 8 % 2 ^ 64) b
unfolding read_octets
read_octets-snoc val [] b = refl
read_octets-snoc val (c ∷ bs) b = read_octets-snoc (bit_or (val * 2 ^ 8 % 2 ^ 64) c) bs b

-- A shift by a byte that loses nothing, and the next byte.
shift_or : (x b : ℕ) → x * 256 + b < 2 ^ 64 → b < 256 → bit_or (x * 2 ^ 8 % 2 ^ 64) b ≡ x * 256 + b
shift_or x b h k =
    let same : x * 2 ^ 8 % 2 ^ 64 ≡ x * 2 ^ 8 = omega (arith, h) in
    rw same (bit_or_above 8 b x (omega (arith, k)))

wider : (n m : ℕ) → m * 256 ^ suc n ≡ m * 256 ^ n * 256
wider n m = omega (arith, ap (λ (t : ℕ). m * t) (pow-suc 256 n))

-- The low `n` octets of `v` are those of the remainder `r`.
read_octets-to_be :
    (n val v q r : ℕ)
    → v ≡ q * 256 ^ n + r
    → r < 256 ^ n
    → val * 256 ^ n + r < 2 ^ 64
    → read_octets val (to_be n v) ≡ val * 256 ^ n + r
unfolding read_octets to_be
read_octets-to_be zero val v q r e small fits = omega (arith, small)
read_octets-to_be (suc n) val v q r e small fits =
    let p = wider n q in
    let p' = wider n val in
    let again =
      read_octets-to_be n val (v / 256) q (r / 256) (omega (arith, e, p))
        (omega (arith, small, pow-suc 256 n)) (omega (arith, fits, p')) in
    read_octets-snoc val (to_be n (v / 256)) (v % 256)
    ∙ rw again (
        shift_or (val * 256 ^ n + r / 256) (v % 256) (omega (arith, fits, p', e, p)) (omega arith)
        ∙ omega (arith, p', e, p))

-- A first byte and the octets behind it, where the first byte tells their number.
octets_read :
    (n first w q r : ℕ) (rest : List ℕ)
    → extra_of (first / 2 ^ 6) ≡ n
    → w ≡ q * 256 ^ n + r
    → r < 256 ^ n
    → first % 64 * 256 ^ n + r < 2 ^ 64
    → read_varint_buf (first ∷ (to_be n w ++ rest)) ≡ some (first % 64 * 256 ^ n + r, 1 + n)
unfolding read_varint_buf
octets_read n first w q r rest extra e small fits =
    let whole : take (length (to_be n w)) (to_be n w ++ rest) ≡ to_be n w =
      take-append (to_be n w) rest in
    let front : take n (to_be n w ++ rest) ≡ to_be n w = rw (length-to_be n w) at whole in
    rw (extra, front, bit_and_six first, read_octets-to_be n (first % 64) w q r e small fits)
      (ground (arith, length-append (to_be n w) rest, length-to_be n w))

-- The first byte's two upper bits tell how many bytes follow.
extra_lem :
    (first : ℕ)
    → (first / 64 ≡ 0 → extra_of (first / 2 ^ 6) ≡ 0)
      × (first / 64 ≡ 1 → extra_of (first / 2 ^ 6) ≡ 1)
      × (first / 64 ≡ 2 → extra_of (first / 2 ^ 6) ≡ 3)
      × (first / 64 ≡ 3 → extra_of (first / 2 ^ 6) ≡ 7)
unfolding extra_of
extra_lem first = (λ e. rw e, λ e. rw e, λ e. rw e, λ e. rw e)

one_read : (v : ℕ) (rest : List ℕ) → v < 2 ^ 6 → read_varint_buf (v % 256 ∷ rest) ≡ some (v, 1)
unfolding to_be
one_read v rest h =
    octets_read 0 (v % 256) 0 0 0 rest ((extra_lem (v % 256)).0 (omega (arith, h))) refl
      (omega arith) (omega arith)
    ∙ ap (λ x. some (x, 1)) (omega (arith, h))

two_read :
    (v : ℕ) (rest : List ℕ)
    → v < 2 ^ 14
    → read_varint_buf (to_be 2 (v + 2 ^ 14) ++ rest) ≡ some (v, 2)
unfolding to_be
two_read v rest h =
    let w = v + 2 ^ 14 in
    octets_read 1 (w / 256 % 256) w (w / 256) (w % 256) rest
      ((extra_lem (w / 256 % 256)).1 (omega (arith, h))) (omega arith) (omega arith) (omega arith)
    ∙ ap (λ x. some (x, 2)) (omega (arith, h))

four_read :
    (v : ℕ) (rest : List ℕ)
    → v < 2 ^ 30
    → read_varint_buf (to_be 4 (v + 2 ^ 31) ++ rest) ≡ some (v, 4)
unfolding to_be
four_read v rest h =
    let w = v + 2 ^ 31 in
    octets_read 3 (w / 256 / 256 / 256 % 256) w (w / 256 ^ 3) (w % 256 ^ 3) rest
      ((extra_lem (w / 256 / 256 / 256 % 256)).2 (omega (arith, h))) (omega arith) (omega arith)
      (omega arith)
    ∙ ap (λ x. some (x, 4)) (omega (arith, h))

eight_read :
    (v : ℕ) (rest : List ℕ)
    → v < 2 ^ 62
    → read_varint_buf (to_be 8 (v + 3 * 2 ^ 62) ++ rest) ≡ some (v, 8)
unfolding to_be
eight_read v rest h =
    let w = v + 3 * 2 ^ 62 in
    let f = w / 256 / 256 / 256 / 256 / 256 / 256 / 256 % 256 in
    octets_read 7 f w (w / 256 ^ 7) (w % 256 ^ 7) rest ((extra_lem f).3 (omega (arith, h)))
      (omega arith) (omega arith) (omega arith)
    ∙ ap (λ x. some (x, 8)) (omega (arith, h))

-- An integer below 2^62 reads back from its encoding, whatever stands behind it, with the number
-- of bytes that the encoding has.
pub read_varint_buf-put_varint :
    (v : ℕ) (rest : List ℕ)
    → v < 2 ^ 62
    → read_varint_buf (put_varint v ++ rest) ≡ some (v, length (put_varint v))
unfolding put_varint
read_varint_buf-put_varint v rest h = elim (Bool-cases (ltb v (2 ^ 6))) [
  | inl s1 ↦ rw s1 (one_read v rest (ground (arith, s1)))
  | inr l1 ↦ elim (Bool-cases (ltb v (2 ^ 14))) [
    | inl s2 ↦
        let small : v < 2 ^ 14 = ground (arith, s2) in
        let word : bit_or (v % 2 ^ 16) 0x4000 ≡ v + 2 ^ 14 =
          let same : v % 2 ^ 16 ≡ v = omega (arith, small) in rw same (bit_or_below 14 v 1 small) in
        rw (l1, s2, word, length-to_be 2 (v + 2 ^ 14)) (two_read v rest small)
    | inr l2 ↦ elim (Bool-cases (ltb v (2 ^ 30))) [
      | inl s3 ↦
          let small : v < 2 ^ 30 = ground (arith, s3) in
          let word : bit_or (v % 2 ^ 32) 0x80000000 ≡ v + 2 ^ 31 =
            let same : v % 2 ^ 32 ≡ v = omega (arith, small) in
            rw same (bit_or_below 31 v 1 (omega (arith, small))) in
          rw (l1, l2, s3, word, length-to_be 4 (v + 2 ^ 31)) (four_read v rest small)
      | inr l3 ↦
          let word : bit_or v 0xC000000000000000 ≡ v + 3 * 2 ^ 62 = bit_or_below 62 v 3 h in
          rw (l1, l2, l3, word, length-to_be 8 (v + 3 * 2 ^ 62)) (eight_read v rest h)
    ]
  ]
]
