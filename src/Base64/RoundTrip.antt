-- ===== src/Base64/RoundTrip.antt =====
-- What crates/core/src/base64.rs encodes, it decodes.
use jamm_vpn.Base.{ℕ, ◌+◌, ◌*◌, ◌/◌, ◌%◌, ◌^◌, ◌<◌, ◌≡◌, ap, List, [], ◌∷◌, arith, All}
use jamm_vpn.Base.Text.{Str}
use jamm_vpn.Error.{ok}
use jamm_vpn.Base64.{decode_bytes, decode_loose, letter, encode_standard}
use jamm_vpn.Base64.Sextets.{
  two_equal, three_equal, decode_end, decode_pad, decode_letter, first, second, third, fourth,
  out_first, out_second, out_third,
}

pub decode_bytes-encode_standard :
    (bs : List ℕ) (buf : ℕ)
    → All (λ b. b < 256) bs
    → decode_bytes buf 0 (encode_standard bs) ≡ ok bs
unfolding encode_standard
decode_bytes-encode_standard [] buf h = decode_end buf 0
decode_bytes-encode_standard (b0 ∷ []) buf (h0, h) =
    let v1 = b0 % 4 * 16 + 0 / 16 in
    let w2 = (buf * 2 ^ 6 % 2 ^ 32 + b0 / 4) * 2 ^ 6 % 2 ^ 32 + v1 in
    let pad : Str = b'=' ∷ b'=' ∷ [] in
    rw
      (
        first b0 0 0 h0 (omega arith) (omega arith),
        second b0 0 0 h0 (omega arith) (omega arith),
        decode_letter buf 0 (b0 / 4) (letter v1 ∷ pad) (omega (arith, h0)),
        decode_letter (buf * 2 ^ 6 % 2 ^ 32 + b0 / 4) 6 v1 pad (omega (arith, h0)),
      )
      (rw (decode_pad w2 4 (b'=' ∷ []), decode_pad w2 4 [], decode_end w2 4)
        (ap (λ x. ok (x ∷ [])) (out_first buf b0 0 h0 (omega arith))))
decode_bytes-encode_standard (b0 ∷ b1 ∷ []) buf (h0, (h1, h)) =
    let v1 = b0 % 4 * 16 + b1 / 16 in
    let v2 = b1 % 16 * 4 + 0 / 64 in
    let w1 = buf * 2 ^ 6 % 2 ^ 32 + b0 / 4 in
    let w2 = w1 * 2 ^ 6 % 2 ^ 32 + v1 in
    let w3 = w2 * 2 ^ 6 % 2 ^ 32 + v2 in
    let pad : Str = b'=' ∷ [] in
    rw
      (
        first b0 b1 0 h0 h1 (omega arith),
        second b0 b1 0 h0 h1 (omega arith),
        third b0 b1 0 h0 h1 (omega arith),
        decode_letter buf 0 (b0 / 4) (letter v1 ∷ letter v2 ∷ pad) (omega (arith, h0)),
        decode_letter w1 6 v1 (letter v2 ∷ pad) (omega (arith, h0, h1)),
        decode_letter w2 4 v2 pad (omega (arith, h1)),
      )
      (rw (decode_pad w3 2 [], decode_end w3 2)
        (two_equal (out_first buf b0 (b1 / 16) h0 (omega (arith, h1)))
          (out_second w1 b0 b1 0 h1 (omega arith))))
decode_bytes-encode_standard (b0 ∷ b1 ∷ b2 ∷ bs) buf (h0, (h1, (h2, h))) =
    let v1 = b0 % 4 * 16 + b1 / 16 in
    let v2 = b1 % 16 * 4 + b2 / 64 in
    let w1 = buf * 2 ^ 6 % 2 ^ 32 + b0 / 4 in
    let w2 = w1 * 2 ^ 6 % 2 ^ 32 + v1 in
    let w3 = w2 * 2 ^ 6 % 2 ^ 32 + v2 in
    let w4 = w3 * 2 ^ 6 % 2 ^ 32 + b2 % 64 in
    let rest = encode_standard bs in
    rw
      (
        first b0 b1 b2 h0 h1 h2,
        second b0 b1 b2 h0 h1 h2,
        third b0 b1 b2 h0 h1 h2,
        fourth b0 b1 b2 h0 h1 h2,
        decode_letter buf 0 (b0 / 4) (letter v1 ∷ letter v2 ∷ letter (b2 % 64) ∷ rest)
            (omega (arith, h0)),
        decode_letter w1 6 v1 (letter v2 ∷ letter (b2 % 64) ∷ rest) (omega (arith, h0, h1)),
        decode_letter w2 4 v2 (letter (b2 % 64) ∷ rest) (omega (arith, h1, h2)),
        decode_letter w3 2 (b2 % 64) rest (omega arith),
        decode_bytes-encode_standard bs w4 h,
      )
      (three_equal (out_first buf b0 (b1 / 16) h0 (omega (arith, h1)))
        (out_second w1 b0 b1 (b2 / 64) h1 (omega (arith, h2))) (out_third w2 b1 b2 h2))

-- Bytes that were encoded, with padding, decode to themselves.
pub decode_loose-encode_standard :
    (bs : List ℕ) → All (λ b. b < 256) bs → decode_loose (encode_standard bs) ≡ ok bs
unfolding decode_loose
decode_loose-encode_standard bs h = decode_bytes-encode_standard bs 0 h
