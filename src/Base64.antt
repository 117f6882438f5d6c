-- ===== src/Base64.antt =====
-- crates/core/src/base64.rs. The table of the decoder is a function of the byte.
pub mod Sextets
pub mod RoundTrip
use Prim.Native.Nat.{bit_and, bit_or}
use jamm_vpn.Base.{
  ℕ, zero, suc, ◌+◌, ◌*◌, ◌/◌, ◌%◌, ◌-◌, ◌^◌, ◌≡◌, Bool, true, false, ◌||◌, Option, none, some,
  List, [], ◌∷◌, ◌++◌, leb, ◌==◌, if◌then◌else◌, nth,
}
use jamm_vpn.Base.Text.{Str, bytes}
use jamm_vpn.Base.Utf8.{is_utf8}
use jamm_vpn.Error.{ParseError, base64, utf8, Result, ok, err, ◌>>=◌}
use jamm_vpn.Trojan.{hex_digit}

abbrev pub invalid : ℕ
invalid = 0xff

abbrev pub alphabet : Str
alphabet = bytes "ABCDEFGHIJKLMNOPQRSTUVWXYZabcdefghijklmnopqrstuvwxyz0123456789+/"

-- Where a byte stands in a text, from `i` on.
unfoldable pub position : ℕ → ℕ → Str → ℕ
position i c [] = invalid
position i c (x ∷ xs) = elim (x == c) [ true ↦ i | false ↦ position (i + 1) c xs ]

unfoldable pub decode_table : ℕ → ℕ
unfolding position
decode_table c = if c == b'-' then 62 else if c == b'_' then 63 else position 0 c alphabet

-- Padding and white space.
unfoldable pub is_skipped : ℕ → Bool
is_skipped b = b == b'=' || (b == 13 || (b == 10 || (b == 32 || b == 9)))

-- "недопустимый байт: 0x" and the byte's two digits.
unfoldable pub invalid_byte : ℕ → Str
unfolding hex_digit
invalid_byte b =
    (208 ∷ 189 ∷ 208 ∷ 181 ∷ 208 ∷ 180 ∷ 208 ∷ 190 ∷ 208 ∷ 191 ∷ 209 ∷ 131 ∷ 209 ∷ 129 ∷ 209 ∷ 130
      ∷ 208 ∷ 184 ∷ 208 ∷ 188 ∷ 209 ∷ 139 ∷ 208 ∷ 185 ∷ 32 ∷ 208 ∷ 177 ∷ 208 ∷ 176 ∷ 208 ∷ 185 ∷ 209
      ∷ 130 ∷ 58 ∷ 32 ∷ 48 ∷ 120 ∷ [])
    ++ (hex_digit (b / 2 ^ 4) ∷ hex_digit (b % 2 ^ 4) ∷ [])

-- The loop of `decode_loose`, from the bits gathered so far.
unfoldable pub decode_bytes : ℕ → ℕ → Str → Result ParseError (List ℕ)
unfolding is_skipped decode_table invalid_byte
decode_bytes buf bits [] = ok []
decode_bytes buf bits (b ∷ bs) = elim (is_skipped b) [
  | true ↦ decode_bytes buf bits bs
  | false ↦ elim (decode_table b == invalid) [
    | true ↦ err (base64 (invalid_byte b))
    | false ↦
        let buf = bit_or (buf * 2 ^ 6 % 2 ^ 32) (decode_table b) in
        elim (leb 8 (bits + 6)) [
          | true ↦ do
            rest ← decode_bytes buf (bits + 6 - 8) bs
            ok (buf / 2 ^ (bits + 6 - 8) % 256 ∷ rest)
          | false ↦ decode_bytes buf (bits + 6) bs
        ]
  ]
]

unfoldable pub decode_loose : Str → Result ParseError (List ℕ)
unfolding decode_bytes
decode_loose input = decode_bytes 0 0 input

unfoldable pub decode_to_string : Str → Result ParseError Str
unfolding decode_loose
decode_to_string input = do bs ← decode_loose input; (if is_utf8 bs then ok bs else err utf8)

-- The letter of six bits.
unfoldable pub letter : ℕ → ℕ
letter v = elim (nth v alphabet) [ none ↦ 0 | some c ↦ c ]

-- The word of a chunk.
unfoldable pub chunk_word : ℕ → ℕ → ℕ → ℕ
chunk_word b0 b1 b2 = bit_or (bit_or (b0 * 2 ^ 16) (b1 * 2 ^ 8)) b2

unfoldable pub encode_standard : List ℕ → Str
unfolding letter chunk_word
encode_standard [] = []
encode_standard (b0 ∷ []) =
    let n = chunk_word b0 0 0 in
    letter (bit_and (n / 2 ^ 18) 63) ∷ letter (bit_and (n / 2 ^ 12) 63) ∷ b'=' ∷ b'=' ∷ []
encode_standard (b0 ∷ b1 ∷ []) =
    let n = chunk_word b0 b1 0 in
    letter (bit_and (n / 2 ^ 18) 63)
    ∷ letter (bit_and (n / 2 ^ 12) 63)
    ∷ letter (bit_and (n / 2 ^ 6) 63)
    ∷ b'='
    ∷ []
encode_standard (b0 ∷ b1 ∷ b2 ∷ rest) =
    let n = chunk_word b0 b1 b2 in
    letter (bit_and (n / 2 ^ 18) 63)
    ∷ letter (bit_and (n / 2 ^ 12) 63)
    ∷ letter (bit_and (n / 2 ^ 6) 63)
    ∷ letter (bit_and n 63)
    ∷ encode_standard rest
