-- ===== src/Geo/Protobuf.antt =====
-- crates/core/src/geo/protobuf.rs: a reader of the protobuf wire format. A `Reader` is what lies from
-- its position to the end of its buffer: the methods go forward only and never pass the end.
pub mod Progress
use Prim.Native.Nat.{bit_and, bit_or}
use jamm_vpn.Base.{
  ℕ, zero, suc, ◌+◌, ◌*◌, ◌/◌, ◌%◌, ◌^◌, ◌≡◌, Bool, true, false, List, [], ◌∷◌, ltb, leb, ◌==◌,
  if◌then◌else◌, length, take, drop,
}
use jamm_vpn.Base.Text.{Str}
use jamm_vpn.Base.Utf8.{from_utf8_lossy}
use jamm_vpn.Error.{Result, ok, err, ◌>>=◌}

-- `out_of_fuel` is no value of the program: the loop below reports it when its bound is too small.
pub data GeoError : Type 0 where
  truncated malformed out_of_fuel : GeoError
  io : Str → GeoError

abbrev pub Reader : Type 0
Reader = List ℕ

abbrev pub Read : Type 0 → Type 0
Read A = Reader → Result GeoError (A × Reader)

-- The loop of `read_varint`: what is read so far, and its shift.
unfoldable pub varint_from : ℕ → ℕ → Read ℕ
varint_from result shift [] = err truncated
varint_from result shift (byte ∷ rest) =
    let result' = bit_or result (bit_and byte 0x7f * 2 ^ shift % 2 ^ 64) in
    let more = varint_from result' (shift + 7) rest in
    if leb 64 shift
    then err malformed
    else if bit_and byte 0x80 == 0
    then ok (result', rest)
    else more

unfoldable pub read_varint : Read ℕ
read_varint = varint_from 0 0

-- The field's number and its wire type.
unfoldable pub read_tag : Reader → Result GeoError (ℕ × ℕ × Reader)
read_tag r = do
  (key, r) ← read_varint r
  if key / 2 ^ 3 == 0 then err malformed else ok (key / 2 ^ 3, bit_and key 0x07, r)

-- `buf[pos .. pos + len]`
unfoldable pub split_at : ℕ → Read (List ℕ)
split_at len r = if ltb (length r) len then err truncated else ok (take len r, drop len r)

unfoldable pub read_bytes : Read (List ℕ)
read_bytes r = do (len, r) ← read_varint r; split_at len r

unfoldable pub read_string : Read Str
read_string r = do (b, r) ← read_bytes r; ok (from_utf8_lossy b, r)

unfoldable pub advance : ℕ → Reader → Result GeoError Reader
advance n r = if ltb (length r) n then err truncated else ok (drop n r)

-- WIRE_VARINT 0, WIRE_I64 1, WIRE_LEN 2, WIRE_I32 5
unfoldable pub skip : ℕ → Reader → Result GeoError Reader
skip wire r =
    if wire == 0
    then (do (v, r) ← read_varint r; ok r)
    else if wire == 1
    then advance 8 r
    else if wire == 2
    then (do (b, r) ← read_bytes r; ok r)
    else if wire == 5
    then advance 4 r
    else err malformed

-- `while !r.eof() { let (field, wire) = r.read_tag()?; … }`: the messages' common loop.
unfoldable pub each_field {ℓ} :
    {S : Type ℓ}
    → (S → ℕ → ℕ → Reader → Result GeoError (S × Reader))
    → ℕ
    → S
    → Reader
    → Result GeoError S
each_field step fuel s [] = ok s
each_field step zero s (b ∷ r) = err out_of_fuel
each_field step (suc fuel) s (b ∷ r) = do
  (field, wire, r) ← read_tag (b ∷ r)
  (s, r) ← step s field wire r
  each_field step fuel s r

-- Every round takes a byte, so the length of the message bounds the rounds.
abbrev pub each {ℓ} :
    {S : Type ℓ}
    → (S → ℕ → ℕ → Reader → Result GeoError (S × Reader))
    → S
    → Reader
    → Result GeoError S
each step s r = each_field step (length r) s r
