-- ===== src/Trojan.antt =====
-- crates/net/src/trojan.rs: the framing of Trojan. The password's hash, `sha224`, is a parameter. A
-- reader is what is left of its stream, which ends there.
pub mod Packet
use Prim.Native.Nat.{bit_and}
use jamm_vpn.Base.{
  ℕ, ◌+◌, ◌*◌, ◌/◌, ◌%◌, ◌-◌, ◌^◌, ◌≡◌, Bool, not, List, [], ◌∷◌, ◌++◌, ltb, leb, ◌==◌,
  if◌then◌else◌, length, take, drop, min,
}
use jamm_vpn.Base.Octets.{to_be, from_be}
use jamm_vpn.Base.Text.{Str, str_eq}
use jamm_vpn.Base.Utf8.{from_utf8_lossy}
use jamm_vpn.Error.{Result, ok, err, ◌>>=◌}
use jamm_vpn.Addr.{IpAddr, v4, v6, Target, domain, socket}

pub data TrojanError : Type 0 where
  unexpected_eof unknown_atyp no_crlf : TrojanError

abbrev pub cmd_connect : ℕ
cmd_connect = 0x01

abbrev pub cmd_udp : ℕ
cmd_udp = 0x03

abbrev pub crlf : List ℕ
crlf = 13 ∷ 10 ∷ []

-- What `encode_address` appends.
unfoldable pub encode_address : Target → List ℕ
encode_address (domain host p) =
    let len = min (length host) 255 in 3 ∷ len % 256 ∷ (take len host ++ to_be 2 p)
encode_address (socket (v4 a) p) = 1 ∷ (to_be 4 a ++ to_be 2 p)
encode_address (socket (v6 a) p) = 4 ∷ (to_be 16 a ++ to_be 2 p)

unfoldable pub hex_digit : ℕ → ℕ
hex_digit n = if leb n 9 then b'0' + n else b'a' + (n - 10)

-- Two digits for each byte of the digest.
unfoldable pub hex : List ℕ → Str
hex [] = []
hex (byte ∷ digest) = hex_digit (byte / 2 ^ 4) ∷ hex_digit (bit_and byte 0x0f) ∷ hex digest

unfoldable pub encode_request_cmd : (Str → List ℕ) → Str → Target → ℕ → List ℕ
encode_request_cmd sha224 password target cmd =
    hex (sha224 password) ++ (crlf ++ (cmd ∷ (encode_address target ++ crlf)))

unfoldable pub encode_request : (Str → List ℕ) → Str → Target → List ℕ
encode_request sha224 password target = encode_request_cmd sha224 password target cmd_connect

unfoldable pub encode_request_udp : (Str → List ℕ) → Str → Target → List ℕ
encode_request_udp sha224 password target = encode_request_cmd sha224 password target cmd_udp

unfoldable pub encode_udp_packet : Target → List ℕ → List ℕ
encode_udp_packet target payload =
    encode_address target ++ (to_be 2 (length payload % 2 ^ 16) ++ (crlf ++ payload))

-- `read_exact` of `n` bytes.
unfoldable pub read_exact : ℕ → List ℕ → Result TrojanError (List ℕ × List ℕ)
read_exact n r = if ltb (length r) n then err unexpected_eof else ok (take n r, drop n r)

-- `read_u8` and `read_u16` are `read_uint` of 1 and 2 bytes.
unfoldable pub read_uint : ℕ → List ℕ → Result TrojanError (ℕ × List ℕ)
read_uint n r = do (bs, r) ← read_exact n r; ok (from_be bs, r)

unfoldable pub read_host : ℕ → List ℕ → Result TrojanError (Target × List ℕ)
read_host atyp r =
    if atyp == 0x01
    then (do (o, r) ← read_exact 4 r; (p, r) ← read_uint 2 r; ok (socket (v4 (from_be o)) p, r))
    else if atyp == 0x04
    then (do (o, r) ← read_exact 16 r; (p, r) ← read_uint 2 r; ok (socket (v6 (from_be o)) p, r))
    else if atyp == 0x03
    then (do
      (len, r) ← read_uint 1 r
      (host, r) ← read_exact len r
      (p, r) ← read_uint 2 r
      ok (domain (from_utf8_lossy host) p, r))
    else err unknown_atyp

unfoldable pub read_address : List ℕ → Result TrojanError (Target × List ℕ)
read_address r = do (atyp, r) ← read_uint 1 r; read_host atyp r

-- Behind the address of a packet.
unfoldable pub read_payload : Target → List ℕ → Result TrojanError ((Target × List ℕ) × List ℕ)
read_payload target r = do
  (len, r) ← read_uint 2 r
  (sep, r) ← read_exact 2 r
  (if not (str_eq sep crlf)
      then err no_crlf
      else (do (payload, r) ← read_exact len r; ok ((target, payload), r)))

unfoldable pub read_udp_packet : List ℕ → Result TrojanError ((Target × List ℕ) × List ℕ)
read_udp_packet r = do (target, r) ← read_address r; read_payload target r
