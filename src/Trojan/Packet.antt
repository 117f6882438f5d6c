-- ===== src/Trojan/Packet.antt =====
-- A UDP packet of Trojan that was encoded reads back from a stream.
use mathlib.Core.List.{append_assoc}
use jamm_vpn.Base.{
  ℕ, ◌%◌, ◌^◌, ◌<◌, ◌≡◌, refl, sym, List, [], ◌∷◌, ◌++◌, arith, length, min, length-append,
  take-append, drop-append, take_all,
}
use jamm_vpn.Base.Octets.{to_be, from_be, length-to_be, from_be-to_be}
use jamm_vpn.Base.Text.{str_eq}
use jamm_vpn.Base.Utf8.{from_utf8_lossy-valid}
use jamm_vpn.Error.{ok}
use jamm_vpn.Addr.{v4, v6, Target, domain, socket, IsWireTarget}
use jamm_vpn.Trojan.{
  crlf, encode_address, encode_udp_packet, read_exact, read_uint, read_host, read_address,
  read_payload, read_udp_packet,
}

read_exact-append :
    (n : ℕ) (bs rest : List ℕ) → length bs ≡ n → read_exact n (bs ++ rest) ≡ ok (bs, rest)
unfolding read_exact
read_exact-append n bs rest e =
    rw (sym e, take-append bs rest, drop-append bs rest) (ground (arith, length-append bs rest))

read_uint-to_be :
    (n v : ℕ) (rest : List ℕ) → v < 256 ^ n → read_uint n (to_be n v ++ rest) ≡ ok (v, rest)
unfolding read_uint
read_uint-to_be n v rest h =
    rw (read_exact-append n (to_be n v) rest (length-to_be n v), from_be-to_be n v h)

-- The one byte in front.
read_uint-byte : (b : ℕ) (rest : List ℕ) → read_uint 1 (b ∷ rest) ≡ ok (b, rest)
unfolding read_uint from_be
read_uint-byte b rest = rw (read_exact-append 1 (b ∷ []) rest refl) (ground arith)

-- An address of Rust's types, its domain of at most 255 bytes, that was encoded reads back as the
-- same target, and leaves what stands behind it.
pub read_address-encode_address :
    (t : Target) (rest : List ℕ)
    → IsWireTarget t
    → read_address (encode_address t ++ rest) ≡ ok (t, rest)
unfolding read_address encode_address read_host
read_address-encode_address (domain host p) rest (short, text, port) =
    let len : min (length host) 255 ≡ length host = omega (arith, short) in
    let byte : length host % 256 ≡ length host = omega (arith, short) in
    rw (
      len,
      byte,
      take_all host,
      read_uint-byte 3 (length host ∷ ((host ++ to_be 2 p) ++ rest)),
      read_uint-byte (length host) ((host ++ to_be 2 p) ++ rest),
      append_assoc host (to_be 2 p) rest,
      read_exact-append (length host) host (to_be 2 p ++ rest) refl,
      read_uint-to_be 2 p rest (omega (arith, port)),
      from_utf8_lossy-valid host text,
    )
read_address-encode_address (socket (v4 a) p) rest (small, port) = rw (
  read_uint-byte 1 ((to_be 4 a ++ to_be 2 p) ++ rest),
  append_assoc (to_be 4 a) (to_be 2 p) rest,
  read_exact-append 4 (to_be 4 a) (to_be 2 p ++ rest) (length-to_be 4 a),
  read_uint-to_be 2 p rest (omega (arith, port)),
  from_be-to_be 4 a (omega (arith, small)),
)
read_address-encode_address (socket (v6 a) p) rest (small, port) = rw (
  read_uint-byte 4 ((to_be 16 a ++ to_be 2 p) ++ rest),
  append_assoc (to_be 16 a) (to_be 2 p) rest,
  read_exact-append 16 (to_be 16 a) (to_be 2 p ++ rest) (length-to_be 16 a),
  read_uint-to_be 2 p rest (omega (arith, port)),
  from_be-to_be 16 a (omega (arith, small)),
)

-- A packet of less than 2^16 bytes, to an address of Rust's types whose domain has at most 255
-- bytes, reads back with its target, and leaves the stream behind it.
pub read_udp_packet-encode_udp_packet :
    (t : Target) (payload rest : List ℕ)
    → IsWireTarget t
    → length payload < 2 ^ 16
    → read_udp_packet (encode_udp_packet t payload ++ rest) ≡ ok ((t, payload), rest)
unfolding read_udp_packet encode_udp_packet read_payload str_eq
read_udp_packet-encode_udp_packet t payload rest h small =
    let size : length payload % 2 ^ 16 ≡ length payload = omega (arith, small) in
    let len = to_be 2 (length payload) in
    rw (
      size,
      append_assoc (encode_address t) (len ++ (crlf ++ payload)) rest,
      read_address-encode_address t ((len ++ (crlf ++ payload)) ++ rest) h,
      append_assoc len (crlf ++ payload) rest,
      read_uint-to_be 2 (length payload) (crlf ++ (payload ++ rest)) (omega (arith, small)),
      read_exact-append 2 crlf (payload ++ rest) refl,
      read_exact-append (length payload) payload rest refl,
    )
