-- ===== src/Shadowsocks/Udp/RoundTrip.antt =====
-- A packet that was encrypted decrypts to its address and payload.
use mathlib.Core.List.{append_assoc}
use jamm_vpn.Base.{
  ℕ, ◌+◌, ◌%◌, ◌^◌, ◌<◌, ◌≤◌, ◌≡◌, refl, sym, ◌∙◌, ap, List, ◌++◌, some, arith, length, min, take,
  drop, ltb, false, length-append, take-append, drop-append, take_all, length-take,
}
use jamm_vpn.Base.Octets.{to_be, from_be, length-to_be, from_be-to_be}
use jamm_vpn.Base.Text.{bytes}
use jamm_vpn.Base.Utf8.{from_utf8_lossy-valid}
use jamm_vpn.Error.{ok}
use jamm_vpn.Addr.{v4, v6, Target, domain, socket, IsWireTarget}
use jamm_vpn.Shadowsocks.Crypto.{Primitives, Method, key_len, salt_len, session_subkey}
use jamm_vpn.Shadowsocks.Crypto.Laws.{IsPrimitives}
use jamm_vpn.Shadowsocks.Crypto.Sealed.{key_size-cipher, started, new-started, seal-open_sealed}
use jamm_vpn.Shadowsocks.Udp.{encode_address, parse_address, encrypt_packet, decrypt_packet}

-- An address, a port and the rest, taken apart.
module _ (n : ℕ) (o : List ℕ) (p : ℕ) (rest : List ℕ) (len : length o ≡ n) where
  abbrev whole : List ℕ
  whole = o ++ (to_be 2 p ++ rest)

  slice_front : take n whole ≡ o
  slice_front = ap (λ k. take k whole) (sym len) ∙ take-append o (to_be 2 p ++ rest)

  slice_behind : drop n whole ≡ to_be 2 p ++ rest
  slice_behind = ap (λ k. drop k whole) (sym len) ∙ drop-append o (to_be 2 p ++ rest)

  slice_port : p < 2 ^ 16 → from_be (take 2 (drop n whole)) ≡ p
  slice_port h =
      ap (λ t. from_be (take 2 t)) slice_behind
      ∙ ap (λ k. from_be (take k (to_be 2 p ++ rest))) (sym (length-to_be 2 p))
      ∙ ap from_be (take-append (to_be 2 p) rest)
      ∙ from_be-to_be 2 p (omega (arith, h))

  slice_rest : drop (n + 2) whole ≡ rest
  slice_rest =
      ap (λ k. drop (n + 2) k) (sym (append_assoc o (to_be 2 p) rest))
      ∙ ap (λ k. drop k ((o ++ to_be 2 p) ++ rest))
          (sym (
            length-append o (to_be 2 p)
            ∙ ap (λ k. length o + k) (length-to_be 2 p)
            ∙ ap (λ k. k + 2) len))
      ∙ drop-append (o ++ to_be 2 p) rest

  slice_length : length whole ≡ n + 2 + length rest
  slice_length = omega (
    arith,
    len,
    length-append o (to_be 2 p ++ rest),
    length-append (to_be 2 p) rest,
    length-to_be 2 p,
  )

-- An address that was encoded reads back, and leaves what stands behind it.
pub parse_address-encode_address :
    (t : Target) (rest : List ℕ)
    → IsWireTarget t
    → parse_address (encode_address t ++ rest) ≡ ok (t, rest)
unfolding parse_address encode_address
parse_address-encode_address (domain host p) rest (short, text, port) =
    let fit : min (length host) 255 ≡ length host = omega (arith, short) in
    let byte : length host % 256 ≡ length host = omega (arith, short) in
    let long : ltb (length (host ++ (to_be 2 p ++ rest)) + 2) (2 + length host + 2) ≡ false =
      ground (arith, slice_length (length host) host p rest refl) in
    rw
      (
        fit,
        byte,
        take_all host,
        append_assoc host (to_be 2 p) rest,
        long,
        slice_front (length host) host p rest refl,
        slice_port (length host) host p rest refl port,
        slice_rest (length host) host p rest refl,
        from_utf8_lossy-valid host text,
      )
      refl
parse_address-encode_address (socket (v4 a) p) rest (small, port) =
    let o = to_be 4 a in
    let len = length-to_be 4 a in
    let long : ltb (length (o ++ (to_be 2 p ++ rest)) + 1) 7 ≡ false =
      ground (arith, slice_length 4 o p rest len) in
    rw
      (
        append_assoc o (to_be 2 p) rest,
        long,
        slice_front 4 o p rest len,
        slice_port 4 o p rest len port,
        slice_rest 4 o p rest len,
        from_be-to_be 4 a (omega (arith, small)),
      )
      refl
parse_address-encode_address (socket (v6 a) p) rest (small, port) =
    let o = to_be 16 a in
    let len = length-to_be 16 a in
    let long : ltb (length (o ++ (to_be 2 p ++ rest)) + 1) 19 ≡ false =
      ground (arith, slice_length 16 o p rest len) in
    rw
      (
        append_assoc o (to_be 2 p) rest,
        long,
        slice_front 16 o p rest len,
        slice_port 16 o p rest len port,
        slice_rest 16 o p rest len,
        from_be-to_be 16 a (omega (arith, small)),
      )
      refl

pub encode_address_short : (t : Target) → length (encode_address t) ≤ 2 ^ 16
unfolding encode_address
encode_address_short (domain host p) = omega (
  arith,
  length-append (take (min (length host) 255) host) (to_be 2 p),
  length-take (min (length host) 255) host,
  length-to_be 2 p,
)
encode_address_short (socket (v4 a) p) =
    omega (arith, length-append (to_be 4 a) (to_be 2 p), length-to_be 4 a, length-to_be 2 p)
encode_address_short (socket (v6 a) p) =
    omega (arith, length-append (to_be 16 a) (to_be 2 p), length-to_be 16 a, length-to_be 2 p)

pub session_subkey-length :
    (P : Primitives)
    → IsPrimitives P
    → (m : Method) (master salt : List ℕ) → length (session_subkey P m master salt) ≡ key_len m
unfolding session_subkey
session_subkey-length P laws m master salt =
    laws.hkdf_len salt master (bytes "ss-subkey") (key_len m)

-- A salt of the method's length, an address of Rust's types with a domain of at most 255 bytes, and
-- a payload of less than 2 GiB are encrypted, and the packet decrypts to the address and the payload.
pub decrypt_packet-encrypt_packet :
    (P : Primitives) (m : Method) (master salt : List ℕ) (t : Target) (payload : List ℕ)
    → IsPrimitives P
    → length salt ≡ salt_len m
    → IsWireTarget t
    → length payload < 2 ^ 31
    → (packet : List ℕ) × (encrypt_packet P (some salt) m master t payload ≡ ok packet)
      × (decrypt_packet P m master packet ≡ ok (t, payload))
unfolding encrypt_packet decrypt_packet
decrypt_packet-encrypt_packet P m master salt t payload laws salted wire short =
    let subkey = session_subkey P m master salt in
    let sized : length subkey ≡ key_len m = session_subkey-length P laws m master salt in
    let pt = encode_address t ++ payload in
    let small : length pt < 2 ^ 32 =
      omega (arith, short, length-append (encode_address t) payload, encode_address_short t) in
    let (ct, sealed, opened, _) =
      seal-open_sealed P laws (started m subkey) pt (sized ∙ sym (key_size-cipher m), refl) small in
    let long : ltb (length (salt ++ ct)) (salt_len m) ≡ false =
      ground (arith, salted, length-append salt ct) in
    let front : take (salt_len m) (salt ++ ct) ≡ salt =
      ap (λ k. take k (salt ++ ct)) (sym salted) ∙ take-append salt ct in
    let back : drop (salt_len m) (salt ++ ct) ≡ ct =
      ap (λ k. drop k (salt ++ ct)) (sym salted) ∙ drop-append salt ct in
    let started_here = new-started P laws m subkey sized in
    (
      salt ++ ct,
      rw (started_here, sealed) refl,
      rw (long, front, back, started_here, opened) (parse_address-encode_address t payload wire),
    )
