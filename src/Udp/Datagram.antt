-- ===== src/Udp/Datagram.antt =====
-- What the parser of crates/net/src/udp.rs makes of a datagram that the encoder built, and of one
-- that ends behind its address type.
use mathlib.Core.List.{append_assoc}
use jamm_vpn.Base.{
  ℕ, suc, ◌+◌, ◌%◌, ◌^◌, ◌<◌, ◌≡◌, refl, sym, ◌↔◌, List, [], ◌∷◌, ◌++◌, arith, length, take, drop,
  min, length-append, take-append, drop-append, take_all, ltb, false,
}
use jamm_vpn.Base.Octets.{to_be, from_be, length-to_be, from_be-to_be}
use jamm_vpn.Base.Utf8.{from_utf8_lossy-valid}
use jamm_vpn.Error.{ok, err}
use jamm_vpn.Addr.{v4, v6, Target, domain, socket, IsWireTarget}
use jamm_vpn.Udp.{panicked, parse_host, parse_fields, parse_udp_datagram, encode_udp_datagram}

take_front : (n : ℕ) (xs ys : List ℕ) → length xs ≡ n → take n (xs ++ ys) ≡ xs
take_front n xs ys e = rw (sym e) (take-append xs ys)

drop_front : (n : ℕ) (xs ys : List ℕ) → length xs ≡ n → drop n (xs ++ ys) ≡ ys
drop_front n xs ys e = rw (sym e) (drop-append xs ys)

drop_five : (n a b c d e : ℕ) (xs : List ℕ) → drop (5 + n) (a ∷ b ∷ c ∷ d ∷ e ∷ xs) ≡ drop n xs
drop_five n a b c d e xs =
    let same : 5 + n ≡ suc (suc (suc (suc (suc n)))) = omega arith in rw same refl

-- A header's two fields and the payload behind it, as slices see them.
ip_fields :
    (n a p : ℕ) (payload : List ℕ)
    → a < 256 ^ n
    → p < 2 ^ 16
    → (from_be (take n (to_be n a ++ (to_be 2 p ++ payload))) ≡ a)
      × (from_be (take 2 (drop n (to_be n a ++ (to_be 2 p ++ payload)))) ≡ p)
ip_fields n a p payload small port =
    let body = to_be 2 p ++ payload in
    let len = length-to_be n a in
    (
      rw (take_front n (to_be n a) body len) (from_be-to_be n a small),
      rw (drop_front n (to_be n a) body len, take_front 2 (to_be 2 p) payload (length-to_be 2 p))
          (from_be-to_be 2 p (omega (arith, port))),
    )

-- How long a header and its payload are.
length_fields :
    (host payload : List ℕ) (p : ℕ)
    → length (host ++ (to_be 2 p ++ payload)) ≡ length host + 2 + length payload
length_fields host payload p = omega (
  arith,
  length-append host (to_be 2 p ++ payload),
  length-append (to_be 2 p) payload,
  length-to_be 2 p,
)

-- Behind the header stands the payload.
drop_fields :
    (n : ℕ) (host payload : List ℕ) (p : ℕ)
    → length host ≡ n
    → drop (n + 2) (host ++ (to_be 2 p ++ payload)) ≡ payload
drop_fields n host payload p e =
    let both : length (host ++ to_be 2 p) ≡ n + 2 =
      omega (arith, length-append host (to_be 2 p), length-to_be 2 p, e) in
    rw (sym (append_assoc host (to_be 2 p) payload))
      (drop_front (n + 2) (host ++ to_be 2 p) payload both)

-- A datagram for a target of Rust's types, its domain of at most 255 bytes, parses to fragment 0,
-- that target and an offset, and behind the offset stands the payload.
pub parse_udp_datagram-encode_udp_datagram :
    (t : Target) (payload : List ℕ)
    → IsWireTarget t
    → (off : ℕ) × (parse_udp_datagram (encode_udp_datagram t payload) ≡ ok (0, t, off))
      × (drop off (encode_udp_datagram t payload) ≡ payload)
unfolding parse_udp_datagram parse_fields parse_host encode_udp_datagram
parse_udp_datagram-encode_udp_datagram (domain host p) payload (small, text, port) =
    let len : min (length host) 255 ≡ length host = omega (arith, small) in
    let byte : length host % 256 ≡ length host = omega (arith, small) in
    let body = to_be 2 p ++ payload in
    let n = length host in
    let long : ltb (length (0 ∷ 0 ∷ 0 ∷ 3 ∷ n ∷ (host ++ body))) (5 + n + 2) ≡ false =
      ground (arith, length_fields host payload p) in
    let apart : 5 + n + 2 ≡ 5 + (n + 2) = omega arith in
    (
      5 + length host + 2,
      rw (
        len,
        byte,
        take_all host,
        long,
        drop_five n 0 0 0 3 n (host ++ body),
        take-append host body,
        drop-append host body,
        take_front 2 (to_be 2 p) payload (length-to_be 2 p),
        from_utf8_lossy-valid host text,
        from_be-to_be 2 p (omega (arith, port)),
      ),
      rw (len, byte, take_all host, apart, drop_five (n + 2) 0 0 0 3 n (host ++ body))
          (drop_fields n host payload p refl),
    )
parse_udp_datagram-encode_udp_datagram (socket (v4 a) p) payload (small, port) =
    let fields = ip_fields 4 a p payload (omega (arith, small)) port in
    let long : ltb (length (0 ∷ 0 ∷ 0 ∷ 1 ∷ (to_be 4 a ++ (to_be 2 p ++ payload)))) 10 ≡ false =
      ground (arith, length_fields (to_be 4 a) payload p, length-to_be 4 a) in
    (10, rw (long, fields.0, fields.1), drop_fields 4 (to_be 4 a) payload p (length-to_be 4 a))
parse_udp_datagram-encode_udp_datagram (socket (v6 a) p) payload (small, port) =
    let fields = ip_fields 16 a p payload (omega (arith, small)) port in
    let long : ltb (length (0 ∷ 0 ∷ 0 ∷ 4 ∷ (to_be 16 a ++ (to_be 2 p ++ payload)))) 22 ≡ false =
      ground (arith, length_fields (to_be 16 a) payload p, length-to_be 16 a) in
    (22, rw (long, fields.0, fields.1), drop_fields 16 (to_be 16 a) payload p (length-to_be 16 a))

-- The parser stops its task on exactly those datagrams of four bytes that announce a domain name.
pub parse_udp_datagram-panicked :
    (buf : List ℕ)
    → (parse_udp_datagram buf ≡ err panicked) ↔ ((length buf ≡ 4) × (drop 3 buf ≡ 3 ∷ []))
unfolding parse_udp_datagram parse_fields parse_host
parse_udp_datagram-panicked [] = ground arith
parse_udp_datagram-panicked (a ∷ []) = ground arith
parse_udp_datagram-panicked (a ∷ b ∷ []) = ground arith
parse_udp_datagram-panicked (a ∷ b ∷ c ∷ []) = ground arith
parse_udp_datagram-panicked (a ∷ b ∷ c ∷ d ∷ []) = ground arith
parse_udp_datagram-panicked (a ∷ b ∷ c ∷ d ∷ e ∷ rest) = ground arith
