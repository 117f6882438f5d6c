-- ===== src/Tuic/Address.antt =====
-- An encoded TUIC address reads back as the target, and takes `address_len` bytes.
use jamm_vpn.Base.{
  ℕ, ◌+◌, ◌^◌, ◌%◌, ◌<◌, ◌≤◌, ◌≡◌, refl, sym, inl, inr, true, some, List, [], ◌∷◌, ◌++◌, ltb, arith,
  length, take, drop, length-append, take-append, drop-append, Bool-cases,
}
use jamm_vpn.Base.Octets.{to_be, from_be, length-to_be, from_be-to_be}
use jamm_vpn.Base.Text.{Str}
use jamm_vpn.Base.Utf8.{is_utf8, from_utf8_lossy-valid}
use jamm_vpn.Error.{ok, ok-injective, ok≢err}
use jamm_vpn.Addr.{v4, v6, IsIp, Target, domain, socket}
use jamm_vpn.Tuic.{encode_address, address_len, need, parse_body, parse_address_sync}

-- A target of Rust's types: a text is UTF-8, a port has 16 bits.
abbrev pub IsTarget : Target → Type 0
IsTarget (domain host p) = (is_utf8 host ≡ true) × (p < 2 ^ 16)
IsTarget (socket ip p) = IsIp ip × (p < 2 ^ 16)

-- The bytes asked for are those that stand there.
pub need-append : (n : ℕ) (bs rest : List ℕ) → length bs ≡ n → need n (bs ++ rest) ≡ ok (bs, rest)
unfolding need
need-append n bs rest e =
    rw (sym e, take-append bs rest, drop-append bs rest) (ground (arith, length-append bs rest))

octets_length : (n a p : ℕ) → length (to_be n a ++ to_be 2 p) ≡ n + 2
octets_length n a p =
    omega (arith, length-append (to_be n a) (to_be 2 p), length-to_be n a, length-to_be 2 p)

-- The octets of an address and a port, taken apart again.
octets_apart :
    (n a p : ℕ)
    → a < 256 ^ n
    → p < 2 ^ 16
    → (from_be (take n (to_be n a ++ to_be 2 p)) ≡ a)
      × (from_be (drop n (to_be n a ++ to_be 2 p)) ≡ p)
octets_apart n a p small port =
    let front : take (length (to_be n a)) (to_be n a ++ to_be 2 p) ≡ to_be n a =
      take-append (to_be n a) (to_be 2 p) in
    let back : drop (length (to_be n a)) (to_be n a ++ to_be 2 p) ≡ to_be 2 p =
      drop-append (to_be n a) (to_be 2 p) in
    let front' : take n (to_be n a ++ to_be 2 p) ≡ to_be n a = rw (length-to_be n a) at front in
    let back' : drop n (to_be n a ++ to_be 2 p) ≡ to_be 2 p = rw (length-to_be n a) at back in
    (rw front' (from_be-to_be n a small), rw back' (from_be-to_be 2 p (omega (arith, port))))

v4_parses :
    (a p : ℕ) (rest : List ℕ)
    → a < 2 ^ 32
    → p < 2 ^ 16
    → parse_body 1 ((to_be 4 a ++ to_be 2 p) ++ rest) ≡ ok (some (socket (v4 a) p), rest)
unfolding parse_body
v4_parses a p rest small port =
    let (front, back) = octets_apart 4 a p (omega (arith, small)) port in
    rw (need-append 6 (to_be 4 a ++ to_be 2 p) rest (octets_length 4 a p), front, back)

v6_parses :
    (a p : ℕ) (rest : List ℕ)
    → a < 2 ^ 128
    → p < 2 ^ 16
    → parse_body 2 ((to_be 16 a ++ to_be 2 p) ++ rest) ≡ ok (some (socket (v6 a) p), rest)
unfolding parse_body
v6_parses a p rest small port =
    let (front, back) = octets_apart 16 a p (omega (arith, small)) port in
    rw (need-append 18 (to_be 16 a ++ to_be 2 p) rest (octets_length 16 a p), front, back)

one_octet : (n : ℕ) → n ≤ 255 → from_be (n % 256 ∷ []) ≡ n
unfolding from_be
one_octet n h = omega (arith, h)

domain_parses :
    (host : Str) (p : ℕ) (rest : List ℕ)
    → length host ≤ 255
    → is_utf8 host ≡ true
    → p < 2 ^ 16
    → parse_body 0 ((length host % 256 ∷ (host ++ to_be 2 p)) ++ rest)
      ≡ ok (some (domain host p), rest)
unfolding parse_body
domain_parses host p rest short text port = rw (
  need-append 1 (length host % 256 ∷ []) ((host ++ to_be 2 p) ++ rest) refl,
  one_octet (length host) short,
  need-append (length host + 2) (host ++ to_be 2 p) rest
      (omega (arith, length-append host (to_be 2 p), length-to_be 2 p)),
  take-append host (to_be 2 p),
  drop-append host (to_be 2 p),
  from_utf8_lossy-valid host text,
  from_be-to_be 2 p (omega (arith, port)),
)

-- An address that was encoded reads back as the same target, and leaves what stands behind it.
pub encode_address_parses :
    (t : Target) (bs rest : List ℕ)
    → IsTarget t
    → encode_address t ≡ ok bs
    → parse_address_sync (bs ++ rest) ≡ ok (some t, rest)
unfolding encode_address parse_address_sync
encode_address_parses (domain host p) bs rest (text, port) e =
    elim (Bool-cases (ltb 255 (length host))) [
      | inl long ↦ absurd (ok≢err (rw long at e))
      | inr short ↦
          rw (sym (ok-injective (rw short at e)))
            (domain_parses host p rest (ground arith) text port)
    ]
encode_address_parses (socket (v4 a) p) bs rest (small, port) e =
    rw (sym (ok-injective e)) (v4_parses a p rest small port)
encode_address_parses (socket (v6 a) p) bs rest (small, port) e =
    rw (sym (ok-injective e)) (v6_parses a p rest small port)

-- When `address_len` gives a length, encoding the address succeeds and takes just that length.
pub encode_address-length :
    (t : Target) (n : ℕ)
    → address_len t ≡ ok n
    → (bs : List ℕ) × (encode_address t ≡ ok bs) × (length bs ≡ n)
unfolding encode_address address_len
encode_address-length (domain host p) n e = elim (Bool-cases (ltb 255 (length host))) [
  | inl long ↦ absurd (ok≢err (rw long at e))
  | inr short ↦ (
    0 ∷ length host % 256 ∷ (host ++ to_be 2 p),
    rw short,
    omega (arith, ok-injective (rw short at e), length-append host (to_be 2 p), length-to_be 2 p),
  )
]
encode_address-length (socket (v4 a) p) n e =
    (1 ∷ (to_be 4 a ++ to_be 2 p), refl, omega (arith, ok-injective e, octets_length 4 a p))
encode_address-length (socket (v6 a) p) n e =
    (2 ∷ (to_be 16 a ++ to_be 2 p), refl, omega (arith, ok-injective e, octets_length 16 a p))
