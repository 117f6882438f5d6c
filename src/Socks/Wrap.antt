-- ===== src/Socks/Wrap.antt =====
-- A domain whose length does not fit its byte, sent by the client of crates/net/src/outbound.rs.
use mathlib.Core.List.{append_assoc}
use jamm_vpn.Base.{
  ℕ, ◌%◌, ◌≤◌, ◌≡◌, refl, sym, ap, ◌∙◌, inl, inr, List, [], ◌∷◌, ◌++◌, arith, length, take, drop,
  length-take, length-drop, take-append-drop, Bool-cases, if◌then◌else◌,
}
use jamm_vpn.Base.Octets.{to_be, from_be}
use jamm_vpn.Base.Text.{Str}
use jamm_vpn.Base.Utf8.{is_utf8}
use jamm_vpn.Error.{ok, err}
use jamm_vpn.Addr.{domain}
use jamm_vpn.Socks.{bad_domain, read_exact, read_uint, read_domain, read_target, encode_target}
use jamm_vpn.Socks.Agree.{read_uint-byte, read_exact-append}

-- The first bytes of what is long enough.
read_exact-take :
    (n : ℕ) (bs rest : List ℕ)
    → n ≤ length bs
    → read_exact n (bs ++ rest) ≡ ([], ok (take n bs, drop n bs ++ rest))
read_exact-take n bs rest h =
    let whole : (take n bs ++ drop n bs) ++ rest ≡ bs ++ rest =
      ap (λ s. s ++ rest) (take-append-drop n bs) in
    let cut : length (take n bs) ≡ n = omega (arith, h, length-take n bs) in
    ap (read_exact n) (sym whole ∙ append_assoc (take n bs) (drop n bs) rest)
    ∙ read_exact-append n (take n bs) (drop n bs ++ rest) cut

-- The length of a name as its byte says it.
abbrev pub wrapped : Str → ℕ
wrapped host = length host % 256

-- For a domain of at least 256 bytes, a server of the program that reads the request, with anything
-- behind it, takes only as many bytes for the name as the length has modulo 256: if they are UTF-8,
-- it reads them with the next two bytes of the name as the port, and leaves the rest of the name
-- unread; else it refuses the request.
pub read-encode_target_wraps :
    (host : Str) (port : ℕ) (more : List ℕ)
    → 256 ≤ length host
    → (body : List ℕ) × (encode_target (domain host port) ≡ 3 ∷ body)
      × (read_target 3 (body ++ more) ≡ (
          if is_utf8 (take (wrapped host) host)
          then (
            [],
            ok (
              domain (take (wrapped host) host) (from_be (take 2 (drop (wrapped host) host))),
              drop 2 (drop (wrapped host) host) ++ (to_be 2 port ++ more),
            ),
          )
          else ([], err bad_domain)))
unfolding encode_target read_target read_domain read_uint
read-encode_target_wraps host port more long =
    let n = wrapped host in
    let rest = to_be 2 port ++ more in
    let room : 2 ≤ length (drop n host) = omega (arith, long, length-drop n host) in
    (
      n ∷ (host ++ to_be 2 port),
      refl,
      elim (Bool-cases (is_utf8 (take n host))) [
        | inl text ↦
            rw
              (
                append_assoc host (to_be 2 port) more,
                read_uint-byte n (host ++ rest),
                read_exact-take n host rest (omega (arith, long)),
                text,
                read_exact-take 2 (drop n host) rest room,
              )
              refl
        | inr other ↦
            rw
              (
                append_assoc host (to_be 2 port) more,
                read_uint-byte n (host ++ rest),
                read_exact-take n host rest (omega (arith, long)),
                other,
              )
              refl
      ],
    )
