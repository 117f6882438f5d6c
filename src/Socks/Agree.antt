-- ===== src/Socks/Agree.antt =====
-- The client of crates/net/src/outbound.rs and the server of crates/net/src/inbound.rs understand
-- each other.
use mathlib.Core.List.{append_assoc, append-nil}
use jamm_vpn.Base.{
  ℕ, ◌%◌, ◌^◌, ◌<◌, ◌≡◌, refl, sym, Bool, true, none, some, List, [], ◌∷◌, ◌++◌, arith, length,
  take-append, drop-append, length-append,
}
use jamm_vpn.Base.Octets.{to_be, from_be, length-to_be, from_be-to_be}
use jamm_vpn.Error.{ok}
use jamm_vpn.Addr.{v4, v6, Target, domain, socket, IsWireTarget}
use jamm_vpn.Socks.{
  read_exact, read_uint, read_domain, read_target, by_command, read_request, socks_handshake, reply,
  relay_through, handle_client, Socks5Config, encode_target, read_reply, socks5_connect,
  choose_method, bound_length, is_some,
}

pub read_exact-append :
    (n : ℕ) (bs rest : List ℕ) → length bs ≡ n → read_exact n (bs ++ rest) ≡ ([], ok (bs, rest))
unfolding read_exact
read_exact-append n bs rest e =
    rw (sym e, take-append bs rest, drop-append bs rest) (ground (arith, length-append bs rest))

read_uint-to_be :
    (n v : ℕ) (rest : List ℕ) → v < 256 ^ n → read_uint n (to_be n v ++ rest) ≡ ([], ok (v, rest))
unfolding read_uint
read_uint-to_be n v rest h =
    rw (read_exact-append n (to_be n v) rest (length-to_be n v), from_be-to_be n v h) refl

pub read_uint-byte : (b : ℕ) (rest : List ℕ) → read_uint 1 (b ∷ rest) ≡ ([], ok (b, rest))
unfolding read_uint from_be
read_uint-byte b rest = rw (read_exact-append 1 (b ∷ []) rest refl) (ground arith)

-- Behind an address type, the address and the port.
pub read-encode_target :
    (t : Target) (rest : List ℕ)
    → IsWireTarget t
    → (atyp : ℕ) × (body : List ℕ) × (encode_target t ≡ atyp ∷ body)
      × (read_target atyp (body ++ rest) ≡ ([], ok (t, rest)))
unfolding read_target encode_target read_domain
read-encode_target (domain host p) rest (short, text, port) =
    let byte : length host % 256 ≡ length host = omega (arith, short) in
    (
      3,
      length host % 256 ∷ (host ++ to_be 2 p),
      refl,
      rw
          (
            byte,
            append_assoc host (to_be 2 p) rest,
            read_uint-byte (length host) (host ++ (to_be 2 p ++ rest)),
            read_exact-append (length host) host (to_be 2 p ++ rest) refl,
            text,
            read_uint-to_be 2 p rest (omega (arith, port)),
          )
          refl,
    )
read-encode_target (socket (v4 a) p) rest (small, port) = (
  1,
  to_be 4 a ++ to_be 2 p,
  refl,
  rw
      (
        append_assoc (to_be 4 a) (to_be 2 p) rest,
        read_exact-append 4 (to_be 4 a) (to_be 2 p ++ rest) (length-to_be 4 a),
        read_uint-to_be 2 p rest (omega (arith, port)),
        from_be-to_be 4 a (omega (arith, small)),
      )
      refl,
)
read-encode_target (socket (v6 a) p) rest (small, port) = (
  4,
  to_be 16 a ++ to_be 2 p,
  refl,
  rw
      (
        append_assoc (to_be 16 a) (to_be 2 p) rest,
        read_exact-append 16 (to_be 16 a) (to_be 2 p ++ rest) (length-to_be 16 a),
        read_uint-to_be 2 p rest (omega (arith, port)),
        from_be-to_be 16 a (omega (arith, small)),
      )
      refl,
)

-- What the client says, a greeting without a user and its request, and what it hears.
abbrev pub said : Target → List ℕ
said t = 5 ∷ 1 ∷ 0 ∷ 5 ∷ 1 ∷ 0 ∷ encode_target t

abbrev pub heard : List ℕ
heard = 5 ∷ 0 ∷ reply 0x00

handle_client-said :
    (opens : Target → Bool) (t : Target) (app : List ℕ)
    → IsWireTarget t
    → opens t ≡ true
    → handle_client opens (said t ++ app) ≡ (heard, ok (some t, app))
unfolding handle_client socks_handshake read_request by_command relay_through
handle_client-said opens t app h reached =
    let (atyp, body, shape, reads) = read-encode_target t app h in
    rw
      (
        shape,
        read_exact-append 2 (5 ∷ 1 ∷ []) (0 ∷ 5 ∷ 1 ∷ 0 ∷ atyp ∷ (body ++ app)) refl,
        read_exact-append 1 (0 ∷ []) (5 ∷ 1 ∷ 0 ∷ atyp ∷ (body ++ app)) refl,
        read_exact-append 4 (5 ∷ 1 ∷ 0 ∷ atyp ∷ []) (body ++ app) refl,
        reads,
        reached,
      )
      refl

socks5_connect-heard :
    (cfg : Socks5Config) (t : Target) (back : List ℕ)
    → cfg.username ≡ none
    → socks5_connect cfg t (heard ++ back) ≡ (said t, ok (0 ∷ 0 ∷ 0 ∷ 0 ∷ 0 ∷ 0 ∷ [], back))
unfolding socks5_connect choose_method read_reply bound_length reply is_some
socks5_connect-heard cfg t back e =
    rw
      (
        is_some,
        e,
        read_exact-append 2 (5 ∷ 0 ∷ []) (reply 0x00 ++ back) refl,
        read_exact-append 4 (5 ∷ 0 ∷ 0 ∷ 1 ∷ []) (0 ∷ 0 ∷ 0 ∷ 0 ∷ 0 ∷ 0 ∷ back) refl,
        read_exact-append 6 (0 ∷ 0 ∷ 0 ∷ 0 ∷ 0 ∷ 0 ∷ []) back refl,
      )
      (rw (append-nil (encode_target t)) refl)

-- A client without a user's name asks a server of the program, which reaches the target, a domain
-- of at most 255 bytes or an address: what the one writes is what the other reads, the server
-- connects to the very target, and both leave the data behind the handshake untouched.
pub connect_agrees :
    (opens : Target → Bool) (cfg : Socks5Config) (t : Target) (app back : List ℕ)
    → IsWireTarget t
    → opens t ≡ true
    → cfg.username ≡ none
    → (handle_client opens (said t ++ app) ≡ (heard, ok (some t, app)))
      × (socks5_connect cfg t (heard ++ back) ≡ (said t, ok (0 ∷ 0 ∷ 0 ∷ 0 ∷ 0 ∷ 0 ∷ [], back)))
connect_agrees opens cfg t app back h reached e =
    (handle_client-said opens t app h reached, socks5_connect-heard cfg t back e)
