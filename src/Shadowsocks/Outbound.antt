-- ===== src/Shadowsocks/Outbound.antt =====
-- The keys and the address of a Shadowsocks connection: `encode_ss_address` and `parse_ss2022_psks`
-- of crates/net/src/outbound.rs.
use mathlib.Core.Path.{subst}
use jamm_vpn.Base.{
  ℕ, ◌%◌, ◌≡◌, refl, sym, inl, inr, not, List, [], ◌∷◌, ◌++◌, ◌==◌, if◌then◌else◌, arith, length,
  All, Bool-cases, min, take_all, ap, ◌∙◌,
}
use jamm_vpn.Base.Octets.{to_be}
use jamm_vpn.Base.Text.{Str, split}
use jamm_vpn.Base64.{decode_loose}
use jamm_vpn.Error.{ParseError, Result, ok, err, ◌>>=◌, ok-injective, ok≢err, bind_ok}
use jamm_vpn.Addr.{v4, v6, Target, domain, socket, IsWireTarget}
use jamm_vpn.Shadowsocks.Udp.{encode_address}

pub data PskError : Type 0 where
  not_base64 bad_length empty_password : PskError

unfoldable pub encode_ss_address : Target → List ℕ
encode_ss_address (domain host p) = 3 ∷ length host % 256 ∷ (host ++ to_be 2 p)
encode_ss_address (socket (v4 a) p) = 1 ∷ (to_be 4 a ++ to_be 2 p)
encode_ss_address (socket (v6 a) p) = 4 ∷ (to_be 16 a ++ to_be 2 p)

abbrev sized : ℕ → Result ParseError (List ℕ) → Result PskError (List ℕ)
sized key_len (err e) = err not_base64
sized key_len (ok raw) = if not (length raw == key_len) then err bad_length else ok raw

-- One key, with the error of the decoder replaced.
abbrev decode_psk : ℕ → Str → Result PskError (List ℕ)
decode_psk key_len part = sized key_len (decode_loose part)

unfoldable pub decode_psks : ℕ → List Str → Result PskError (List (List ℕ))
decode_psks key_len [] = ok []
decode_psks key_len (part ∷ parts) = do
  psk ← decode_psk key_len part
  psks ← decode_psks key_len parts
  ok (psk ∷ psks)

-- The last one, and those before it.
abbrev pop_last : List ℕ → List (List ℕ) → List ℕ × List (List ℕ)
pop_last psk [] = (psk, [])
pop_last psk (next ∷ psks) = ((pop_last next psks).0, psk ∷ (pop_last next psks).1)

-- `psks.pop()`: the last key is the session's, the others are before it in their order.
unfoldable pub pop_session : List (List ℕ) → Result PskError (List ℕ × List (List ℕ))
pop_session [] = err empty_password
pop_session (psk ∷ psks) = ok (pop_last psk psks)

unfoldable pub parse_ss2022_psks : Str → ℕ → Result PskError (List ℕ × List (List ℕ))
parse_ss2022_psks password key_len = do
  psks ← decode_psks key_len (split b':' password)
  pop_session psks

-- A domain of at most 255 bytes, and every address, is encoded as in the packets of udp.rs.
encode_ss_address-encode_address :
    (t : Target) → IsWireTarget t → encode_ss_address t ≡ encode_address t
unfolding encode_ss_address encode_address
encode_ss_address-encode_address (domain host p) (short, _, _) =
    let fit : min (length host) 255 ≡ length host = omega (arith, short) in
    rw (fit, take_all host) refl
encode_ss_address-encode_address (socket (v4 a) p) wire = refl
encode_ss_address-encode_address (socket (v6 a) p) wire = refl

abbrev behind_psk : ℕ → List Str → List ℕ → Result PskError (List (List ℕ))
behind_psk key_len parts psk = do psks ← decode_psks key_len parts; ok (psk ∷ psks)

sized_length :
    (key_len : ℕ) (r : Result ParseError (List ℕ)) (psk : List ℕ)
    → sized key_len r ≡ ok psk
    → length psk ≡ key_len
sized_length key_len (err x) psk e = absurd (ok≢err e)
sized_length key_len (ok raw) psk e = elim (Bool-cases (length raw == key_len)) [
  | inl fits ↦ ap length (sym (ok-injective (rw fits at e))) ∙ ground (arith, fits)
  | inr differs ↦ absurd (ok≢err (rw differs at e))
]

decode_psks_sized :
    (key_len : ℕ) (parts : List Str) (psks : List (List ℕ))
    → decode_psks key_len parts ≡ ok psks
    → All (λ psk. length psk ≡ key_len) psks
unfolding decode_psks
decode_psks_sized key_len [] psks e =
    subst (λ p. All (λ psk. length psk ≡ key_len) p) (ok-injective e) tt
decode_psks_sized key_len (part ∷ parts) psks e =
    let (psk, here, rest) = bind_ok (decode_psk key_len part) (behind_psk key_len parts) e in
    let (others, later, same) =
      bind_ok (decode_psks key_len parts) (λ (x : List (List ℕ)). ok (psk ∷ x)) rest in
    subst (λ p. All (λ psk. length psk ≡ key_len) p) (ok-injective same)
      (
        sized_length key_len (decode_loose part) psk here,
        decode_psks_sized key_len parts others later,
      )

pop_last_append :
    (psk : List ℕ) (psks : List (List ℕ))
    → (pop_last psk psks).1 ++ ((pop_last psk psks).0 ∷ []) ≡ psk ∷ psks
pop_last_append psk [] = refl
pop_last_append psk (next ∷ psks) = ap (λ t. psk ∷ t) (pop_last_append next psks)

pop_session_append :
    (psks : List (List ℕ)) (session : List ℕ) (identities : List (List ℕ))
    → pop_session psks ≡ ok (session, identities)
    → psks ≡ identities ++ (session ∷ [])
unfolding pop_session
pop_session_append [] session identities e = absurd (ok≢err e)
pop_session_append (psk ∷ psks) session identities e =
    sym (pop_last_append psk psks)
    ∙ ap (λ (x : List ℕ × List (List ℕ)). x.1 ++ (x.0 ∷ [])) (ok-injective e)

-- The keys of a password that is accepted are those of its parts in order, the last one the
-- session's, and each has the length of the method's key.
pub parse_ss2022_psks_keys :
    (password : Str) (key_len : ℕ) (session : List ℕ) (identities : List (List ℕ))
    → parse_ss2022_psks password key_len ≡ ok (session, identities)
    → (decode_psks key_len (split b':' password) ≡ ok (identities ++ (session ∷ [])))
      × All (λ psk. length psk ≡ key_len) (identities ++ (session ∷ []))
unfolding parse_ss2022_psks
parse_ss2022_psks_keys password key_len session identities e =
    let (psks, decoded, popped) =
      bind_ok (decode_psks key_len (split b':' password)) pop_session e in
    let whole = pop_session_append psks session identities popped in
    (
      decoded ∙ ap (λ p. ok p) whole,
      subst (λ p. All (λ psk. length psk ≡ key_len) p) whole
          (decode_psks_sized key_len (split b':' password) psks decoded),
    )
