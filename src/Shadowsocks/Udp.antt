-- ===== src/Shadowsocks/Udp.antt =====
-- crates/net/src/shadowsocks/udp.rs: a packet is a salt and the sealed address and payload. The
-- random bytes are a parameter.
pub mod RoundTrip
use jamm_vpn.Base.{
  ℕ, ◌+◌, ◌%◌, ◌^◌, Option, none, some, List, [], ◌∷◌, ◌++◌, ltb, ◌==◌, if◌then◌else◌, length, take,
  drop, min,
}
use jamm_vpn.Base.Octets.{to_be, from_be}
use jamm_vpn.Base.Utf8.{from_utf8_lossy}
use jamm_vpn.Error.{Result, ok, err, ◌>>=◌}
use jamm_vpn.Addr.{v4, v6, Target, domain, socket}
use jamm_vpn.Shadowsocks.Crypto.{
  SsError, random_failed, empty_header, short_v4, short_v6, no_length, short_domain, unknown_atyp,
  shorter_than_salt, Primitives, Method, salt_len, session_subkey, new, seal, open_sealed,
}

-- What the random generator gave, if it did not fail.
abbrev pub random : Option (List ℕ) → Result SsError (List ℕ)
random none = err random_failed
random (some bs) = ok bs

unfoldable pub encode_address : Target → List ℕ
encode_address (domain host p) =
    let len = min (length host) 255 in 3 ∷ len % 256 ∷ (take len host ++ to_be 2 p)
encode_address (socket (v4 a) p) = 1 ∷ (to_be 4 a ++ to_be 2 p)
encode_address (socket (v6 a) p) = 4 ∷ (to_be 16 a ++ to_be 2 p)

-- Behind the type of a domain.
abbrev parse_domain : List ℕ → Result SsError (Target × List ℕ)
parse_domain [] = err no_length
parse_domain (len ∷ b) =
    if ltb (length b + 2) (2 + len + 2)
    then err short_domain
    else ok
        (domain (from_utf8_lossy (take len b)) (from_be (take 2 (drop len b))), drop (len + 2) b)

unfoldable pub parse_address : List ℕ → Result SsError (Target × List ℕ)
parse_address [] = err empty_header
parse_address (atyp ∷ b) =
    if atyp == 1
    then (if ltb (length b + 1) 7
        then err short_v4
        else ok (socket (v4 (from_be (take 4 b))) (from_be (take 2 (drop 4 b))), drop 6 b))
    else if atyp == 4
    then (if ltb (length b + 1) 19
        then err short_v6
        else ok (socket (v6 (from_be (take 16 b))) (from_be (take 2 (drop 16 b))), drop 18 b))
    else if atyp == 3
    then parse_domain b
    else err unknown_atyp

-- `salt` is what the generator gives for `salt_len` bytes.
unfoldable pub encrypt_packet :
    Primitives → Option (List ℕ) → Method → List ℕ → Target → List ℕ → Result SsError (List ℕ)
encrypt_packet P salt m master target payload = do
  salt ← random salt
  crypto ← new P m (session_subkey P m master salt)
  (ct, _) ← seal P crypto (encode_address target ++ payload)
  ok (salt ++ ct)

unfoldable pub decrypt_packet :
    Primitives → Method → List ℕ → List ℕ → Result SsError (Target × List ℕ)
decrypt_packet P m master packet =
    let slen = salt_len m in
    if ltb (length packet) slen then err shorter_than_salt else (do
      crypto ← new P m (session_subkey P m master (take slen packet))
      (pt, _) ← open_sealed P crypto (drop slen packet)
      parse_address pt)
