-- ===== src/Shadowsocks/Session.antt =====
-- `Ss2022UdpSession` of crates/net/src/shadowsocks/ss2022_udp.rs: packets with the number of a
-- session and of a packet. The clock and the random bytes are parameters.
pub mod Packet
pub mod Opened
pub mod Sent
pub mod Unchanged
use Prim.Native.Nat.{bit_xor}
use jamm_vpn.Base.{
  ℕ, ◌+◌, ◌-◌, ◌%◌, ◌^◌, Bool, not, Option, List, [], ◌∷◌, ◌++◌, ltb, leb, ◌==◌, if◌then◌else◌,
  length, take, drop,
}
use jamm_vpn.Base.Octets.{to_be, from_be}
use jamm_vpn.Base.Text.{str_eq}
use jamm_vpn.Error.{Result, ok, err, ◌>>=◌}
use jamm_vpn.Addr.{Target}
use jamm_vpn.Shadowsocks.Crypto.{
  SsError, bad_xchacha_key, xchacha_seal_failed, xchacha_open_failed, shorter_than_nonce,
  short_header, shorter_than_minimum, short_response, not_server, bad_timestamp, foreign_session,
  bad_padding, replayed, Primitives, Method, is_chacha2022, or_error, session_subkey_2022,
  psk_hash_16, aes_ecb_encrypt_block, aes_ecb_decrypt_block, seal_nonce, open_nonce, next_psk,
}
use jamm_vpn.Shadowsocks.Udp.{random, encode_address, parse_address}
use jamm_vpn.Shadowsocks.Replay
use jamm_vpn.Shadowsocks.Replay.{accept}

abbrev pub type_client : ℕ
type_client = 0

abbrev pub type_server : ℕ
type_server = 1

abbrev pub timestamp_window : ℕ
timestamp_window = 30

pub record Session : Type 0 where
  pub method : Method
  pub psk : List ℕ
  pub identity_psks : List (List ℕ)
  pub session_id : List ℕ
  pub next_packet_id : ℕ
  pub replay : Replay.Replay

unfoldable pub xchacha_seal : Primitives → List ℕ → List ℕ → List ℕ → Result SsError (List ℕ)
xchacha_seal P psk nonce pt =
    if P.xchacha_new psk
    then or_error xchacha_seal_failed (P.xchacha_encrypt psk nonce pt)
    else err bad_xchacha_key

unfoldable pub xchacha_open : Primitives → List ℕ → List ℕ → List ℕ → Result SsError (List ℕ)
xchacha_open P psk nonce ct =
    if P.xchacha_new psk
    then or_error xchacha_open_failed (P.xchacha_decrypt psk nonce ct)
    else err bad_xchacha_key

-- `random_id` is what the generator gives for 8 bytes.
unfoldable pub with_identity :
    Option (List ℕ) → Method → List ℕ → List (List ℕ) → Result SsError Session
with_identity random_id m psk identity_psks = do
  id ← random random_id
  ok (record {
    method = m;
    psk = psk;
    identity_psks = identity_psks;
    session_id = id;
    next_packet_id = 0;
    replay = Replay.start;
  })

unfoldable pub request_body : ℕ → Target → List ℕ → List ℕ
request_body now target payload =
    type_client ∷ (to_be 8 now ++ (to_be 2 0 ++ (encode_address target ++ payload)))

-- `block[j] ^= header[j]`.
abbrev pub xor_block : List ℕ → List ℕ → List ℕ
xor_block (b ∷ block) (h ∷ header) = bit_xor b h ∷ xor_block block header
xor_block block header = block

unfoldable pub id_headers : Primitives → List (List ℕ) → List ℕ → List ℕ → Result SsError (List ℕ)
id_headers P [] psk header = ok []
id_headers P (ipsk ∷ identity_psks) psk header = do
  block ←
      aes_ecb_encrypt_block P ipsk (xor_block (psk_hash_16 P (next_psk identity_psks psk)) header)
  rest ← id_headers P identity_psks psk header
  ok (block ++ rest)

-- The nonce of a body is `header[4..16]`.
abbrev pub header_nonce : List ℕ → List ℕ
header_nonce header = take 12 (drop 4 header)

unfoldable pub encrypt_body :
    Primitives → Option (List ℕ) → Session → ℕ → List ℕ → Result SsError (List ℕ)
encrypt_body P random_nonce s packet_id body =
    let header = s.session_id ++ to_be 8 packet_id in
    if is_chacha2022 s.method
    then (do
      nonce ← random random_nonce
      ct ← xchacha_seal P s.psk nonce (header ++ body)
      ok (nonce ++ ct))
    else (do
      sealed ←
          seal_nonce P s.method (session_subkey_2022 P s.method s.psk s.session_id)
            (header_nonce header) body
      ids ← id_headers P s.identity_psks s.psk header
      hk ← aes_ecb_encrypt_block P (next_psk s.identity_psks s.psk) header
      ok (hk ++ (ids ++ sealed)))

-- The packet's number is spent whether the encryption succeeds or not.
unfoldable pub encrypt :
    Primitives → ℕ → Option (List ℕ) → Target → List ℕ → Session → Result SsError (List ℕ) × Session
encrypt P now random_nonce target payload s = (
  encrypt_body P random_nonce s s.next_packet_id (request_body now target payload),
  record s { next_packet_id = (s.next_packet_id + 1) % 2 ^ 64 },
)

abbrev pub abs_diff : ℕ → ℕ → ℕ
abs_diff a b = if ltb a b then b - a else a - b

-- Behind the padding's length.
abbrev pub skip_padding : ℕ → List ℕ → Result SsError (List ℕ)
skip_padding padding_len b =
    if ltb (length b) padding_len
    then err bad_padding
    else (do (_, payload) ← parse_address (drop padding_len b); ok payload)

unfoldable pub parse_response_body : ℕ → List ℕ → List ℕ → Result SsError (List ℕ)
parse_response_body now session_id body =
    if ltb (length body) 19
    then err short_response
    else if not (from_be (take 1 body) == type_server)
    then err not_server
    else if ltb timestamp_window (abs_diff now (from_be (take 8 (drop 1 body))))
    then err bad_timestamp
    else if not (str_eq (take 8 (drop 9 body)) session_id)
    then err foreign_session
    else skip_padding (from_be (take 2 (drop 17 body))) (drop 19 body)

-- The server's session, the packet's number and the body.
unfoldable pub open_packet :
    Primitives → Method → List ℕ → List ℕ → Result SsError ((List ℕ × ℕ) × List ℕ)
open_packet P m psk packet =
    if is_chacha2022 m
    then (if ltb (length packet) 24 then err shorter_than_nonce else (do
      pt ← xchacha_open P psk (take 24 packet) (drop 24 packet)
      (if ltb (length pt) 16
          then err short_header
          else ok ((take 8 pt, from_be (take 8 (drop 8 pt))), drop 16 pt))))
    else if ltb (length packet) 32
    then err shorter_than_minimum
    else (do
      header ← aes_ecb_decrypt_block P psk (take 16 packet)
      body ←
          open_nonce P m (session_subkey_2022 P m psk (take 8 header)) (header_nonce header)
            (drop 16 packet)
      ok ((take 8 header, from_be (take 8 (drop 8 header))), body))

-- The window is asked after all else is valid.
abbrev pub pass_window : Session → List ℕ → ℕ → List ℕ → Result SsError (List ℕ) × Session
pass_window s sid pid payload = (
  if (accept sid pid s.replay).0 then ok payload else err replayed,
  record s { replay = (accept sid pid s.replay).1 },
)

abbrev pub check_payload :
    Session → List ℕ → ℕ → Result SsError (List ℕ) → Result SsError (List ℕ) × Session
check_payload s sid pid (err e) = (err e, s)
check_payload s sid pid (ok payload) = pass_window s sid pid payload

abbrev pub check_body :
    ℕ → Session → Result SsError ((List ℕ × ℕ) × List ℕ) → Result SsError (List ℕ) × Session
check_body now s (err e) = (err e, s)
check_body now s (ok ((sid, pid), body)) =
    check_payload s sid pid (parse_response_body now s.session_id body)

unfoldable pub decrypt : Primitives → ℕ → List ℕ → Session → Result SsError (List ℕ) × Session
decrypt P now packet s = check_body now s (open_packet P s.method s.psk packet)
