-- ===== src/Shadowsocks/Session/Sent.antt =====
-- The packets that a client sends are numbered, and a server of the protocol opens them.
use jamm_vpn.Base.{
  ℕ, ◌+◌, ◌%◌, ◌^◌, ◌<◌, ◌≡◌, ap, some, List, [], ◌++◌, arith, length, inl, inr, Bool-cases,
  length-append,
}
use jamm_vpn.Base.Octets.{to_be, length-to_be}
use jamm_vpn.Error.{ok, Result-cases}
use jamm_vpn.Addr.{Target}
use jamm_vpn.Shadowsocks.Crypto.{
  Primitives, key_len, is_chacha2022, seal_nonce, session_subkey_2022,
}
use jamm_vpn.Shadowsocks.Crypto.Laws.{IsPrimitives}
use jamm_vpn.Shadowsocks.Crypto.Sealed.{encrypt_block-key}
use jamm_vpn.Shadowsocks.Udp.{encode_address}
use jamm_vpn.Shadowsocks.Udp.RoundTrip.{encode_address_short}
use jamm_vpn.Shadowsocks.Session.{
  Session, request_body, id_headers, encrypt_body, encrypt, open_packet, header_nonce,
}
use jamm_vpn.Shadowsocks.Session.Packet.{server_packet}
use jamm_vpn.Shadowsocks.Session.Opened.{open_packet-server_packet}

request_body_small :
    (now : ℕ) (target : Target) (payload : List ℕ)
    → length payload < 2 ^ 30
    → length (request_body now target payload) < 2 ^ 31
unfolding request_body
request_body_small now target payload light = omega (
  arith,
  light,
  encode_address_short target,
  length-append (encode_address target) payload,
  length-append (to_be 2 0) (encode_address target ++ payload),
  length-append (to_be 8 now) (to_be 2 0 ++ (encode_address target ++ payload)),
  length-to_be 8 now,
  length-to_be 2 0,
)

-- With one user, both sides make the same packet of a body.
encrypt_body-server_packet :
    (P : Primitives) (s : Session) (pid : ℕ) (nonce body packet : List ℕ)
    → s.identity_psks ≡ []
    → length s.psk ≡ key_len s.method
    → IsPrimitives P
    → server_packet P s.method s.psk s.session_id pid nonce body ≡ ok packet
    → encrypt_body P (some nonce) s pid body ≡ ok packet
unfolding server_packet encrypt_body id_headers
encrypt_body-server_packet P s pid nonce body packet single keyed laws =
    let header = s.session_id ++ to_be 8 pid in
    let (hk, _) = encrypt_block-key P laws s.method s.psk header keyed in
    elim (Bool-cases (is_chacha2022 s.method)) [
      | inl xchacha ↦ rw xchacha (λ e. e)
      | inr aes ↦
          elim (Result-cases (
            seal_nonce P s.method (session_subkey_2022 P s.method s.psk s.session_id)
              (header_nonce header) body)) [
                | inl (sealed, done) ↦ rw (aes, single, hk, done) (λ e. e)
                | inr (x, failed) ↦ rw (aes, single, hk, failed) (λ e. e)
              ]
    ]

-- A session of one user sends, in any method, a packet that a server with the same key opens to
-- the session, the packet's number and the request, and its next packet has the next number.
pub open_packet-encrypt :
    (P : Primitives) (now : ℕ) (nonce : List ℕ) (target : Target) (payload : List ℕ) (s : Session)
    → IsPrimitives P
    → s.identity_psks ≡ []
    → length s.psk ≡ key_len s.method
    → length s.session_id ≡ 8
    → s.next_packet_id < 2 ^ 64
    → length nonce ≡ 24
    → length payload < 2 ^ 30
    → (packet : List ℕ) × (encrypt P now (some nonce) target payload s
        ≡ (ok packet, record s { next_packet_id = (s.next_packet_id + 1) % 2 ^ 64 }))
      × (open_packet P s.method s.psk packet
          ≡ ok ((s.session_id, s.next_packet_id), request_body now target payload))
unfolding encrypt
open_packet-encrypt P now nonce target payload s laws single keyed sized few random light =
    let body = request_body now target payload in
    let (packet, sent, opened) =
      open_packet-server_packet P laws s.method s.psk s.session_id s.next_packet_id nonce body keyed
        sized few random (request_body_small now target payload light) in
    let same =
      encrypt_body-server_packet P s s.next_packet_id nonce body packet single keyed laws sent in
    (
      packet,
      ap (λ r. (r, record s { next_packet_id = (s.next_packet_id + 1) % 2 ^ 64 })) same,
      opened,
    )
