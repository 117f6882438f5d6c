-- ===== src/Shadowsocks/Session/Opened.antt =====
-- The client opens what a server of the protocol sends, and asks the window.
use mathlib.Core.List.{append_assoc}
use jamm_vpn.Base.{
  contradiction, ℕ, ◌^◌, ◌<◌, ◌≤◌, ◌≡◌, refl, sym, ◌∙◌, ap, inl, inr, true, false, List, ◌++◌, ltb,
  arith, length, take, drop, if◌then◌else◌, Bool-cases, length-append, length-drop, length-take,
  take_front, drop_front, take_all,
}
use jamm_vpn.Base.Octets.{to_be, from_be, length-to_be, from_be-to_be}
use jamm_vpn.Error.{ok, err}
use jamm_vpn.Addr.{Target, IsWireTarget}
use jamm_vpn.Shadowsocks.Crypto.{
  replayed, Primitives, Method, key_len, is_chacha2022, ss2022_chacha20_poly1305, aes128_gcm,
  aes256_gcm, chacha20_ietf_poly1305, ss2022_aes128_gcm, ss2022_aes256_gcm, session_subkey_2022,
}
use jamm_vpn.Shadowsocks.Crypto.Laws.{IsPrimitives}
use jamm_vpn.Shadowsocks.Crypto.Sealed.{
  seal_nonce-open_nonce, encrypt_block-key, session_subkey_2022-length,
}
use jamm_vpn.Shadowsocks.Udp.{encode_address}
use jamm_vpn.Shadowsocks.Udp.RoundTrip.{encode_address_short}
use jamm_vpn.Shadowsocks.Replay.{accept}
use jamm_vpn.Shadowsocks.Session.{
  Session, timestamp_window, header_nonce, xchacha_seal, xchacha_open, abs_diff, open_packet,
  decrypt,
}
use jamm_vpn.Shadowsocks.Session.Packet.{
  server_body, server_header, server_packet, parse_response_body_reads, length-body,
}

chacha_key : (m : Method) → is_chacha2022 m ≡ true → key_len m ≡ 32
chacha_key aes128_gcm h = contradiction (sym h)
chacha_key aes256_gcm h = contradiction (sym h)
chacha_key chacha20_ietf_poly1305 h = contradiction (sym h)
chacha_key ss2022_aes128_gcm h = contradiction (sym h)
chacha_key ss2022_aes256_gcm h = contradiction (sym h)
chacha_key ss2022_chacha20_poly1305 h = refl

module _ (P : Primitives) (laws : IsPrimitives P) (m : Method) (psk sid : List ℕ) (pid : ℕ)
    (nonce body : List ℕ) (keyed : length psk ≡ key_len m) (sized : length sid ≡ 8)
    (few : pid < 2 ^ 64) (random : length nonce ≡ 24) (small : length body < 2 ^ 31) where
  abbrev header : List ℕ
  header = server_header sid pid

  length-header : length header ≡ 16
  length-header = omega (arith, sized, length-append sid (to_be 8 pid), length-to_be 8 pid)

  header_session : take 8 header ≡ sid
  header_session = take_front 8 sid (to_be 8 pid) sized

  header_number : from_be (take 8 (drop 8 header)) ≡ pid
  header_number =
      ap (λ t. from_be (take 8 t)) (drop_front 8 sid (to_be 8 pid) sized)
      ∙ ap (λ n. from_be (take n (to_be 8 pid))) (sym (length-to_be 8 pid))
      ∙ ap from_be (take_all (to_be 8 pid))
      ∙ from_be-to_be 8 pid (omega (arith, few))

  nonce_length : length (header_nonce header) ≡ 12
  nonce_length = omega (arith, length-take 12 (drop 4 header), length-drop 4 header, length-header)

  open_packet_aes :
      is_chacha2022 m ≡ false
      → (packet : List ℕ) × (server_packet P m psk sid pid nonce body ≡ ok packet)
        × (open_packet P m psk packet ≡ ok ((sid, pid), body))
  unfolding server_packet open_packet
  open_packet_aes aes =
      let (hk, _) = encrypt_block-key P laws m psk header keyed in
      let block = P.encrypt_block psk header in
      let block_length : length block ≡ 16 = laws.block_len psk header length-header in
      let (_, unhk) = encrypt_block-key P laws m psk block keyed in
      let (ct, sealed, opened, tagged) =
        seal_nonce-open_nonce P laws m (session_subkey_2022 P m psk sid) (header_nonce header) body
          (session_subkey_2022-length P laws m psk sid) nonce_length (omega (arith, small)) in
      let long : ltb (length (block ++ ct)) 32 ≡ false =
        ground (arith, block_length, tagged, length-append block ct) in
      (
        block ++ ct,
        rw (aes, hk, sealed) refl,
        rw
            (
              aes,
              long,
              take_front 16 block ct block_length,
              drop_front 16 block ct block_length,
              unhk,
              laws.unblock psk header length-header,
              header_session,
              opened,
              header_number,
            )
            refl,
      )

  open_packet_chacha :
      is_chacha2022 m ≡ true
      → (packet : List ℕ) × (server_packet P m psk sid pid nonce body ≡ ok packet)
        × (open_packet P m psk packet ≡ ok ((sid, pid), body))
  unfolding server_packet open_packet xchacha_seal xchacha_open
  open_packet_chacha xchacha =
      let sizes = keyed ∙ chacha_key m xchacha in
      let pt_small : length (header ++ body) < 2 ^ 32 =
        omega (arith, small, length-header, length-append header body) in
      let s = laws.xchacha_seals psk nonce (header ++ body) sizes random pt_small in
      let accepted = laws.xchacha_accepts psk sizes in
      let long : ltb (length (nonce ++ s.ct)) 24 ≡ false =
        ground (arith, random, length-append nonce s.ct) in
      let headed : ltb (length (header ++ body)) 16 ≡ false =
        ground (arith, length-header, length-append header body) in
      let front : take 8 (header ++ body) ≡ sid =
        ap (take 8) (append_assoc sid (to_be 8 pid) body)
        ∙ take_front 8 sid (to_be 8 pid ++ body) sized in
      let number : from_be (take 8 (drop 8 (header ++ body))) ≡ pid =
        ap (λ t. from_be (take 8 (drop 8 t))) (append_assoc sid (to_be 8 pid) body)
        ∙ ap (λ t. from_be (take 8 t)) (drop_front 8 sid (to_be 8 pid ++ body) sized)
        ∙ ap from_be (take_front 8 (to_be 8 pid) body (length-to_be 8 pid))
        ∙ from_be-to_be 8 pid (omega (arith, few)) in
      (
        nonce ++ s.ct,
        rw (xchacha, accepted, s.encrypted) refl,
        rw
            (
              xchacha,
              long,
              take_front 24 nonce s.ct random,
              drop_front 24 nonce s.ct random,
              accepted,
              s.decrypted,
              headed,
              front,
              number,
              drop_front 16 header body length-header,
            )
            refl,
      )

  pub open_packet-server_packet :
      (packet : List ℕ) × (server_packet P m psk sid pid nonce body ≡ ok packet)
      × (open_packet P m psk packet ≡ ok ((sid, pid), body))
  open_packet-server_packet = elim (Bool-cases (is_chacha2022 m)) [
    | inl xchacha ↦ open_packet_chacha xchacha
    | inr aes ↦ open_packet_aes aes
  ]

-- A packet that a server sends as the protocol says, with a timestamp at most 30 seconds from the
-- client's clock and the client's session, in any method and with any padding, is answered by the
-- window: its payload is delivered if the window accepts the server's session and the packet's
-- number, else it is refused as replayed, and the window is the one after that packet.
pub decrypt-server_packet :
    (P : Primitives) (now ts : ℕ) (s : Session) (sid : List ℕ) (pid : ℕ) (nonce padding : List ℕ)
    (source : Target) (payload : List ℕ)
    → IsPrimitives P
    → length s.psk ≡ key_len s.method
    → length s.session_id ≡ 8
    → length sid ≡ 8
    → pid < 2 ^ 64
    → length nonce ≡ 24
    → ts < 2 ^ 64
    → abs_diff now ts ≤ timestamp_window
    → length padding < 2 ^ 16
    → IsWireTarget source
    → length payload < 2 ^ 30
    → (packet : List ℕ) × (server_packet P s.method s.psk sid pid nonce
          (server_body ts s.session_id padding source payload)
        ≡ ok packet)
      × (decrypt P now packet s ≡ (
        if (accept sid pid s.replay).0 then ok payload else err replayed,
        record s { replay = (accept sid pid s.replay).1 },
      ))
unfolding decrypt
decrypt-server_packet P now ts s sid pid nonce padding source payload laws keyed own sized few
      random small recent short wire light =
    let body = server_body ts s.session_id padding source payload in
    let body_small : length body < 2 ^ 31 = omega (
      arith,
      length-body ts s.session_id padding source payload own,
      length-append padding (encode_address source ++ payload),
      length-append (encode_address source) payload,
      encode_address_short source,
      short,
      light,
    ) in
    let (packet, sent, opened) =
      open_packet-server_packet P laws s.method s.psk sid pid nonce body keyed sized few random
        body_small in
    let read =
      parse_response_body_reads ts s.session_id padding source payload own now small recent short
        wire in
    (packet, sent, rw (opened, read) refl)
