-- ===== src/Shadowsocks/Session/Packet.antt =====
-- The packets that a server sends, as the protocol describes them, and what the client makes of them.
use jamm_vpn.Base.{
  ℕ, ◌+◌, ◌^◌, ◌<◌, ◌≤◌, ◌≡◌, refl, ◌∙◌, ap, false, List, ◌∷◌, ◌++◌, ltb, arith, length, take, drop,
  if◌then◌else◌, length-append, take_front, drop_front, drop_two, drop_three,
}
use jamm_vpn.Base.Octets.{to_be, from_be, length-to_be, from_be-to_be}
use jamm_vpn.Base.Text.{str_eq_self}
use jamm_vpn.Error.{Result, ok, ◌>>=◌}
use jamm_vpn.Addr.{Target, IsWireTarget}
use jamm_vpn.Shadowsocks.Crypto.{
  SsError, Primitives, Method, is_chacha2022, session_subkey_2022, aes_ecb_encrypt_block,
  seal_nonce,
}
use jamm_vpn.Shadowsocks.Udp.{encode_address}
use jamm_vpn.Shadowsocks.Udp.RoundTrip.{parse_address-encode_address}
use jamm_vpn.Shadowsocks.Session.{
  type_server, timestamp_window, header_nonce, xchacha_seal, abs_diff, parse_response_body,
}

-- `type | timestamp | client's session | padding's length | padding | source | payload`.
abbrev pub server_body : ℕ → List ℕ → List ℕ → Target → List ℕ → List ℕ
server_body ts client_sid padding source payload =
    type_server
    ∷ (to_be 8 ts
        ++ (client_sid
            ++ (to_be 2 (length padding) ++ (padding ++ (encode_address source ++ payload)))))

abbrev pub server_header : List ℕ → ℕ → List ℕ
server_header sid pid = sid ++ to_be 8 pid

-- A packet of the server's session `sid` with the number `pid`.
unfoldable pub server_packet :
    Primitives → Method → List ℕ → List ℕ → ℕ → List ℕ → List ℕ → Result SsError (List ℕ)
server_packet P m psk sid pid nonce body =
    let header = server_header sid pid in
    if is_chacha2022 m
    then (do ct ← xchacha_seal P psk nonce (header ++ body); ok (nonce ++ ct))
    else (do
      hk ← aes_ecb_encrypt_block P psk header
      sealed ← seal_nonce P m (session_subkey_2022 P m psk sid) (header_nonce header) body
      ok (hk ++ sealed))

-- Body and packet.
module _ (ts : ℕ) (client_sid padding : List ℕ) (source : Target) (payload : List ℕ)
    (sized : length client_sid ≡ 8) where
  abbrev behind : List ℕ
  behind = padding ++ (encode_address source ++ payload)

  abbrev body : List ℕ
  body = server_body ts client_sid padding source payload

  pub length-body : length body ≡ 19 + length behind
  length-body = omega (
    arith,
    sized,
    length-append (to_be 8 ts) (client_sid ++ (to_be 2 (length padding) ++ behind)),
    length-append client_sid (to_be 2 (length padding) ++ behind),
    length-append (to_be 2 (length padding)) behind,
    length-to_be 8 ts,
    length-to_be 2 (length padding),
  )

  body_times : ts < 2 ^ 64 → from_be (take 8 (drop 1 body)) ≡ ts
  body_times small =
      ap from_be (
        take_front 8 (to_be 8 ts) (client_sid ++ (to_be 2 (length padding) ++ behind))
          (length-to_be 8 ts))
      ∙ from_be-to_be 8 ts (omega (arith, small))

  body_session : take 8 (drop 9 body) ≡ client_sid
  body_session =
      ap (take 8) (
        drop_front 8 (to_be 8 ts) (client_sid ++ (to_be 2 (length padding) ++ behind))
          (length-to_be 8 ts))
      ∙ take_front 8 client_sid (to_be 2 (length padding) ++ behind) sized

  body_padding : length padding < 2 ^ 16 → from_be (take 2 (drop 17 body)) ≡ length padding
  body_padding small =
      let here : drop 17 body ≡ to_be 2 (length padding) ++ behind =
        drop_two 16 (to_be 8 ts) client_sid (to_be 2 (length padding) ++ behind)
          (omega (arith, sized, length-to_be 8 ts)) in
      ap (λ t. from_be (take 2 t)) here
      ∙ ap from_be
          (take_front 2 (to_be 2 (length padding)) behind (length-to_be 2 (length padding)))
      ∙ from_be-to_be 2 (length padding) (omega (arith, small))

  body_tail : drop 19 body ≡ behind
  body_tail =
      drop_three 18 (to_be 8 ts) client_sid (to_be 2 (length padding)) behind
        (omega (arith, sized, length-to_be 8 ts, length-to_be 2 (length padding)))

  pub parse_response_body_reads :
      (now : ℕ)
      → ts < 2 ^ 64
      → abs_diff now ts ≤ timestamp_window
      → length padding < 2 ^ 16
      → IsWireTarget source
      → parse_response_body now client_sid body ≡ ok payload
  unfolding parse_response_body from_be
  parse_response_body_reads now small recent few wire =
      let long : ltb (length body) 19 ≡ false = ground (arith, length-body) in
      let fresh : ltb timestamp_window (abs_diff now ts) ≡ false = ground (arith, recent) in
      let fits : ltb (length behind) (length padding) ≡ false =
        ground (arith, length-append padding (encode_address source ++ payload)) in
      let skip : drop (length padding) behind ≡ encode_address source ++ payload =
        drop_front (length padding) padding (encode_address source ++ payload) refl in
      rw
        (
          long,
          body_times small,
          fresh,
          body_session,
          str_eq_self client_sid,
          body_padding few,
          body_tail,
          fits,
          skip,
          parse_address-encode_address source payload wire,
        )
        refl
