-- ===== src/Tests/Hysteria.antt =====
-- Hysteria2 integers and datagrams at concrete values.
use jamm_vpn.Base.{ℕ, ◌≡◌, refl, some, List, [], ◌∷◌, ◌++◌, arith, length}
use jamm_vpn.Base.Octets.{to_be}
use jamm_vpn.Base.Text.{bytes}
use jamm_vpn.Error.{ok}
use jamm_vpn.Hysteria2.{
  UdpHead, put_varint, read_varint_buf, fragment, fragments, total_of, encode_udp_packets,
  decode_udp_packet,
}
use jamm_vpn.Hysteria2.Varint.{read_varint_buf-put_varint}
use jamm_vpn.Hysteria2.Datagram.{decode_udp_packet-fragment}

-- The frame id 0x401 takes two bytes.
request_id : put_varint 0x401 ≡ 0x44 ∷ 0x01 ∷ []
unfolding put_varint to_be
request_id = refl

read_varint_buf-put_varint_example :
    read_varint_buf (put_varint 0x401 ++ (9 ∷ [])) ≡ some (0x401, length (put_varint 0x401))
read_varint_buf-put_varint_example = read_varint_buf-put_varint 0x401 (9 ∷ []) (omega arith)

abbrev first_half : UdpHead
first_half = record { session = 7; pkt_id = 1; frag_id = 0; frag_total = 2 }

abbrev resolver_addr : List ℕ
resolver_addr = bytes "8.8.8.8:53"

decode_udp_packet-fragment_example :
    decode_udp_packet (fragment first_half resolver_addr (1 ∷ 2 ∷ [])) ≡ ok (first_half, 1 ∷ 2 ∷ [])
decode_udp_packet-fragment_example =
    decode_udp_packet-fragment first_half resolver_addr (1 ∷ 2 ∷ [])
      (omega arith, omega arith, omega arith) (omega arith)

abbrev sent : List (List ℕ)
sent = fragments 7 1 resolver_addr 2 2 2 0 (1 ∷ 2 ∷ 3 ∷ [])

sent_made : encode_udp_packets 7 1 resolver_addr (1 ∷ 2 ∷ 3 ∷ []) 21 ≡ ok sent
unfolding encode_udp_packets put_varint total_of
sent_made = refl
