-- ===== src/Tests/Trojan.antt =====
-- A Trojan UDP packet to a name server.
use jamm_vpn.Base.{◌+◌, ◌*◌, ◌^◌, ◌≡◌, refl, [], ◌∷◌, ◌++◌, arith}
use jamm_vpn.Base.Octets.{to_be}
use jamm_vpn.Error.{ok}
use jamm_vpn.Addr.{Target, socket, v4}
use jamm_vpn.Trojan.{encode_address, encode_udp_packet, read_udp_packet}
use jamm_vpn.Trojan.Packet.{read_udp_packet-encode_udp_packet}

abbrev name_server : Target
name_server = socket (v4 (8 * 2 ^ 24 + 8 * 2 ^ 16 + 8 * 2 ^ 8 + 8)) 53

packet_layout :
    encode_udp_packet name_server (7 ∷ []) ≡ 1 ∷ 8 ∷ 8 ∷ 8 ∷ 8 ∷ 0 ∷ 53 ∷ 0 ∷ 1 ∷ 13 ∷ 10 ∷ 7 ∷ []
unfolding encode_udp_packet encode_address to_be
packet_layout = refl

read_udp_packet-encode_udp_packet_example :
    read_udp_packet (encode_udp_packet name_server (7 ∷ 8 ∷ []) ++ (9 ∷ []))
    ≡ ok ((name_server, 7 ∷ 8 ∷ []), 9 ∷ [])
read_udp_packet-encode_udp_packet_example =
    read_udp_packet-encode_udp_packet name_server (7 ∷ 8 ∷ []) (9 ∷ []) (omega arith, omega arith)
      (omega arith)
