-- ===== src/Tests/Tuic.antt =====
-- TUIC datagrams at concrete targets.
use jamm_vpn.Base.{ℕ, ◌+◌, ◌*◌, ◌^◌, ◌≡◌, refl, some, List, [], ◌∷◌, arith, length}
use jamm_vpn.Error.{ok}
use jamm_vpn.Addr.{Target, socket, v4}
use jamm_vpn.Base.Octets.{to_be}
use jamm_vpn.Tuic.{
  encode_addr, capacity, encode_with, encode_chunks, chunks, PacketHead, encode_address,
  address_len, encode_packet_one, decode_packet, encode_packets,
}
use jamm_vpn.Tuic.Packet.{decode-encode_packet_one}
use jamm_vpn.Tuic.Reassembly.{decode_all, numbered, joined, encode_packets_join}

abbrev dns : Target
dns = socket (v4 (8 * 2 ^ 24 + 8 * 2 ^ 16 + 8 * 2 ^ 8 + 8)) 53

abbrev dns_address : List ℕ
dns_address = 1 ∷ 8 ∷ 8 ∷ 8 ∷ 8 ∷ 0 ∷ 53 ∷ []

encoded : encode_address dns ≡ ok dns_address
unfolding encode_address to_be
encoded = refl

measured : address_len dns ≡ ok 7
unfolding address_len
measured = refl

abbrev head : PacketHead
head = record { assoc_id = 1; pkt_id = 2; frag_total = 1; frag_id = 0; addr = some dns }

abbrev datagram : List ℕ
datagram = 5 ∷ 2 ∷ 0 ∷ 1 ∷ 0 ∷ 2 ∷ 1 ∷ 0 ∷ 0 ∷ 3 ∷ 1 ∷ 8 ∷ 8 ∷ 8 ∷ 8 ∷ 0 ∷ 53 ∷ 7 ∷ 8 ∷ 9 ∷ []

made : encode_packet_one 1 2 1 0 (some dns) (7 ∷ 8 ∷ 9 ∷ []) ≡ ok datagram
unfolding encode_packet_one encode_addr encode_address to_be
made = refl

decode-encode_packet_one_example : decode_packet datagram ≡ ok (head, 7 ∷ 8 ∷ 9 ∷ [])
decode-encode_packet_one_example =
    decode-encode_packet_one head (7 ∷ 8 ∷ 9 ∷ []) datagram
      (omega arith, omega arith, omega arith, (omega arith, omega arith)) (omega arith) made

-- Three bytes with room for two: two fragments, the address on the first only.
abbrev fragments : List (List ℕ)
fragments =
    (5 ∷ 2 ∷ 0 ∷ 1 ∷ 0 ∷ 2 ∷ 2 ∷ 0 ∷ 0 ∷ 2 ∷ 1 ∷ 8 ∷ 8 ∷ 8 ∷ 8 ∷ 0 ∷ 53 ∷ 7 ∷ 8 ∷ [])
    ∷ (5 ∷ 2 ∷ 0 ∷ 1 ∷ 0 ∷ 2 ∷ 2 ∷ 1 ∷ 0 ∷ 1 ∷ 255 ∷ 9 ∷ [])
    ∷ []

split : encode_packets 1 2 dns (7 ∷ 8 ∷ 9 ∷ []) 19 ≡ ok fragments
unfolding encode_packets address_len capacity encode_with encode_chunks chunks encode_packet_one
    encode_addr encode_address to_be
split = refl

encode_packets_join_example :
    (pieces : List (List ℕ)) × (decode_all fragments
      ≡ ok (numbered 1 2 dns (length pieces) 0 pieces))
    × (joined pieces ≡ 7 ∷ 8 ∷ 9 ∷ [])
encode_packets_join_example =
    encode_packets_join 1 2 dns (7 ∷ 8 ∷ 9 ∷ []) 19 fragments
      (omega arith, omega arith, (omega arith, omega arith)) (omega arith) split
