-- ===== src/Hysteria2/Datagram.antt =====
-- UDP datagrams of Hysteria2: what a datagram carries reads back, and none is too long.
use mathlib.Core.List.{append_assoc}
use jamm_vpn.Base.{
  ℕ, zero, suc, ◌+◌, ◌-◌, ◌%◌, ◌^◌, ◌<◌, ◌≤◌, ◌≡◌, sym, inl, inr, List, ◌++◌, ltb, leb, arith,
  length, take, drop, All, length-append, length-take, drop-append, Bool-cases,
}
use jamm_vpn.Base.Octets.{to_be, from_be-to_be}
use jamm_vpn.Error.{ok, ok-injective, ok≢err}
use jamm_vpn.Hysteria2.{
  UdpHead, put_varint, fragment, fragments, total_of, encode_udp_packets, skip_addr,
  decode_udp_packet,
}
use jamm_vpn.Hysteria2.Varint.{read_varint_buf-put_varint}

abbrev pub IsHead : UdpHead → Type 0
IsHead h = (h.session < 2 ^ 32) × (h.pkt_id < 2 ^ 16) × (h.frag_id < h.frag_total)

skipped :
    (h : UdpHead) (addr chunk : List ℕ)
    → length addr < 2 ^ 62
    → skip_addr h (put_varint (length addr) ++ (addr ++ chunk)) ≡ ok (h, chunk)
unfolding skip_addr
skipped h addr chunk small =
    let p = put_varint (length addr) in
    let past : drop (length (p ++ addr)) ((p ++ addr) ++ chunk) ≡ chunk =
      drop-append (p ++ addr) chunk in
    let past' : drop (length p + length addr) (p ++ (addr ++ chunk)) ≡ chunk =
      rw (length-append p addr, append_assoc p addr chunk) at past in
    rw (skip_addr, read_varint_buf-put_varint (length addr) (addr ++ chunk) small)
      (rw past' (ground (arith, length-append p (addr ++ chunk), length-append addr chunk)))

-- A datagram of a session of 32 bits, a packet of 16 bits and a fragment's number below the number
-- of fragments decodes to its head and its piece of the payload, whatever the address, whose length
-- is below 2^62.
pub decode_udp_packet-fragment :
    (h : UdpHead) (addr chunk : List ℕ)
    → IsHead h
    → length addr < 2 ^ 62
    → decode_udp_packet (fragment h addr chunk) ≡ ok (h, chunk)
unfolding decode_udp_packet fragment to_be
decode_udp_packet-fragment h addr chunk (s, p, f) small =
    let session = from_be-to_be 4 h.session (omega (arith, s)) in
    let pkt = from_be-to_be 2 h.pkt_id (omega (arith, p)) in
    rw (session, pkt, skipped h addr chunk small) (ground (arith, f))

length-fragment :
    (h : UdpHead) (addr chunk : List ℕ)
    → length (fragment h addr chunk)
      ≡ 8 + length (put_varint (length addr)) + length addr + length chunk
unfolding fragment to_be
length-fragment h addr chunk =
    omega
      (arith, length-append (put_varint (length addr)) (addr ++ chunk), length-append addr chunk)

fragments_fit :
    (session pkt : ℕ) (addr : List ℕ) (cap total room n i : ℕ) (payload : List ℕ)
    → 8 + length (put_varint (length addr)) + length addr + cap ≤ room
    → All (λ d. length d ≤ room) (fragments session pkt addr cap total n i payload)
unfolding fragments
fragments_fit session pkt addr cap total room zero i payload h = tt
fragments_fit session pkt addr cap total room (suc n) i payload h =
    let head : UdpHead = record {
      session = session;
      pkt_id = pkt;
      frag_id = i % 256;
      frag_total = total % 256;
    } in
    (
      omega (arith, h, length-fragment head addr (take cap payload), length-take cap payload),
      fragments_fit session pkt addr cap total room n (i + 1) (drop cap payload) h,
    )

-- No datagram that `encode_udp_packets` makes is longer than the connection allows.
pub encode_udp_packets_fit :
    (session pkt : ℕ) (addr payload : List ℕ) (max_datagram : ℕ) (out : List (List ℕ))
    → encode_udp_packets session pkt addr payload max_datagram ≡ ok out
    → All (λ d. length d ≤ max_datagram) out
unfolding encode_udp_packets
encode_udp_packets_fit session pkt addr payload max_datagram out e =
    let header = 4 + 2 + 1 + 1 + length (put_varint (length addr)) + length addr in
    let cap = max_datagram - header in
    let total = total_of (length payload) cap in
    elim (Bool-cases (leb max_datagram header)) [
      | inl small ↦ absurd (ok≢err (rw small at e))
      | inr room ↦ elim (Bool-cases (ltb 255 total)) [
        | inl many ↦ absurd (ok≢err (rw (room, many) at e))
        | inr few ↦ rw (sym (ok-injective (rw (room, few) at e))) (
            fragments_fit session pkt addr cap total max_datagram total 0 payload
              (ground (arith, room)))
      ]
    ]
