-- ===== src/Hysteria2.antt =====
-- crates/net/src/hysteria2/proto.rs: QUIC integers and UDP datagrams of Hysteria2. An address is
-- its text, `target.to_string()`; a decoder's position in its buffer is what is left of the buffer.
pub mod Varint
pub mod Datagram
pub mod Stream
use Prim.Native.Nat.{bit_and, bit_or}
use jamm_vpn.Base.{
  ℕ, zero, suc, ◌+◌, ◌-◌, ◌*◌, ◌/◌, ◌%◌, ◌^◌, ◌≡◌, Bool, true, false, ◌||◌, Option, none, some,
  List, [], ◌∷◌, ◌++◌, ltb, leb, ◌==◌, if◌then◌else◌, length, take, drop, min,
}
use jamm_vpn.Base.Octets.{to_be, from_be}
use jamm_vpn.Error.{Result, ok, err, ◌>>=◌}

-- The kinds of `io::Error` that the codec makes.
pub data HysteriaError : Type 0 where
  small_datagram many_fragments short_datagram bad_fragments bad_addr_len addr_past_end :
      HysteriaError

-- What `put_varint` appends.
unfoldable pub put_varint : ℕ → List ℕ
put_varint v =
    if ltb v (2 ^ 6)
    then v % 256 ∷ []
    else if ltb v (2 ^ 14)
    then to_be 2 (bit_or (v % 2 ^ 16) 0x4000)
    else if ltb v (2 ^ 30)
    then to_be 4 (bit_or (v % 2 ^ 32) 0x80000000)
    else to_be 8 (bit_or v 0xC000000000000000)

-- The bytes behind the first one.
unfoldable pub extra_of : ℕ → ℕ
extra_of prefix = if prefix == 0 then 0 else if prefix == 1 then 1 else if prefix == 2 then 3 else 7

-- `for b in … { val = (val << 8) | b }`
unfoldable pub read_octets : ℕ → List ℕ → ℕ
read_octets val [] = val
read_octets val (b ∷ bs) = read_octets (bit_or (val * 2 ^ 8 % 2 ^ 64) b) bs

unfoldable pub read_varint_buf : List ℕ → Option (ℕ × ℕ)
read_varint_buf [] = none
read_varint_buf (first ∷ rest) =
    let extra = extra_of (first / 2 ^ 6) in
    if ltb (length rest) extra
    then none
    else some (read_octets (bit_and first 0x3f) (take extra rest), 1 + extra)

pub record UdpHead : Type 0 where
  pub session : ℕ
  pub pkt_id : ℕ
  pub frag_id : ℕ
  pub frag_total : ℕ

-- One round of the loop of `encode_udp_packets`.
unfoldable pub fragment : UdpHead → List ℕ → List ℕ → List ℕ
fragment h addr chunk =
    to_be 4 h.session
    ++ (to_be 2 h.pkt_id
        ++ (h.frag_id ∷ h.frag_total ∷ (put_varint (length addr) ++ (addr ++ chunk))))

-- The rounds from the `i`-th on, `n` of them, of `total`; `payload` is what lies from `i * cap` on.
unfoldable pub fragments : ℕ → ℕ → List ℕ → ℕ → ℕ → ℕ → ℕ → List ℕ → List (List ℕ)
fragments session pkt_id addr cap total zero i payload = []
fragments session pkt_id addr cap total (suc n) i payload =
    fragment
      (record { session = session; pkt_id = pkt_id; frag_id = i % 256; frag_total = total % 256 })
      addr (take cap payload)
    ∷ fragments session pkt_id addr cap total n (i + 1) (drop cap payload)

-- `len.div_ceil(cap).max(1)`
unfoldable pub total_of : ℕ → ℕ → ℕ
total_of len cap = let n = (len + cap - 1) / cap in if n == 0 then 1 else n

unfoldable pub encode_udp_packets :
    ℕ → ℕ → List ℕ → List ℕ → ℕ → Result HysteriaError (List (List ℕ))
encode_udp_packets session pkt_id addr payload max_datagram =
    let header = 4 + 2 + 1 + 1 + length (put_varint (length addr)) + length addr in
    let cap = max_datagram - header in
    let total = total_of (length payload) cap in
    if leb max_datagram header
    then err small_datagram
    else if ltb 255 total
    then err many_fragments
    else ok (fragments session pkt_id addr cap total total 0 payload)

-- Behind the eight bytes of the head: the address is skipped.
unfoldable pub skip_addr : UdpHead → List ℕ → Result HysteriaError (UdpHead × List ℕ)
skip_addr head buf = elim (read_varint_buf buf) [
  | none ↦ err bad_addr_len
  | some (addr_len, consumed) ↦
      if ltb (length buf) (consumed + addr_len)
      then err addr_past_end
      else ok (head, drop (consumed + addr_len) buf)
]

unfoldable pub decode_udp_packet : List ℕ → Result HysteriaError (UdpHead × List ℕ)
decode_udp_packet (a ∷ b ∷ c ∷ d ∷ p ∷ p' ∷ frag_id ∷ frag_total ∷ rest) =
    if frag_total == 0 || leb frag_total frag_id
    then err bad_fragments
    else skip_addr
        (record {
          session = from_be (a ∷ b ∷ c ∷ d ∷ []);
          pkt_id = from_be (p ∷ p' ∷ []);
          frag_id = frag_id;
          frag_total = frag_total;
        })
        rest
decode_udp_packet _ = err short_datagram
