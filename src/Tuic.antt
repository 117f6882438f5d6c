-- ===== src/Tuic.antt =====
-- crates/net/src/tuic/proto.rs: the commands of TUIC v5, and UDP packets in fragments. A decoder's
-- position in its buffer is what is left of the buffer from there.
pub mod Address
pub mod Packet
pub mod Reassembly
use jamm_vpn.Base.{
  ℕ, zero, suc, ◌+◌, ◌-◌, ◌*◌, ◌/◌, ◌%◌, ◌^◌, ◌≡◌, Bool, true, false, not, ◌||◌, Option, none, some,
  List, [], ◌∷◌, ◌++◌, ltb, leb, ◌==◌, if◌then◌else◌, is_empty, length, take, drop,
}
use jamm_vpn.Base.Octets.{to_be, from_be}
use jamm_vpn.Base.Text.{Str}
use jamm_vpn.Base.Utf8.{from_utf8_lossy}
use jamm_vpn.Error.{Result, ok, err, ◌>>=◌}
use jamm_vpn.Addr.{IpAddr, v4, v6, Target, domain, socket}

-- The kinds of `io::Error` that the codec makes.
pub data TuicError : Type 0 where
  long_domain small_datagram many_fragments short_packet not_packet bad_fragments payload_past_end
        address_past_end :
      TuicError
  unknown_atyp : ℕ → TuicError

abbrev pub version : ℕ
version = 0x05

abbrev pub cmd_authenticate : ℕ
cmd_authenticate = 0x00

abbrev pub cmd_connect : ℕ
cmd_connect = 0x01

abbrev pub cmd_packet : ℕ
cmd_packet = 0x02

abbrev pub cmd_dissociate : ℕ
cmd_dissociate = 0x03

abbrev pub atyp_domain : ℕ
atyp_domain = 0x00

abbrev pub atyp_ipv4 : ℕ
atyp_ipv4 = 0x01

abbrev pub atyp_ipv6 : ℕ
atyp_ipv6 = 0x02

abbrev pub atyp_none : ℕ
atyp_none = 0xff

pub record PacketHead : Type 0 where
  pub assoc_id : ℕ
  pub pkt_id : ℕ
  pub frag_total : ℕ
  pub frag_id : ℕ
  pub addr : Option Target

-- What is appended to the buffer.
unfoldable pub encode_address : Target → Result TuicError (List ℕ)
encode_address (domain host p) =
    if ltb 255 (length host)
    then err long_domain
    else ok (atyp_domain ∷ length host % 256 ∷ (host ++ to_be 2 p))
encode_address (socket (v4 a) p) = ok (atyp_ipv4 ∷ (to_be 4 a ++ to_be 2 p))
encode_address (socket (v6 a) p) = ok (atyp_ipv6 ∷ (to_be 16 a ++ to_be 2 p))

unfoldable pub encode_authenticate : List ℕ → List ℕ → List ℕ
encode_authenticate uuid token = version ∷ cmd_authenticate ∷ (uuid ++ token)

unfoldable pub encode_connect : Target → Result TuicError (List ℕ)
encode_connect target = do addr ← encode_address target; ok (version ∷ cmd_connect ∷ addr)

unfoldable pub encode_dissociate : ℕ → List ℕ
encode_dissociate assoc_id = version ∷ cmd_dissociate ∷ to_be 2 assoc_id

unfoldable pub address_len : Target → Result TuicError ℕ
address_len (domain host p) =
    if ltb 255 (length host) then err long_domain else ok (1 + 1 + length host + 2)
address_len (socket (v4 a) p) = ok (1 + 4 + 2)
address_len (socket (v6 a) p) = ok (1 + 16 + 2)

unfoldable pub encode_addr : Option Target → Result TuicError (List ℕ)
encode_addr none = ok (atyp_none ∷ [])
encode_addr (some t) = encode_address t

unfoldable pub encode_packet_one :
    ℕ → ℕ → ℕ → ℕ → Option Target → List ℕ → Result TuicError (List ℕ)
encode_packet_one assoc_id pkt_id frag_total frag_id addr payload = do
  a ← encode_addr addr
  ok (
      version
      ∷ cmd_packet
      ∷ (to_be 2 assoc_id
          ++ (to_be 2 pkt_id
              ++ (frag_total ∷ frag_id ∷ (to_be 2 (length payload % 2 ^ 16) ++ (a ++ payload))))))

-- `payload.chunks(cap)`; each chunk takes a byte, so the length bounds the rounds.
unfoldable pub chunks : ℕ → ℕ → List ℕ → List (List ℕ)
chunks fuel cap [] = []
chunks zero cap (x ∷ xs) = []
chunks (suc fuel) cap (x ∷ xs) = take cap (x ∷ xs) ∷ chunks fuel cap (drop cap (x ∷ xs))

-- The loop over the chunks from the `i`-th on; only the first has the address.
unfoldable pub encode_chunks :
    ℕ → ℕ → Target → ℕ → ℕ → List (List ℕ) → Result TuicError (List (List ℕ))
encode_chunks assoc_id pkt_id target frag_total i [] = ok []
encode_chunks assoc_id pkt_id target frag_total i (chunk ∷ cs) = do
  d ←
      encode_packet_one assoc_id pkt_id (frag_total % 256) (i % 256)
        (if i == 0 then some target else none) chunk
  ds ← encode_chunks assoc_id pkt_id target frag_total (i + 1) cs
  ok (d ∷ ds)

-- `max_datagram.checked_sub(header).filter(|c| *c > 0)`
unfoldable pub capacity : ℕ → ℕ → Result TuicError ℕ
capacity max_datagram header =
    if leb max_datagram header then err small_datagram else ok (max_datagram - header)

-- With the room for a payload in one datagram at hand.
unfoldable pub encode_with : ℕ → ℕ → Target → List ℕ → ℕ → Result TuicError (List (List ℕ))
encode_with assoc_id pkt_id target payload cap =
    if is_empty payload
    then (do d ← encode_packet_one assoc_id pkt_id 1 0 (some target) []; ok (d ∷ []))
    else (let frag_total = (length payload + cap - 1) / cap in
        if ltb 255 frag_total
        then err many_fragments
        else encode_chunks assoc_id pkt_id target frag_total 0
            (chunks (length payload) cap payload))

unfoldable pub encode_packets : ℕ → ℕ → Target → List ℕ → ℕ → Result TuicError (List (List ℕ))
encode_packets assoc_id pkt_id target payload max_datagram = do
  len ← address_len target
  cap ← capacity max_datagram (10 + len)
  encode_with assoc_id pkt_id target payload cap

-- `need(pos, n)`, then the next `n` bytes.
unfoldable pub need : ℕ → List ℕ → Result TuicError (List ℕ × List ℕ)
need n buf = if ltb (length buf) n then err address_past_end else ok (take n buf, drop n buf)

-- The address behind its type.
unfoldable pub parse_body : ℕ → List ℕ → Result TuicError (Option Target × List ℕ)
parse_body atyp buf =
    if atyp == atyp_none
    then ok (none, buf)
    else if atyp == atyp_ipv4
    then (do
      (o, rest) ← need 6 buf
      ok (some (socket (v4 (from_be (take 4 o))) (from_be (drop 4 o))), rest))
    else if atyp == atyp_ipv6
    then (do
      (o, rest) ← need 18 buf
      ok (some (socket (v6 (from_be (take 16 o))) (from_be (drop 16 o))), rest))
    else if atyp == atyp_domain
    then (do
      (l, rest) ← need 1 buf
      let len = from_be l
      (o, rest) ← need (len + 2) rest
      ok (some (domain (from_utf8_lossy (take len o)) (from_be (drop len o))), rest))
    else err (unknown_atyp atyp)

unfoldable pub parse_address_sync : List ℕ → Result TuicError (Option Target × List ℕ)
parse_address_sync [] = err address_past_end
parse_address_sync (atyp ∷ buf) = parse_body atyp buf

-- Behind the ten bytes of the header: the address, then `size` bytes.
unfoldable pub decode_rest : PacketHead → ℕ → List ℕ → Result TuicError (PacketHead × List ℕ)
decode_rest head size buf = do
  (addr, rest) ← parse_address_sync buf
  (if ltb (length rest) size
      then err payload_past_end
      else ok (record head { addr = addr }, take size rest))

unfoldable pub decode_packet : List ℕ → Result TuicError (PacketHead × List ℕ)
decode_packet (v ∷ c ∷ a ∷ a' ∷ p ∷ p' ∷ frag_total ∷ frag_id ∷ s ∷ s' ∷ rest) =
    if not (v == version) || not (c == cmd_packet)
    then err not_packet
    else if frag_total == 0 || leb frag_total frag_id
    then err bad_fragments
    else decode_rest
        (record {
          assoc_id = from_be (a ∷ a' ∷ []);
          pkt_id = from_be (p ∷ p' ∷ []);
          frag_total = frag_total;
          frag_id = frag_id;
          addr = none;
        })
        (from_be (s ∷ s' ∷ [])) rest
decode_packet _ = err short_packet
