-- ===== src/Tuic/Packet.antt =====
-- UDP packets of TUIC: a datagram decodes to what was encoded, fragments fit and join again.
use jamm_vpn.Base.{
  ℕ, zero, suc, ◌+◌, ◌-◌, ◌/◌, ◌%◌, ◌^◌, ◌<◌, ◌≤◌, ◌≡◌, refl, sym, inl, inr, Bool, true, false,
  Option, none, some, List, [], ◌∷◌, ◌++◌, ltb, leb, ◌==◌, arith, if◌then◌else◌, length, drop, All,
  length-append, length-take, take_all, Bool-cases,
}
use jamm_vpn.Base.Octets.{to_be, from_be-to_be}
use jamm_vpn.Error.{Result, ok, err, ◌>>=◌, ok-injective, ok≢err, bind_ok}
use jamm_vpn.Addr.{Target, domain, socket, v4, v6}
use jamm_vpn.Tuic.{
  TuicError, PacketHead, encode_addr, encode_packet_one, parse_address_sync, parse_body,
  decode_rest, decode_packet, address_len, chunks, encode_chunks, encode_with, encode_packets,
  capacity,
}
use jamm_vpn.Tuic.Address.{IsTarget, encode_address_parses, encode_address-length}

abbrev pub IsAddr : Option Target → Type 0
IsAddr none = Unit
IsAddr (some t) = IsTarget t

none_parses : (rest : List ℕ) → parse_address_sync (255 ∷ rest) ≡ ok (none, rest)
unfolding parse_address_sync parse_body
none_parses rest = refl

addr_parses :
    (o : Option Target) (bs rest : List ℕ)
    → IsAddr o
    → encode_addr o ≡ ok bs
    → parse_address_sync (bs ++ rest) ≡ ok (o, rest)
unfolding encode_addr
addr_parses none bs rest h e = rw (sym (ok-injective e)) (none_parses rest)
addr_parses (some t) bs rest h e = encode_address_parses t bs rest h e

rest_decodes :
    (head : PacketHead) (o : Option Target) (bs payload : List ℕ)
    → IsAddr o
    → encode_addr o ≡ ok bs
    → decode_rest head (length payload) (bs ++ payload) ≡ ok (record head { addr = o }, payload)
unfolding decode_rest
rest_decodes head o bs payload h e =
    rw (addr_parses o bs payload h e, take_all payload) (ground arith)

-- What the source's types and a sender's numbers bound.
abbrev pub IsHead : PacketHead → Type 0
IsHead h = (h.assoc_id < 2 ^ 16) × (h.pkt_id < 2 ^ 16) × (h.frag_id < h.frag_total) × IsAddr h.addr

header_decodes :
    (h : PacketHead) (size : ℕ) (rest : List ℕ)
    → IsHead h
    → size < 2 ^ 16
    → decode_packet (
        5
        ∷ 2
        ∷ (to_be 2 h.assoc_id
            ++ (to_be 2 h.pkt_id ++ (h.frag_total ∷ h.frag_id ∷ (to_be 2 size ++ rest)))))
      ≡ decode_rest (record h { addr = none }) size rest
unfolding decode_packet to_be
header_decodes h size rest (a, p, f, _) small =
    let assoc = from_be-to_be 2 h.assoc_id (omega (arith, a)) in
    let pkt = from_be-to_be 2 h.pkt_id (omega (arith, p)) in
    let len = from_be-to_be 2 size (omega (arith, small)) in
    rw (assoc, pkt, len) (ground (arith, f))

-- A datagram decodes to the head and the payload that were encoded: identifiers of 16 bits, the
-- fragment's number below the number of fragments, a payload of less than 2^16 bytes.
pub decode-encode_packet_one :
    (h : PacketHead) (payload bs : List ℕ)
    → IsHead h
    → length payload < 2 ^ 16
    → encode_packet_one h.assoc_id h.pkt_id h.frag_total h.frag_id h.addr payload ≡ ok bs
    → decode_packet bs ≡ ok (h, payload)
unfolding encode_packet_one
decode-encode_packet_one h payload bs k small e = of_addr (encode_addr h.addr) refl e
  where
    of_addr :
        (x : Result TuicError (List ℕ))
        → encode_addr h.addr ≡ x
        → (x >>= λ a. ok (
            5
            ∷ 2
            ∷ (to_be 2 h.assoc_id
                ++ (to_be 2 h.pkt_id
                    ++ (h.frag_total
                        ∷ h.frag_id
                        ∷ (to_be 2 (length payload % 2 ^ 16) ++ (a ++ payload)))))))
          ≡ ok bs
        → decode_packet bs ≡ ok (h, payload)
    of_addr (err y) o q = absurd (ok≢err q)
    of_addr (ok a) o q =
        let whole : length payload % 2 ^ 16 ≡ length payload = omega (arith, small) in
        rw
          (
            sym (ok-injective (rw whole at q)),
            header_decodes h (length payload) (a ++ payload) k small,
          )
          (rest_decodes (record h { addr = none }) h.addr a payload k.3 o)

-- The length of a datagram.
one_length :
    (h : PacketHead) (payload a bs : List ℕ)
    → encode_addr h.addr ≡ ok a
    → encode_packet_one h.assoc_id h.pkt_id h.frag_total h.frag_id h.addr payload ≡ ok bs
    → length bs ≡ 10 + length a + length payload
unfolding encode_packet_one to_be
one_length h payload a bs o e =
    rw (sym (ok-injective (rw o at e))) (omega (arith, length-append a payload))

one_at_least : (t : Target) (n : ℕ) → address_len t ≡ ok n → 1 ≤ n
unfolding address_len
one_at_least (domain host p) n e = elim (Bool-cases (ltb 255 (length host))) [
  | inl long ↦ absurd (ok≢err (rw long at e))
  | inr short ↦ omega (arith, ok-injective (rw short at e))
]
one_at_least (socket (v4 a) p) n e = omega (arith, ok-injective e)
one_at_least (socket (v6 a) p) n e = omega (arith, ok-injective e)

-- The address of a fragment, or none, takes no more than `address_len` says.
addr_fits :
    (t : Target) (n : ℕ)
    → address_len t ≡ ok n
    → (b : Bool) → (a : List ℕ) × (encode_addr (if b then some t else none) ≡ ok a) × (length a ≤ n)
unfolding encode_addr
addr_fits t n len true = let (a, o, l) = encode_address-length t n len in (a, o, omega (arith, l))
addr_fits t n len false = (255 ∷ [], refl, one_at_least t n len)

-- The datagrams of the chunks from the `i`-th on: none is longer than the room.
chunks_fit :
    (assoc pkt : ℕ) (t : Target) (n total room : ℕ)
    → address_len t ≡ ok n
    → (i : ℕ) (cs out : List (List ℕ)) → All (λ c. 10 + n + length c ≤ room) cs
    → encode_chunks assoc pkt t total i cs ≡ ok out
    → All (λ d. length d ≤ room) out
unfolding encode_chunks
chunks_fit assoc pkt t n total room len i [] out h e = rw (sym (ok-injective e)) tt
chunks_fit assoc pkt t n total room len i (c ∷ cs) out (fits, rest) e =
    let (d, made, e') =
      bind_ok
        (encode_packet_one assoc pkt (total % 256) (i % 256) (if i == 0 then some t else none) c) _
        e in
    let (ds, more, e'') = bind_ok (encode_chunks assoc pkt t total (i + 1) cs) _ e' in
    let (a, o, short) = addr_fits t n len (i == 0) in
    let head : PacketHead = record {
      assoc_id = assoc;
      pkt_id = pkt;
      frag_total = total % 256;
      frag_id = i % 256;
      addr = if i == 0 then some t else none;
    } in
    rw (sym (ok-injective e'')) (
      omega (arith, one_length head c a d o made, short, fits),
      chunks_fit assoc pkt t n total room len (i + 1) cs ds rest more,
    )

-- The chunks of a payload.
chunks_short :
    (fuel cap n room : ℕ) (xs : List ℕ)
    → 10 + n + cap ≤ room
    → All (λ c. 10 + n + length c ≤ room) (chunks fuel cap xs)
unfolding chunks
chunks_short fuel cap n room [] h = tt
chunks_short zero cap n room (x ∷ xs) h = tt
chunks_short (suc fuel) cap n room (x ∷ xs) h =
    (omega (arith, h, length-take cap (x ∷ xs)), chunks_short fuel cap n room (drop cap (x ∷ xs)) h)

pub capacity_lem : (m h cap : ℕ) → capacity m h ≡ ok cap → (h + cap ≡ m) × (1 ≤ cap)
unfolding capacity
capacity_lem m h cap e = elim (Bool-cases (leb m h)) [
  | inl small ↦ absurd (ok≢err (rw small at e))
  | inr large ↦
      let room = ok-injective (rw large at e) in (ground (arith, room), ground (arith, room))
]

with_fit :
    (assoc pkt : ℕ) (t : Target) (n room cap : ℕ) (payload : List ℕ) (out : List (List ℕ))
    → address_len t ≡ ok n
    → 10 + n + cap ≤ room
    → encode_with assoc pkt t payload cap ≡ ok out
    → All (λ d. length d ≤ room) out
unfolding encode_with
with_fit assoc pkt t n room cap [] out len h e =
    let (d, made, e') = bind_ok (encode_packet_one assoc pkt 1 0 (some t) []) _ e in
    let (a, o, short) = addr_fits t n len true in
    let head : PacketHead = record {
      assoc_id = assoc;
      pkt_id = pkt;
      frag_total = 1;
      frag_id = 0;
      addr = some t;
    } in
    rw (sym (ok-injective e')) (omega (arith, one_length head [] a d o made, short, h), tt)
with_fit assoc pkt t n room cap (x ∷ xs) out len h e =
    let total = (length (x ∷ xs) + cap - 1) / cap in
    elim (Bool-cases (ltb 255 total)) [
      | inl many ↦ absurd (ok≢err (rw many at e))
      | inr few ↦
          chunks_fit assoc pkt t n total room len 0 (chunks (length (x ∷ xs)) cap (x ∷ xs)) out
            (chunks_short (length (x ∷ xs)) cap n room (x ∷ xs) h) (rw few at e)
    ]

-- No datagram that `encode_packets` makes is longer than the connection allows.
pub encode_packets_fit :
    (assoc pkt : ℕ) (t : Target) (payload : List ℕ) (max_datagram : ℕ) (out : List (List ℕ))
    → encode_packets assoc pkt t payload max_datagram ≡ ok out
    → All (λ d. length d ≤ max_datagram) out
unfolding encode_packets
encode_packets_fit assoc pkt t payload max_datagram out e =
    let (n, len, e1) = bind_ok (address_len t) _ e in
    let (cap, room, e2) = bind_ok (capacity max_datagram (10 + n)) _ e1 in
    let fact = capacity_lem max_datagram (10 + n) cap room in
    with_fit assoc pkt t n max_datagram cap payload out len (omega (arith, fact)) e2
