-- ===== src/Tuic/Reassembly.antt =====
-- The fragments of a UDP packet, decoded, are numbered in order and join to the packet.
use native.Mathlib.Nat.{div-eq-sub-div, div-eq_of_lt}
use jamm_vpn.Base.{
  ℕ, zero, suc, ◌+◌, ◌-◌, ◌/◌, ◌%◌, ◌^◌, ◌<◌, ◌≤◌, ◌≡◌, refl, sym, ap, ◌∙◌, inl, inr, Bool, true,
  false, none, some, List, [], ◌∷◌, ◌++◌, ltb, leb, ◌==◌, arith, if◌then◌else◌, length, drop, All,
  length-take, length-drop, take-append-drop, Bool-cases,
}
use jamm_vpn.Error.{Result, ok, ◌>>=◌, ok-injective, ok≢err, bind_ok}
use jamm_vpn.Addr.{Target}
use jamm_vpn.Tuic.{
  TuicError, PacketHead, encode_packet_one, decode_packet, address_len, chunks, encode_chunks,
  encode_with, encode_packets, capacity,
}
use jamm_vpn.Tuic.Address.{IsTarget}
use jamm_vpn.Tuic.Packet.{IsAddr, IsHead, decode-encode_packet_one, capacity_lem}

-- What a receiver reads from the datagrams.
abbrev pub decode_all : List (List ℕ) → Result TuicError (List (PacketHead × List ℕ))
decode_all [] = ok []
decode_all (d ∷ ds) = decode_packet d >>= λ p. decode_all ds >>= λ ps. ok (p ∷ ps)

-- The pieces as fragments of one packet, numbered from `i` on; the address is on number 0.
abbrev pub numbered : ℕ → ℕ → Target → ℕ → ℕ → List (List ℕ) → List (PacketHead × List ℕ)
numbered assoc pkt t total i [] = []
numbered assoc pkt t total i (c ∷ cs) =
    (
      record {
        assoc_id = assoc;
        pkt_id = pkt;
        frag_total = total;
        frag_id = i;
        addr = if i == 0 then some t else none;
      },
      c,
    )
    ∷ numbered assoc pkt t total (i + 1) cs

abbrev pub joined : List (List ℕ) → List ℕ
joined [] = []
joined (c ∷ cs) = c ++ joined cs

joined-chunks :
    (fuel cap : ℕ) (xs : List ℕ) → 1 ≤ cap → length xs ≤ fuel → joined (chunks fuel cap xs) ≡ xs
unfolding chunks
joined-chunks fuel cap [] h k = refl
joined-chunks zero cap (x ∷ xs) h k = absurd (omega (arith, k))
joined-chunks (suc fuel) cap (x ∷ xs) h k =
    let less : length (drop cap (x ∷ xs)) ≤ fuel = omega (arith, h, k, length-drop cap (x ∷ xs)) in
    rw (joined-chunks fuel cap (drop cap (x ∷ xs)) h less) (take-append-drop cap (x ∷ xs))

-- `div_ceil`, one chunk at a time.
div_ceil_step :
    (n cap : ℕ) → 1 ≤ cap → 1 ≤ n → (n + cap - 1) / cap ≡ suc ((n - cap + cap - 1) / cap)
div_ceil_step n cap h k =
    let first : (n + cap - 1) / cap ≡ (n + cap - 1 - cap) / cap + 1 =
      div-eq-sub-div (omega (arith, h)) (omega (arith, k)) in
    let same : n + cap - 1 - cap ≡ n - 1 = omega arith in
    elim (Bool-cases (leb cap n)) [
      | inl more ↦
          let last : n - cap + cap - 1 ≡ n - 1 = ground (arith, more) in
          omega (arith, rw same at first, ap (λ m. m / cap) last)
      | inr less ↦
          let last : n - cap + cap - 1 ≡ cap - 1 = ground (arith, less) in
          let none_left : (cap - 1) / cap ≡ 0 = div-eq_of_lt (omega (arith, h)) in
          let one : (n - 1) / cap ≡ 0 = div-eq_of_lt (ground (arith, less, k)) in
          omega (arith, rw same at first, ap (λ m. m / cap) last, none_left, one)
    ]

length-chunks :
    (fuel cap : ℕ) (xs : List ℕ)
    → 1 ≤ cap
    → length xs ≤ fuel
    → length (chunks fuel cap xs) ≡ (length xs + cap - 1) / cap
unfolding chunks
length-chunks fuel cap [] h k = sym (div-eq_of_lt (omega (arith, h)))
length-chunks zero cap (x ∷ xs) h k = absurd (omega (arith, k))
length-chunks (suc fuel) cap (x ∷ xs) h k =
    let left = length-drop cap (x ∷ xs) in
    let again = length-chunks fuel cap (drop cap (x ∷ xs)) h (omega (arith, h, k, left)) in
    ap (λ m. suc m) (again ∙ ap (λ m. (m + cap - 1) / cap) left)
    ∙ sym (div_ceil_step (length (x ∷ xs)) cap h (omega arith))

chunks_short :
    (fuel cap : ℕ) (xs : List ℕ) → cap < 2 ^ 16 → All (λ c. length c < 2 ^ 16) (chunks fuel cap xs)
unfolding chunks
chunks_short fuel cap [] h = tt
chunks_short zero cap (x ∷ xs) h = tt
chunks_short (suc fuel) cap (x ∷ xs) h =
    (omega (arith, h, length-take cap (x ∷ xs)), chunks_short fuel cap (drop cap (x ∷ xs)) h)

is_addr : (t : Target) (b : Bool) → IsTarget t → IsAddr (if b then some t else none)
is_addr t true h = h
is_addr t false h = tt

-- What a sender's numbers and target satisfy.
abbrev pub IsSender : ℕ → ℕ → Target → Type 0
IsSender assoc pkt t = (assoc < 2 ^ 16) × (pkt < 2 ^ 16) × IsTarget t

chunks_decode :
    (assoc pkt : ℕ) (t : Target) (total : ℕ)
    → IsSender assoc pkt t
    → total ≤ 255
    → (i : ℕ) (cs out : List (List ℕ)) → i + length cs ≤ total
    → All (λ c. length c < 2 ^ 16) cs
    → encode_chunks assoc pkt t total i cs ≡ ok out
    → decode_all out ≡ ok (numbered assoc pkt t total i cs)
unfolding encode_chunks
chunks_decode assoc pkt t total h few i [] out room short e = rw (sym (ok-injective e))
chunks_decode assoc pkt t total h few i (c ∷ cs) out room (now, short) e =
    let (d, made, e') =
      bind_ok
        (encode_packet_one assoc pkt (total % 256) (i % 256) (if i == 0 then some t else none) c) _
        e in
    let (ds, more, e'') = bind_ok (encode_chunks assoc pkt t total (i + 1) cs) _ e' in
    let head : PacketHead = record {
      assoc_id = assoc;
      pkt_id = pkt;
      frag_total = total;
      frag_id = i;
      addr = if i == 0 then some t else none;
    } in
    let same : total % 256 ≡ total = omega (arith, few) in
    let same' : i % 256 ≡ i = omega (arith, few, room) in
    let good : IsHead head = (h.0, h.1, omega (arith, room), is_addr t (i == 0) h.2) in
    rw (
      sym (ok-injective e''),
      decode-encode_packet_one head c d good now (rw (same, same') at made),
      chunks_decode assoc pkt t total h few (i + 1) cs ds (omega (arith, room)) short more,
    )

with_decode :
    (assoc pkt : ℕ) (t : Target) (payload : List ℕ) (cap : ℕ) (out : List (List ℕ))
    → IsSender assoc pkt t
    → 1 ≤ cap
    → cap < 2 ^ 16
    → encode_with assoc pkt t payload cap ≡ ok out
    → (pieces : List (List ℕ)) × (decode_all out
        ≡ ok (numbered assoc pkt t (length pieces) 0 pieces))
      × (joined pieces ≡ payload)
unfolding encode_with
with_decode assoc pkt t [] cap out h some_room small e =
    let (d, made, e') = bind_ok (encode_packet_one assoc pkt 1 0 (some t) []) _ e in
    let head : PacketHead = record {
      assoc_id = assoc;
      pkt_id = pkt;
      frag_total = 1;
      frag_id = 0;
      addr = some t;
    } in
    let good : IsHead head = (h.0, h.1, omega arith, h.2) in
    (
      [] ∷ [],
      rw (sym (ok-injective e'), decode-encode_packet_one head [] d good (omega arith) made),
      refl,
    )
with_decode assoc pkt t (x ∷ xs) cap out h some_room small e =
    let n = length (x ∷ xs) in
    let total = (n + cap - 1) / cap in
    let cs = chunks n cap (x ∷ xs) in
    let count : length cs ≡ total = length-chunks n cap (x ∷ xs) some_room (omega arith) in
    elim (Bool-cases (ltb 255 total)) [
      | inl many ↦ absurd (ok≢err (rw many at e))
      | inr few ↦ (
        cs,
        rw count (
            chunks_decode assoc pkt t total h (ground (arith, few)) 0 cs out (omega (arith, count))
              (chunks_short n cap (x ∷ xs) small) (rw few at e)),
        joined-chunks n cap (x ∷ xs) some_room (omega arith),
      )
    ]

-- The datagrams that `encode_packets` makes for a connection whose datagrams stay below 2^16 bytes
-- all decode, as fragments 0, 1, … of one packet that agree on the number of fragments, which is
-- how many there are; the target stands on the first; the payloads join to the packet's.
pub encode_packets_join :
    (assoc pkt : ℕ) (t : Target) (payload : List ℕ) (max_datagram : ℕ) (out : List (List ℕ))
    → IsSender assoc pkt t
    → max_datagram ≤ 2 ^ 16
    → encode_packets assoc pkt t payload max_datagram ≡ ok out
    → (pieces : List (List ℕ)) × (decode_all out
        ≡ ok (numbered assoc pkt t (length pieces) 0 pieces))
      × (joined pieces ≡ payload)
unfolding encode_packets
encode_packets_join assoc pkt t payload max_datagram out h small e =
    let (n, len, e1) = bind_ok (address_len t) _ e in
    let (cap, room, e2) = bind_ok (capacity max_datagram (10 + n)) _ e1 in
    let fact = capacity_lem max_datagram (10 + n) cap room in
    with_decode assoc pkt t payload cap out h fact.1 (omega (arith, fact, small)) e2
