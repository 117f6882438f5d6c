-- ===== src/Dns/Response.antt =====
-- An answer yields its addresses, for crates/net/src/dns/message.rs.
use Prim.Native.Nat.{bit_and}
use mathlib.Core.List.{append_assoc, append-nil}
use jamm_vpn.Base.{
  ℕ, ◌+◌, ◌^◌, ◌<◌, ◌≤◌, ◌≡◌, refl, sym, ap, ◌∙◌, inl, inr, Bool, true, false, ◌&&◌, some, List, [],
  ◌∷◌, ◌++◌, ltb, ◌==◌, if◌then◌else◌, arith, length, take, drop, length-append, length-drop,
  take-append, All, Bool-cases,
}
use jamm_vpn.Base.Octets.{to_be, from_be}
use jamm_vpn.Base.Text.{Str, split, trim_end_matches}
use jamm_vpn.Error.{ok, ok-injective, bind_ok}
use jamm_vpn.Addr.{IpAddr, v4, v6}
use jamm_vpn.Dns.{
  encode_labels, encode_query, skip_name, be16, skip_questions, address_at, read_answers,
  decode_response, type_a, type_aaaa, class_in,
}
use jamm_vpn.Dns.Owner.{Owner, IsOwner, print_owner, skip_name-print_owner}
use jamm_vpn.Dns.Message.{drop-drop, drop_past, skip-encode_labels}

-- A record: its owner, type, class, time to live and data.
pub record Record : Type 0 where
  pub owner : Owner
  pub rtype : ℕ
  pub class : ℕ
  pub ttl : ℕ
  pub rdata : List ℕ

abbrev pub IsRecord : Record → Type 0
IsRecord r = IsOwner r.owner × (r.rtype < 2 ^ 16) × (length r.rdata < 2 ^ 16)

-- RFC 1035, 4.1.3: what stands behind the owner.
abbrev pub print_fields : Record → List ℕ
print_fields r =
    to_be 2 r.rtype ++ (to_be 2 r.class ++ (to_be 4 r.ttl ++ (to_be 2 (length r.rdata) ++ r.rdata)))

abbrev pub print_record : Record → List ℕ
print_record r = print_owner r.owner ++ print_fields r

abbrev pub print_records : List Record → List ℕ
print_records [] = []
print_records (r ∷ rs) = print_record r ++ print_records rs

-- What a record says: an address, if its type and the length of its data fit.
abbrev pub address_of : ℕ → List ℕ → List IpAddr
address_of rtype rdata =
    if rtype == type_a && (length rdata == 4)
    then v4 (from_be rdata) ∷ []
    else if rtype == type_aaaa && (length rdata == 16)
    then v6 (from_be rdata) ∷ []
    else []

abbrev pub addresses : List Record → List IpAddr
addresses [] = []
addresses (r ∷ rs) = address_of r.rtype r.rdata ++ addresses rs

be16_at :
    (buf rest : List ℕ) (pos v : ℕ)
    → v < 2 ^ 16
    → drop pos buf ≡ to_be 2 v ++ rest
    → be16 buf pos ≡ v
unfolding be16 to_be from_be
be16_at buf rest pos v h e = rw e (omega (arith, h))

-- The guard on the data's length makes the slice the whole data.
slice :
    (n : ℕ) (b : Bool) (rdata rest : List ℕ) (f : List ℕ → IpAddr) (others : List IpAddr)
    → (if b && (length rdata == n) then f (take n (rdata ++ rest)) ∷ [] else others)
      ≡ (if b && (length rdata == n) then f rdata ∷ [] else others)
slice n false rdata rest f others = refl
slice n true rdata rest f others = elim (Bool-cases (length rdata == n)) [
  | inl fits ↦
      let same : length rdata ≡ n = ground (arith, fits) in
      rw (sym same, take-append rdata rest) refl
  | inr other ↦ rw other refl
]

address_at-address_of :
    (rtype : ℕ) (rdata rest buf : List ℕ) (pos : ℕ)
    → drop pos buf ≡ rdata ++ rest
    → address_at rtype (length rdata) buf pos ≡ address_of rtype rdata
unfolding address_at
address_at-address_of rtype rdata rest buf pos e =
    rw (address_at, e)
      (slice 4 (rtype == type_a) rdata rest (λ bs. v4 (from_be bs)) _
        ∙ ap
            (λ others.
              if rtype == type_a && (length rdata == 4) then v4 (from_be rdata) ∷ [] else others)
            (slice 16 (rtype == type_aaaa) rdata rest (λ bs. v6 (from_be bs)) []))

-- The places in a record, from the end of its owner.
module _ (r : Record) (buf more : List ℕ) (pos : ℕ)
    (here : drop pos buf ≡ print_fields r ++ more) where
  at_len : drop (pos + 8) buf ≡ to_be 2 (length r.rdata) ++ (r.rdata ++ more)
  unfolding to_be
  at_len = sym (drop-drop pos 8 buf) ∙ ap (drop 8) here

  at_data : drop (pos + 10) buf ≡ r.rdata ++ more
  unfolding to_be
  at_data = sym (drop-drop pos 10 buf) ∙ ap (drop 10) here

  enough_head : ltb (length buf) (pos + 10) ≡ false
  unfolding to_be
  enough_head = ground (arith, length-drop pos buf, ap (λ b. length b) here)

  enough_data : ltb (length buf) (pos + 10 + length r.rdata) ≡ false
  enough_data = ground (
    arith,
    enough_head,
    length-drop (pos + 10) buf,
    ap (λ b. length b) at_data,
    length-append r.rdata more,
  )

  at_type : r.rtype < 2 ^ 16 → be16 buf pos ≡ r.rtype
  unfolding be16 to_be from_be
  at_type h = rw here (omega (arith, h))

read_answers-print_records :
    (rs : List Record) (buf rest : List ℕ) (pos : ℕ) (ips : List IpAddr)
    → All IsRecord rs
    → drop pos buf ≡ print_records rs ++ rest
    → read_answers (length rs) buf pos ips ≡ ok (ips ++ addresses rs)
unfolding read_answers
read_answers-print_records [] buf rest pos ips h e = ap (λ r. ok r) (sym (append-nil ips))
read_answers-print_records (r ∷ rs) buf rest pos ips ((owner, rtype, len), h) e =
    let more = print_records rs ++ rest in
    let here : drop pos buf ≡ print_owner r.owner ++ (print_fields r ++ more) =
      e
      ∙ append_assoc (print_record r) (print_records rs) rest
      ∙ append_assoc (print_owner r.owner) (print_fields r) more in
    let end = pos + length (print_owner r.owner) in
    let past : drop end buf ≡ print_fields r ++ more =
      drop_past pos buf (print_owner r.owner) (print_fields r ++ more) here in
    let next = drop_past (end + 10) buf r.rdata more (at_data r buf more end past) in
    rw
      (
        skip_name-print_owner r.owner buf _ pos owner here,
        enough_head r buf more end past,
        be16_at buf _ (end + 8) (length r.rdata) len (at_len r buf more end past),
        enough_data r buf more end past,
        at_type r buf more end past rtype,
        address_at-address_of r.rtype r.rdata more buf (end + 10) (at_data r buf more end past),
      )
      (read_answers-print_records rs buf rest (end + 10 + length r.rdata) _ h next
        ∙ ap (λ a. ok a) (append_assoc ips (address_of r.rtype r.rdata) (addresses rs)))

not_below : (n : ℕ) → 12 ≤ n → ltb n 12 ≡ false
not_below n h = ground (arith, h)

equals_itself : (n : ℕ) → (n == n) ≡ true
equals_itself n = ground arith

-- An answer that repeats the question: with any flags, and with other sections behind the records.
abbrev pub print_response : ℕ → ℕ → ℕ → ℕ → List ℕ → List Record → List ℕ → List ℕ
print_response id flags authorities additionals question rs others =
    to_be 2 id
    ++ (to_be 2 flags
        ++ (to_be 2 1
            ++ (to_be 2 (length rs)
                ++ (to_be 2 authorities
                    ++ (to_be 2 additionals ++ (question ++ (print_records rs ++ others)))))))

-- From an answer to a query of at most 128 labels, with the query's number, any flags whose error
-- code is 0, any other sections, and records of any class whose owners are written in labels, with
-- or without a pointer at the end, are read just the addresses of its records of type A and AAAA,
-- in their order.
pub decode_response-print_response :
    (id : ℕ) (name : Str) (qtype : ℕ) (q : List ℕ) (flags authorities additionals : ℕ)
    (rs : List Record) (others : List ℕ)
    → id < 2 ^ 16
    → encode_query id name qtype ≡ ok q
    → length (split b'.' (trim_end_matches b'.' name)) ≤ 128
    → flags < 2 ^ 16
    → bit_and flags 0x000f ≡ 0
    → length rs < 2 ^ 16
    → All IsRecord rs
    → decode_response
        (print_response id flags authorities additionals (drop 12 q) rs others)
        (some id)
      ≡ ok (addresses rs)
unfolding decode_response encode_query skip_questions skip_name be16 from_be to_be
decode_response-print_response id name qtype q flags authorities additionals rs others small e few
      wide no_error count h =
    let labels = split b'.' (trim_end_matches b'.' name) in
    let (bs, made, e') = bind_ok (encode_labels labels) _ e in
    let tail = to_be 2 qtype ++ to_be 2 class_in in
    let records = print_records rs ++ others in
    let buf = print_response id flags authorities additionals (drop 12 q) rs others in
    let question : drop 12 q ≡ bs ++ (0 ∷ tail) = rw (sym (ok-injective e')) refl in
    let here : drop 12 buf ≡ (bs ++ (0 ∷ tail)) ++ records = ap (λ qs. qs ++ records) question in
    let name_end =
      skip-encode_labels labels bs 129 buf (tail ++ records) 12 made (omega (arith, few))
        (here ∙ append_assoc bs (0 ∷ tail) records) in
    let past : drop (12 + length (bs ++ (0 ∷ tail))) buf ≡ records =
      drop_past 12 buf (bs ++ (0 ∷ tail)) records here in
    let same : 12 + length (bs ++ (0 ∷ tail)) ≡ 12 + length bs + 1 + 4 =
      omega (arith, length-append bs (0 ∷ tail)) in
    let long : ltb (length buf) 12 ≡ false = not_below (length buf) (omega arith) in
    let id_eq : be16 buf 0 ≡ id = omega (arith, small) in
    let flags_eq : be16 buf 2 ≡ flags = omega (arith, wide) in
    let ancount : be16 buf 6 ≡ length rs = omega (arith, count) in
    rw (long, id_eq, equals_itself id, flags_eq, no_error, ancount, name_end)
      (read_answers-print_records rs buf others (12 + length bs + 1 + 4) [] h (rw same at past))
