-- ===== src/Dns.antt =====
-- crates/net/src/dns/message.rs: the question for the addresses of a name, and what is read from
-- the answer. A slice of the message is the bytes from its position on.
-- The cache of crates/net/src/dns/mod.rs is in Cache.
pub mod Message
pub mod Owner
pub mod Response
pub mod Cache
use Prim.Native.Nat.{bit_and}
use jamm_vpn.Base.{
  ℕ, zero, suc, ◌+◌, ◌≡◌, Bool, true, not, ◌&&◌, Option, none, some, List, [], ◌∷◌, ◌++◌, ltb, ◌==◌,
  if◌then◌else◌, length, take, drop, is_empty,
}
use jamm_vpn.Base.Octets.{to_be, from_be}
use jamm_vpn.Base.Text.{Str, split, trim_end_matches}
use jamm_vpn.Error.{Result, ok, err, ◌>>=◌}
use jamm_vpn.Addr.{IpAddr, v4, v6}

abbrev pub type_a : ℕ
type_a = 1

abbrev pub type_aaaa : ℕ
type_aaaa = 28

abbrev pub class_in : ℕ
class_in = 1

pub data DnsError : Type 0 where
  label_too_long short_header wrong_id name_out_of_bounds truncated_pointer bad_label name_too_long
        truncated_rr truncated_rdata :
      DnsError
  rcode : ℕ → DnsError

-- The labels of a name that are not empty, each behind its length.
unfoldable pub encode_labels : List Str → Result DnsError (List ℕ)
encode_labels [] = ok []
encode_labels (label ∷ labels) =
    let rest = encode_labels labels in
    if is_empty label
    then rest
    else if ltb 63 (length label)
    then err label_too_long
    else (do bs ← rest; ok (length label ∷ (label ++ bs)))

unfoldable pub encode_query : ℕ → Str → ℕ → Result DnsError (List ℕ)
encode_query id name qtype = do
  labels ← encode_labels (split b'.' (trim_end_matches b'.' name))
  ok (
      to_be 2 id
      ++ (1
          ∷ 0
          ∷ 0
          ∷ 1
          ∷ 0
          ∷ 0
          ∷ 0
          ∷ 0
          ∷ 0
          ∷ 0
          ∷ (labels ++ (0 ∷ (to_be 2 qtype ++ to_be 2 class_in)))))

-- The loop of `skip_name`, with the rounds it may still do: its check of `steps` stands behind a
-- round that read a label.
unfoldable pub skip_labels : ℕ → List ℕ → ℕ → Result DnsError ℕ
skip_labels zero buf pos = err name_too_long
skip_labels (suc left) buf pos = elim (drop pos buf) [
  | [] ↦ err name_out_of_bounds
  | len ∷ tail ↦
      if len == 0
      then ok (pos + 1)
      else if bit_and len 0xc0 == 0xc0
      then (if ltb (length buf) (pos + 2) then err truncated_pointer else ok (pos + 2))
      else if not (bit_and len 0xc0 == 0)
      then err bad_label
      else skip_labels left buf (pos + (1 + len))
]

unfoldable pub skip_name : List ℕ → ℕ → Result DnsError ℕ
unfolding skip_labels
skip_name buf pos = skip_labels 129 buf pos

-- Two bytes at a position.
unfoldable pub be16 : List ℕ → ℕ → ℕ
be16 buf pos = from_be (take 2 (drop pos buf))

-- The loop over the questions.
unfoldable pub skip_questions : ℕ → List ℕ → ℕ → Result DnsError ℕ
skip_questions zero buf pos = ok pos
skip_questions (suc n) buf pos = do pos ← skip_name buf pos; skip_questions n buf (pos + 4)

-- The address in the data of a record at a position, if it has one.
unfoldable pub address_at : ℕ → ℕ → List ℕ → ℕ → List IpAddr
address_at rtype rdlen buf pos =
    if rtype == type_a && (rdlen == 4)
    then v4 (from_be (take 4 (drop pos buf))) ∷ []
    else if rtype == type_aaaa && (rdlen == 16)
    then v6 (from_be (take 16 (drop pos buf))) ∷ []
    else []

-- The loop over the records.
unfoldable pub read_answers : ℕ → List ℕ → ℕ → List IpAddr → Result DnsError (List IpAddr)
unfolding be16 address_at
read_answers zero buf pos ips = ok ips
read_answers (suc n) buf pos ips = do
  pos ← skip_name buf pos
  (if ltb (length buf) (pos + 10)
      then err truncated_rr
      else let rdlen = be16 buf (pos + 8) in
        if ltb (length buf) (pos + 10 + rdlen)
        then err truncated_rdata
        else read_answers n buf (pos + 10 + rdlen)
            (ips ++ address_at (be16 buf pos) rdlen buf (pos + 10)))

unfoldable pub decode_response : List ℕ → Option ℕ → Result DnsError (List IpAddr)
unfolding be16 skip_questions read_answers
decode_response buf expect_id =
    let id_ok : Bool = elim expect_id [ none ↦ true | some eid ↦ be16 buf 0 == eid ] in
    let code = bit_and (be16 buf 2) 0x000f in
    if ltb (length buf) 12
    then err short_header
    else if not id_ok
    then err wrong_id
    else if not (code == 0)
    then err (rcode code)
    else (do pos ← skip_questions (be16 buf 4) buf 12; read_answers (be16 buf 6) buf pos [])
