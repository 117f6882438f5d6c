-- ===== src/Vless.antt =====
-- crates/net/src/vless.rs: the requests of VLESS and the identifiers of its users.
pub mod Uuid
use Prim.Native.Nat.{bit_and, bit_or}
use jamm_vpn.Base.{
  ℕ, zero, suc, ◌+◌, ◌*◌, ◌/◌, ◌%◌, ◌^◌, ◌≡◌, Option, none, some, List, [], ◌∷◌, ◌++◌, ◌==◌,
  if◌then◌else◌, is_empty, length, take, min,
}
use jamm_vpn.Base.Octets.{to_be}
use jamm_vpn.Base.Text.{Str}
use jamm_vpn.Addr.{IpAddr, v4, v6, Target, domain, socket, port}
use jamm_vpn.Addr.Parse.{to_digit}

abbrev pub version : ℕ
version = 0x00

abbrev pub cmd_tcp : ℕ
cmd_tcp = 0x01

abbrev pub cmd_udp : ℕ
cmd_udp = 0x02

-- What `push_address` appends.
unfoldable pub push_address : Target → List ℕ
push_address (domain host p) = let len = min (length host) 255 in 2 ∷ len % 256 ∷ take len host
push_address (socket (v4 a) p) = 1 ∷ to_be 4 a
push_address (socket (v6 a) p) = 3 ∷ to_be 16 a

-- The loop that writes the length of the flow; ten rounds are enough for 64 bits.
unfoldable pub push_len : ℕ → ℕ → List ℕ
push_len zero len = []
push_len (suc rounds) len =
    let more = push_len rounds (len / 2 ^ 7) in
    if len / 2 ^ 7 == 0 then bit_and len 0x7f ∷ [] else bit_or (bit_and len 0x7f) 0x80 ∷ more

unfoldable pub addon : Str → List ℕ
addon flow = 0x0a ∷ (push_len 10 (length flow) ++ flow)

-- The length of the addon, and the addon.
unfoldable pub flow_part : Option Str → List ℕ
flow_part none = 0 ∷ []
flow_part (some f) = if is_empty f then 0 ∷ [] else length (addon f) % 256 ∷ addon f

unfoldable pub encode_request : List ℕ → Option Str → Target → List ℕ
encode_request uuid flow target =
    version
    ∷ (uuid ++ (flow_part flow ++ (cmd_tcp ∷ (to_be 2 (port target) ++ push_address target))))

unfoldable pub encode_request_udp : List ℕ → Target → List ℕ
encode_request_udp uuid target =
    version ∷ (uuid ++ (0 ∷ cmd_udp ∷ (to_be 2 (port target) ++ push_address target)))

-- `filter(|c| *c != b'-')`
unfoldable pub without_dashes : Str → Str
without_dashes [] = []
without_dashes (c ∷ cs) = let rest = without_dashes cs in if c == b'-' then rest else c ∷ rest

-- One byte from two digits.
unfoldable pub hex_pair : ℕ → ℕ → Option ℕ
hex_pair a b = elim (to_digit 16 a) [
  | none ↦ none
  | some hi ↦ elim (to_digit 16 b) [ none ↦ none | some lo ↦ some ((hi * 16 + lo) % 256) ]
]

-- The pairs in order; a digit over is left out, as `chunks_exact` does.
unfoldable pub hex_pairs : Str → Option (List ℕ)
hex_pairs [] = some []
hex_pairs (a ∷ []) = some []
hex_pairs (a ∷ b ∷ rest) = elim (hex_pair a b) [
  | none ↦ none
  | some v ↦ elim (hex_pairs rest) [ none ↦ none | some vs ↦ some (v ∷ vs) ]
]

unfoldable pub parse_uuid : Str → Option (List ℕ)
parse_uuid s = let hex = without_dashes s in if length hex == 32 then hex_pairs hex else none
