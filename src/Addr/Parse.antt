-- ===== src/Addr/Parse.antt =====
-- `str::parse` of Rust's standard library at `IpAddr`, `u8` and `u16`: what crates/core and
-- crates/net call it for. A reader takes a prefix of the text, or fails and takes nothing.
use jamm_vpn.Base.{
  ℕ, zero, suc, ◌+◌, ◌-◌, ◌*◌, ◌/◌, ◌%◌, ◌^◌, Bool, true, false, ◌&&◌, ◌||◌, not, Option, none,
  some, List, [], ◌∷◌, ◌++◌, ltb, leb, ◌==◌, if◌then◌else◌, length, is_empty,
}
use mathlib.Core.List.{foldl}
use jamm_vpn.Base.Text.{Str}
use jamm_vpn.Addr.{IpAddr, v4, v6}

abbrev Reader : Type 0 → Type 0
Reader A = Str → Option (A × Str)

infixl 5 ◌>>=◌
abbrev ◌>>=◌ {ℓ κ} : {A : Type ℓ} {B : Type κ} → Option A → (A → Option B) → Option B
none >>= f = none
some a >>= f = f a

-- `char::to_digit(radix)` for the radices 10 and 16.
unfoldable pub to_digit : ℕ → ℕ → Option ℕ
to_digit radix c =
    let d : ℕ =
      if leb b'0' c && leb c b'9'
      then c - b'0'
      else if leb b'a' c && leb c b'f'
      then c - b'a' + 10
      else if leb b'A' c && leb c b'F'
      then c - b'A' + 10
      else 99 in
    if ltb d radix then some d else none

-- The longest run of digits, and the rest.
read_digits : ℕ → Str → List ℕ × Str
read_digits radix [] = ([], [])
read_digits radix (c ∷ cs) =
    let rest = read_digits radix cs in
    elim (to_digit radix c) [ none ↦ ([], c ∷ cs) | some d ↦ (d ∷ rest.0, rest.1) ]

from_digits : ℕ → List ℕ → ℕ
from_digits radix = foldl (λ v d. v * radix + d) 0

-- `read_number` of at most `max` digits, of which one is there, below `bound`.
read_number : ℕ → ℕ → Bool → ℕ → Reader ℕ
read_number radix max zero_prefix bound s =
    let (ds, rest) = read_digits radix s in
    let lead : Bool = elim ds [ [] ↦ false | d ∷ _ ↦ d == 0 ] in
    let v = from_digits radix ds in
    if is_empty ds || ltb max (length ds)
    then none
    else if not zero_prefix && lead && ltb 1 (length ds)
    then none
    else if ltb v bound
    then some (v, rest)
    else none

read_given : ℕ → Str → Option Str
read_given c [] = none
read_given c (x ∷ xs) = if x == c then some xs else none

-- `read_separator`: the separator stands before every item but the first.
read_separator : {A : Type 0} → ℕ → ℕ → Reader A → Reader A
read_separator sep zero inner s = inner s
read_separator sep (suc i) inner s = do s' ← read_given sep s; inner s'

octet : ℕ → Reader ℕ
octet i = read_separator b'.' i (read_number 10 3 false 256)

read_ipv4 : Reader ℕ
read_ipv4 s = do
  (a, s) ← octet 0 s
  (b, s) ← octet 1 s
  (c, s) ← octet 2 s
  (d, s) ← octet 3 s
  some (((a * 256 + b) * 256 + c) * 256 + d, s)

-- `read_groups` with `left` slots free; the flag says that a trailing IPv4 address was read.
read_groups : ℕ → ℕ → Str → record { groups : List ℕ; ipv4 : Bool; rest : Str }
read_groups zero i s = record { groups = []; ipv4 = false; rest = s }
read_groups (suc left) i s =
    let embedded : Option (ℕ × Str) =
      if ltb 0 left then read_separator b':' i read_ipv4 s else none in
    elim embedded [
      | some (a, r) ↦ record { groups = (a / 2 ^ 16) ∷ (a % 2 ^ 16) ∷ []; ipv4 = true; rest = r }
      | none ↦ elim (read_separator b':' i (read_number 16 4 true (2 ^ 16)) s) [
        | none ↦ record { groups = []; ipv4 = false; rest = s }
        | some (g, r) ↦
            let m = read_groups left (i + 1) r in
            record { groups = g ∷ m.groups; ipv4 = m.ipv4; rest = m.rest }
      ]
    ]

zeros : ℕ → List ℕ
zeros zero = []
zeros (suc n) = 0 ∷ zeros n

read_ipv6 : Reader ℕ
read_ipv6 s =
    let head = read_groups 8 0 s in
    let hs = length head.groups in
    if hs == 8
    then some (from_digits (2 ^ 16) head.groups, head.rest)
    else if head.ipv4
    then none
    else do
      s ← read_given b':' head.rest
      s ← read_given b':' s
      let tail = read_groups (8 - (hs + 1)) 0 s
      let middle = zeros (8 - hs - length tail.groups)
      some (from_digits (2 ^ 16) (head.groups ++ (middle ++ tail.groups)), tail.rest)

-- `s.parse::<IpAddr>().ok()`: IPv4 first, and nothing may be left over.
unfoldable pub parse_ip : Str → Option IpAddr
unfolding to_digit read_digits from_digits read_number read_given read_separator octet read_ipv4
    read_groups zeros read_ipv6
parse_ip s =
    let whole : IpAddr × Str → Option IpAddr = λ r. if is_empty r.1 then some r.0 else none in
    elim (read_ipv4 s) [
      | some (a, r) ↦ whole (v4 a, r)
      | none ↦ elim (read_ipv6 s) [ none ↦ none | some (a, r) ↦ whole (v6 a, r) ]
    ]

-- `s.parse::<uN>().ok()` for a type with values below `bound`: a leading `+` is allowed.
unfoldable pub parse_uint : ℕ → Str → Option ℕ
unfolding to_digit read_digits from_digits
parse_uint bound s =
    let body : Str = elim s [ [] ↦ [] | c ∷ cs ↦ if c == b'+' then cs else c ∷ cs ] in
    let (ds, rest) = read_digits 10 body in
    let v = from_digits 10 ds in
    if is_empty ds || not (is_empty rest) then none else if ltb v bound then some v else none
