-- ===== src/Dns/Owner.antt =====
-- Names in an answer, with a pointer at their end or without, for `skip_name` of
-- crates/net/src/dns/message.rs.
use Prim.Native.Nat.{bit_and}
use mathlib.Core.List.{append_assoc}
use jamm_vpn.Base.{
  ℕ, zero, suc, ◌+◌, ◌*◌, ◌/◌, ◌%◌, ◌^◌, ◌<◌, ◌≤◌, ◌≡◌, refl, ap, ◌∙◌, false, List, [], ◌∷◌, ◌++◌,
  ltb, ◌==◌, All, arith, length, drop, length-append, length-drop,
}
use jamm_vpn.Base.Bits.{bit_and_shifted}
use jamm_vpn.Base.Text.{Str}
use jamm_vpn.Error.{ok}
use jamm_vpn.Dns.{skip_labels, skip_name}
use jamm_vpn.Dns.Message.{drop_past, skip_labels-zero, skip_labels-label}

-- How a name ends: at the root, or with a pointer to the rest of it elsewhere in the message.
pub data NameEnd : Type 0 where
  root : NameEnd
  pointer : ℕ → NameEnd

pub record Owner : Type 0 where
  pub labels : List Str
  pub last : NameEnd

abbrev pub IsEnd : NameEnd → Type 0
IsEnd root = Unit
IsEnd (pointer p) = p < 2 ^ 14

abbrev pub IsLabel : Str → Type 0
IsLabel l = (1 ≤ length l) × (length l ≤ 63)

abbrev pub IsOwner : Owner → Type 0
IsOwner o = All IsLabel o.labels × (length o.labels ≤ 128) × IsEnd o.last

-- RFC 1035, 4.1.4.
abbrev pub print_labels : List Str → List ℕ
print_labels [] = []
print_labels (l ∷ ls) = length l ∷ l ++ print_labels ls

abbrev pub print_end : NameEnd → List ℕ
print_end root = 0 ∷ []
print_end (pointer p) = (0xc0 + p / 256) ∷ p % 256 ∷ []

abbrev pub print_owner : Owner → List ℕ
print_owner o = print_labels o.labels ++ print_end o.last

mask_pointer : (n : ℕ) → n < 64 → bit_and (0xc0 + n) 0xc0 ≡ 0xc0
mask_pointer n h =
    let e : (0xc0 + n) / 2 ^ 6 ≡ 3 = omega (arith, h) in
    bit_and_shifted 6 (0xc0 + n) 3 ∙ ap (λ m. bit_and m 3 * 2 ^ 6) e

skip_labels-pointer :
    (left : ℕ) (buf rest : List ℕ) (pos hi lo : ℕ)
    → hi < 64
    → drop pos buf ≡ (0xc0 + hi) ∷ lo ∷ rest
    → skip_labels (suc left) buf pos ≡ ok (pos + 2)
unfolding skip_labels
skip_labels-pointer left buf rest pos hi lo h e =
    let nonzero : ((0xc0 + hi) == 0) ≡ false = ground arith in
    let long : ltb (length buf) (pos + 2) ≡ false =
      ground (arith, length-drop pos buf, ap (λ b. length b) e) in
    rw (skip_labels, e, nonzero, mask_pointer hi h, long) refl

skip_labels-end :
    (last : NameEnd) (left : ℕ) (buf rest : List ℕ) (pos : ℕ)
    → IsEnd last
    → drop pos buf ≡ print_end last ++ rest
    → skip_labels (suc left) buf pos ≡ ok (pos + length (print_end last))
skip_labels-end root left buf rest pos h e = skip_labels-zero left buf rest pos e
skip_labels-end (pointer p) left buf rest pos h e =
    skip_labels-pointer left buf rest pos (p / 256) (p % 256) (omega (arith, h)) e

skip_labels-print_labels :
    (labels : List Str) (last : NameEnd) (left : ℕ) (buf rest : List ℕ) (pos : ℕ)
    → All IsLabel labels
    → length labels < left
    → IsEnd last
    → drop pos buf ≡ print_labels labels ++ (print_end last ++ rest)
    → skip_labels left buf pos ≡ ok (pos + length (print_labels labels ++ print_end last))
skip_labels-print_labels labels last zero buf rest pos h room k e = absurd (omega (arith, room))
skip_labels-print_labels [] last (suc left) buf rest pos h room k e =
    skip_labels-end last left buf rest pos k e
skip_labels-print_labels (l ∷ ls) last (suc left) buf rest pos ((least, most), h) room k e =
    let tail = print_labels ls ++ (print_end last ++ rest) in
    let here : drop pos buf ≡ (length l ∷ l) ++ tail =
      e ∙ append_assoc (length l ∷ l) (print_labels ls) (print_end last ++ rest) in
    let there : drop (pos + (1 + length l)) buf ≡ tail =
      ap (λ p. drop p buf) (omega arith) ∙ drop_past pos buf (length l ∷ l) tail here in
    skip_labels-label left buf _ pos (length l) least most here
    ∙ skip_labels-print_labels ls last left buf rest (pos + (1 + length l)) h (omega (arith, room))
        k there
    ∙ ap (λ p. ok p)
        (omega (
          arith,
          length-append (print_labels ls) (print_end last),
          length-append (length l ∷ l ++ print_labels ls) (print_end last),
          length-append (length l ∷ l) (print_labels ls),
        ))

-- A name in a message is passed over to its end.
pub skip_name-print_owner :
    (o : Owner) (buf rest : List ℕ) (pos : ℕ)
    → IsOwner o
    → drop pos buf ≡ print_owner o ++ rest
    → skip_name buf pos ≡ ok (pos + length (print_owner o))
unfolding skip_name
skip_name-print_owner o buf rest pos (labels, few, last) e =
    skip_labels-print_labels o.labels o.last 129 buf rest pos labels (omega (arith, few)) last
      (e ∙ append_assoc (print_labels o.labels) (print_end o.last) rest)
