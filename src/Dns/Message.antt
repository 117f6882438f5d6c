-- ===== src/Dns/Message.antt =====
-- A name that crates/net/src/dns/message.rs encodes is read to its end.
use Prim.Native.Nat.{bit_and}
use mathlib.Core.List.{append_assoc}
use jamm_vpn.Base.{
  ℕ, zero, suc, ◌+◌, ◌*◌, ◌/◌, ◌-◌, ◌^◌, ◌<◌, ◌≤◌, ◌≡◌, refl, sym, ap, ◌∙◌, inl, inr, false, List,
  [], ◌∷◌, ◌++◌, ltb, ◌==◌, arith, length, drop, length-append, drop-append, Bool-cases,
}
use jamm_vpn.Base.Bits.{bit_and_shifted}
use jamm_vpn.Base.Octets.{to_be}
use jamm_vpn.Base.Text.{Str, split, trim_end_matches}
use jamm_vpn.Error.{ok, ok-injective, ok≢err, bind_ok}
use jamm_vpn.Dns.{encode_labels, encode_query, skip_labels, skip_name, class_in}

pub drop-drop : {A : Type 0} (n m : ℕ) (xs : List A) → drop m (drop n xs) ≡ drop (n + m) xs
drop-drop zero m xs = let e : 0 + m ≡ m = omega arith in rw e refl
drop-drop (suc n) zero [] = let e : suc n + 0 ≡ suc n = omega arith in rw e refl
drop-drop (suc n) (suc m) [] = let e : suc n + suc m ≡ suc (n + suc m) = omega arith in rw e refl
drop-drop (suc n) m (x ∷ xs) =
    let e : suc n + m ≡ suc (n + m) = omega arith in rw e (drop-drop n m xs)

-- Behind what stands at a position.
pub drop_past :
    {A : Type 0} (pos : ℕ) (buf front rest : List A)
    → drop pos buf ≡ front ++ rest
    → drop (pos + length front) buf ≡ rest
drop_past pos buf front rest e =
    sym (drop-drop pos (length front) buf) ∙ ap (drop (length front)) e ∙ drop-append front rest

-- A label's length has no bit of the mask.
mask_label : (n : ℕ) → n ≤ 63 → bit_and n 0xc0 ≡ 0
mask_label n h =
    let e : n / 2 ^ 6 ≡ 0 = omega (arith, h) in
    bit_and_shifted 6 n 3 ∙ ap (λ m. bit_and m 3 * 2 ^ 6) e

pub skip_labels-zero :
    (left : ℕ) (buf rest : List ℕ) (pos : ℕ)
    → drop pos buf ≡ 0 ∷ rest
    → skip_labels (suc left) buf pos ≡ ok (pos + 1)
unfolding skip_labels
skip_labels-zero left buf rest pos e = rw (skip_labels, e) refl

pub skip_labels-label :
    (left : ℕ) (buf rest : List ℕ) (pos len : ℕ)
    → 1 ≤ len
    → len ≤ 63
    → drop pos buf ≡ len ∷ rest
    → skip_labels (suc left) buf pos ≡ skip_labels left buf (pos + (1 + len))
unfolding skip_labels
skip_labels-label left buf rest pos len some_bytes short e =
    let nonzero : (len == 0) ≡ false = ground (arith, some_bytes) in
    rw (skip_labels, e, nonzero, mask_label len short) refl

pub skip-encode_labels :
    (labels : List Str) (bs : List ℕ) (left : ℕ) (buf rest : List ℕ) (pos : ℕ)
    → encode_labels labels ≡ ok bs
    → length labels < left
    → drop pos buf ≡ bs ++ (0 ∷ rest)
    → skip_labels left buf pos ≡ ok (pos + length bs + 1)
unfolding encode_labels
skip-encode_labels [] bs (suc left) buf rest pos e room at =
    let empty : bs ≡ [] = sym (ok-injective e) in
    let here : drop pos buf ≡ 0 ∷ rest = at ∙ ap (λ b. b ++ (0 ∷ rest)) empty in
    skip_labels-zero left buf rest pos here
    ∙ ap (λ p. ok p) (omega (arith, ap (λ b. length b) empty))
skip-encode_labels labels bs zero buf rest pos e room at = absurd (omega (arith, room))
skip-encode_labels ([] ∷ ls) bs (suc left) buf rest pos e room at =
    skip-encode_labels ls bs (suc left) buf rest pos e (omega (arith, room)) at
skip-encode_labels ((x ∷ xs) ∷ ls) bs (suc left) buf rest pos e room at =
    let len = length (x ∷ xs) in
    elim (Bool-cases (ltb 63 len)) [
      | inl long ↦ absurd (ok≢err (rw long at e))
      | inr short ↦
          let (cs, made, e') = bind_ok (encode_labels ls) _ (rw short at e) in
          let whole : bs ≡ len ∷ (x ∷ xs) ++ cs = sym (ok-injective e') in
          let front = len ∷ x ∷ xs in
          let here : drop pos buf ≡ front ++ (cs ++ (0 ∷ rest)) =
            at ∙ ap (λ b. b ++ (0 ∷ rest)) whole ∙ append_assoc front cs (0 ∷ rest) in
          let next : pos + length front ≡ pos + (1 + len) = omega arith in
          let past : drop (pos + length front) buf ≡ cs ++ (0 ∷ rest) =
            drop_past pos buf front (cs ++ (0 ∷ rest)) here in
          let there = rw next at past in
          skip_labels-label left buf _ pos len (omega arith) (ground (arith, short)) here
          ∙ skip-encode_labels ls cs left buf rest (pos + (1 + len)) made (omega (arith, room))
              there
          ∙ ap (λ p. ok p) (omega (arith, ap (λ b. length b) whole, length-append front cs))
    ]

-- The name in a question that was encoded, of at most 128 labels, is read to its end, which is four
-- bytes before the question's, whatever stands behind it.
pub skip_name-encode_query :
    (id : ℕ) (name : Str) (qtype : ℕ) (q rest : List ℕ)
    → encode_query id name qtype ≡ ok q
    → length (split b'.' (trim_end_matches b'.' name)) ≤ 128
    → skip_name (q ++ rest) 12 ≡ ok (length q - 4)
unfolding skip_name encode_query to_be
skip_name-encode_query id name qtype q rest e few =
    let labels = split b'.' (trim_end_matches b'.' name) in
    let (bs, made, e') = bind_ok (encode_labels labels) _ e in
    let tail = to_be 2 qtype ++ to_be 2 class_in in
    let here : drop 12 (q ++ rest) ≡ bs ++ (0 ∷ (tail ++ rest)) =
      rw (sym (ok-injective e')) (append_assoc bs (0 ∷ tail) rest) in
    skip-encode_labels labels bs 129 (q ++ rest) (tail ++ rest) 12 made (omega (arith, few)) here
    ∙ ap (λ p. ok p) (rw (sym (ok-injective e')) (omega (arith, length-append bs (0 ∷ tail))))
