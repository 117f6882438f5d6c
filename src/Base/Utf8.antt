-- ===== src/Base/Utf8.antt =====
-- `String::from_utf8_lossy` and the validity of UTF-8 in Rust's standard library, byte by byte:
-- every longest prefix of a character that goes wrong becomes U+FFFD.
use mathlib.Core.List.{append_assoc, append-nil}
use jamm_vpn.Base.{
  ℕ, ◌-◌, ◌≡◌, sym, Bool, true, false, ◌&&◌, Option, none, some, [], ◌∷◌, ◌++◌, ltb, leb, ◌==◌,
  if◌then◌else◌, is_empty, arith, Option-cases, inl, inr,
}
use jamm_vpn.Base.Text.{Str}

-- The bytes of a character read so far, how many follow, and the range of the next one.
pub record Partial : Type 0 where
  pub seen : Str
  pub need : ℕ
  pub lo : ℕ
  pub hi : ℕ

abbrev idle : Partial
idle = record { seen = []; need = 0; lo = 0; hi = 0 }

abbrev lead : ℕ → ℕ → ℕ → ℕ → Option (Str × Partial)
lead b need lo hi = some ([], record { seen = b ∷ []; need = need; lo = lo; hi = hi })

-- A byte at the start of a character: what it emits, and what is then open. `none`: no lead byte.
start : ℕ → Option (Str × Partial)
start b =
    if ltb b 0x80
    then some (b ∷ [], idle)
    else if leb 0xc2 b && leb b 0xdf
    then lead b 1 0x80 0xbf
    else if b == 0xe0
    then lead b 2 0xa0 0xbf
    else if b == 0xed
    then lead b 2 0x80 0x9f
    else if leb 0xe1 b && leb b 0xef
    then lead b 2 0x80 0xbf
    else if b == 0xf0
    then lead b 3 0x90 0xbf
    else if leb 0xf1 b && leb b 0xf3
    then lead b 3 0x80 0xbf
    else if b == 0xf4
    then lead b 3 0x80 0x8f
    else none

-- A byte inside a character, or at the start of one. `none`: it does not fit there.
follow : Partial → ℕ → Option (Str × Partial)
follow p b =
    if is_empty p.seen
    then start b
    else if leb p.lo b && leb b p.hi
    then if p.need == 1
      then some (p.seen ++ (b ∷ []), idle)
      else some ([], record { seen = p.seen ++ (b ∷ []); need = p.need - 1; lo = 0x80; hi = 0xbf })
    else none

abbrev replacement : Str
replacement = 0xef ∷ 0xbf ∷ 0xbd ∷ []

-- The byte again, at the start of a character, behind a replacement.
restart : ℕ → Str × Partial
restart b = elim (start b) [
  | some (out, q) ↦ (replacement ++ out, q)
  | none ↦ (replacement ++ replacement, idle)
]

abandon : Partial → ℕ → Str × Partial
abandon p b = if is_empty p.seen then (replacement, idle) else restart b

lossy_from : Partial → Str → Str
lossy_from p [] = if is_empty p.seen then [] else replacement
lossy_from p (b ∷ bs) =
    let (out, q) : Str × Partial = elim (follow p b) [ some r ↦ r | none ↦ abandon p b ] in
    out ++ lossy_from q bs

unfoldable pub from_utf8_lossy : Str → Str
unfolding start follow restart abandon lossy_from
from_utf8_lossy = lossy_from idle

valid_from : Partial → Str → Bool
valid_from p [] = is_empty p.seen
valid_from p (b ∷ bs) = elim (follow p b) [ some (_, q) ↦ valid_from q bs | none ↦ false ]

-- What a Rust `String` holds.
unfoldable pub is_utf8 : Str → Bool
unfolding start follow valid_from
is_utf8 = valid_from idle

start_keeps : (b : ℕ) (out : Str) (q : Partial) → start b ≡ some (out, q) → out ++ q.seen ≡ b ∷ []
unfolding start
start_keeps b out q e = ground arith

follow_keeps :
    (p : Partial) (b : ℕ) (out : Str) (q : Partial)
    → follow p b ≡ some (out, q)
    → out ++ q.seen ≡ p.seen ++ (b ∷ [])
unfolding follow
follow_keeps p b out q e = ground (arith, start_keeps b out q, append-nil (p.seen ++ (b ∷ [])))

valid→lossy : (p : Partial) (s : Str) → valid_from p s ≡ true → lossy_from p s ≡ p.seen ++ s
unfolding valid_from lossy_from
valid→lossy p [] e = ground (arith, append-nil p.seen)
valid→lossy p (b ∷ bs) e = elim (Option-cases (follow p b)) [
  | inl o ↦ absurd (ground arith)
  | inr ((out, q), o) ↦
      let ih = valid→lossy q bs (ground arith) in
      ground (
        arith,
        o,
        ih,
        sym (append_assoc out q.seen bs),
        follow_keeps p b out q o,
        append_assoc p.seen (b ∷ []) bs,
      )
]

pub from_utf8_lossy-valid : (s : Str) → is_utf8 s ≡ true → from_utf8_lossy s ≡ s
unfolding is_utf8 from_utf8_lossy
from_utf8_lossy-valid s h = valid→lossy idle s h
