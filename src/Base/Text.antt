-- ===== src/Base/Text.antt =====
-- The operations of Rust's `str` that the program uses. A text is the list of its bytes (UTF-8).
-- All of them treat ASCII only, so they work byte by byte.
use Prim.Native.Char.{code}
use Prim.Native.String.{String}
use mathlib.Core.Path.{subst}
use jamm_vpn.Base.{
  ℕ, ◌+◌, ◌≡◌, refl, ◌↔◌, Bool, true, false, ◌&&◌, ◌||◌, Option, none, some, List, [], ◌∷◌, map,
  arith, leb, ◌==◌, if◌then◌else◌, is_empty,
}

abbrev pub Str : Type 0
Str = List ℕ

-- `==` on texts.
unfoldable pub str_eq : Str → Str → Bool
str_eq [] [] = true
str_eq [] (y ∷ ys) = false
str_eq (x ∷ xs) [] = false
str_eq (x ∷ xs) (y ∷ ys) = x == y && str_eq xs ys

pub str_eq→eq : (s t : Str) → str_eq s t ≡ true → s ≡ t
unfolding str_eq
str_eq→eq [] [] h = refl
str_eq→eq [] (y ∷ ys) h = ground arith
str_eq→eq (x ∷ xs) [] h = ground arith
str_eq→eq (x ∷ xs) (y ∷ ys) h = ground (arith, str_eq→eq xs ys)

pub str_eq_self : (s : Str) → str_eq s s ≡ true
unfolding str_eq
str_eq_self [] = refl
str_eq_self (x ∷ xs) = ground (arith, str_eq_self xs)

pub str_eq_iff : (s t : Str) → (str_eq s t ≡ true) ↔ (s ≡ t)
str_eq_iff s t = (str_eq→eq s t, λ e. subst (λ (u : Str). str_eq s u ≡ true) e (str_eq_self s))

-- `u8::to_ascii_lowercase`.
unfoldable pub lower_byte : ℕ → ℕ
lower_byte c = if leb b'A' c && leb c b'Z' then c + 32 else c

unfoldable pub to_ascii_lowercase : Str → Str
unfolding lower_byte
to_ascii_lowercase = map lower_byte

-- `str::eq_ignore_ascii_case`.
unfoldable pub eq_ignore_ascii_case : Str → Str → Bool
unfolding str_eq to_ascii_lowercase
eq_ignore_ascii_case s t = str_eq (to_ascii_lowercase s) (to_ascii_lowercase t)

unfoldable pub starts_with : Str → Str → Bool
starts_with s [] = true
starts_with [] (y ∷ ys) = false
starts_with (x ∷ xs) (y ∷ ys) = x == y && starts_with xs ys

unfoldable pub ends_with : Str → Str → Bool
unfolding str_eq
ends_with [] t = str_eq [] t
ends_with (x ∷ xs) t = str_eq (x ∷ xs) t || ends_with xs t

unfoldable pub contains : Str → Str → Bool
unfolding starts_with
contains [] t = starts_with [] t
contains (x ∷ xs) t = starts_with (x ∷ xs) t || contains xs t

-- `trim_start_matches(c)` and `trim_end_matches(c)`.
unfoldable pub trim_start_matches : ℕ → Str → Str
trim_start_matches c [] = []
trim_start_matches c (x ∷ xs) = elim (x == c) [ true ↦ trim_start_matches c xs | false ↦ x ∷ xs ]

unfoldable pub trim_end_matches : ℕ → Str → Str
trim_end_matches c [] = []
trim_end_matches c (x ∷ xs) =
    let rest = trim_end_matches c xs in if x == c && is_empty rest then [] else x ∷ rest

-- `split_once(c)`: before and behind the first `c`.
unfoldable pub split_once : ℕ → Str → Option (Str × Str)
split_once c [] = none
split_once c (x ∷ xs) =
    let rest = split_once c xs in
    if x == c then some ([], xs) else elim rest [ none ↦ none | some (a, b) ↦ some (x ∷ a, b) ]

-- `rsplit_once(c)`: before and behind the last `c`.
unfoldable pub rsplit_once : ℕ → Str → Option (Str × Str)
rsplit_once c [] = none
rsplit_once c (x ∷ xs) = elim (rsplit_once c xs) [
  | some (a, b) ↦ some (x ∷ a, b)
  | none ↦ if x == c then some ([], xs) else none
]

abbrev onto_first : ℕ → List Str → List Str
onto_first x [] = (x ∷ []) ∷ []
onto_first x (s ∷ ss) = (x ∷ s) ∷ ss

-- `split(c)`: the pieces between the occurrences of `c`.
unfoldable pub split : ℕ → Str → List Str
split c [] = [] ∷ []
split c (x ∷ xs) = let rest = split c xs in if x == c then [] ∷ rest else onto_first x rest

-- The bytes of a text literal, for constants and tests: all of them are ASCII.
abbrev pub bytes : String → Str
bytes String.[] = []
bytes (String.◌∷◌ c s) = code c ∷ bytes s
