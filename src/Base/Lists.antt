-- ===== src/Base/Lists.antt =====
-- Lists measured and cut by native numbers: slices, byte strings and vectors of the program.
use Prim.Native.Nat.{ℕ, zero, suc, ◌+◌, ◌-◌, min}
use mathlib.Core.Path.{◌≡◌, refl, ap, sym, ◌∙◌}
use mathlib.Core.Logic.{◌≢◌}
use mathlib.Core.Option.{Option, none, some}
use mathlib.Core.Bool.{Bool, true, false, ◌||◌}
use mathlib.Core.List.{List, [], ◌∷◌, ◌++◌, map, append_assoc}
use native.Mathlib.Omega.{arith}

module _ {ℓ} {A : Type ℓ} where
  abbrev pub length : List A → ℕ
  length [] = 0
  length (x ∷ xs) = suc (length xs)

  abbrev pub take : ℕ → List A → List A
  take zero xs = []
  take (suc n) [] = []
  take (suc n) (x ∷ xs) = x ∷ take n xs

  abbrev pub drop : ℕ → List A → List A
  drop zero xs = xs
  drop (suc n) [] = []
  drop (suc n) (x ∷ xs) = drop n xs

  abbrev pub is_empty : List A → Bool
  is_empty [] = true
  is_empty (x ∷ xs) = false

  -- `Iterator::any` and `Iterator::all`.
  abbrev pub any : (A → Bool) → List A → Bool
  any p [] = false
  any p (x ∷ xs) = p x || any p xs

  abbrev pub All {κ} : (A → Type κ) → List A → Type κ
  All P [] = Unit {κ}
  All P (x ∷ xs) = P x × All P xs

module _ {ℓ} {A : Type ℓ} where
  pub length-append : (xs ys : List A) → length (xs ++ ys) ≡ length xs + length ys
  length-append [] ys = omega arith
  length-append (x ∷ xs) ys = omega (arith, length-append xs ys)

  pub take-append : (xs ys : List A) → take (length xs) (xs ++ ys) ≡ xs
  take-append [] ys = refl
  take-append (x ∷ xs) ys = ap (λ r. x ∷ r) (take-append xs ys)

  pub drop-append : (xs ys : List A) → drop (length xs) (xs ++ ys) ≡ ys
  drop-append [] ys = refl
  drop-append (x ∷ xs) ys = drop-append xs ys

  -- The same with the lengths in front given.
  pub take_front : (n : ℕ) (xs ys : List A) → length xs ≡ n → take n (xs ++ ys) ≡ xs
  take_front n xs ys e = ap (λ k. take k (xs ++ ys)) (sym e) ∙ take-append xs ys

  pub drop_front : (n : ℕ) (xs ys : List A) → length xs ≡ n → drop n (xs ++ ys) ≡ ys
  drop_front n xs ys e = ap (λ k. drop k (xs ++ ys)) (sym e) ∙ drop-append xs ys

  pub drop_two :
      (n : ℕ) (xs ys zs : List A) → length xs + length ys ≡ n → drop n (xs ++ (ys ++ zs)) ≡ zs
  drop_two n xs ys zs e =
      ap (drop n) (sym (append_assoc xs ys zs))
      ∙ drop_front n (xs ++ ys) zs (length-append xs ys ∙ e)

  pub drop_three :
      (n : ℕ) (xs ys zs ws : List A)
      → length xs + length ys + length zs ≡ n
      → drop n (xs ++ (ys ++ (zs ++ ws))) ≡ ws
  drop_three n xs ys zs ws e =
      ap (drop n) (sym (append_assoc xs ys (zs ++ ws)))
      ∙ drop_two n (xs ++ ys) zs ws (ap (λ k. k + length zs) (length-append xs ys) ∙ e)

  pub take-append-drop : (n : ℕ) (xs : List A) → take n xs ++ drop n xs ≡ xs
  take-append-drop zero xs = refl
  take-append-drop (suc n) [] = refl
  take-append-drop (suc n) (x ∷ xs) = ap (λ r. x ∷ r) (take-append-drop n xs)

  pub length-take : (n : ℕ) (xs : List A) → length (take n xs) ≡ min n (length xs)
  length-take zero xs = omega arith
  length-take (suc n) [] = omega arith
  length-take (suc n) (x ∷ xs) = omega (arith, length-take n xs)

  pub length-drop : (n : ℕ) (xs : List A) → length (drop n xs) ≡ length xs - n
  length-drop zero xs = omega arith
  length-drop (suc n) [] = omega arith
  length-drop (suc n) (x ∷ xs) = omega (arith, length-drop n xs)

  pub take_all : (xs : List A) → take (length xs) xs ≡ xs
  take_all [] = refl
  take_all (x ∷ xs) = ap (λ r. x ∷ r) (take_all xs)

module _ {ℓ κ} {A : Type ℓ} (P : A → Type κ) where
  pub All-append : (xs ys : List A) → All P xs → All P ys → All P (xs ++ ys)
  All-append [] ys h k = k
  All-append (x ∷ xs) ys (now, h) k = (now, All-append xs ys h k)

  pub All-map :
      (f : A → A) → ((a : A) → P a → P (f a)) → (xs : List A) → All P xs → All P (map f xs)
  All-map f keeps [] h = tt
  All-map f keeps (x ∷ xs) (now, h) = (keeps x now, All-map f keeps xs h)

pub All-imp {ℓ κ μ} :
    {A : Type ℓ} {P : A → Type κ} {Q : A → Type μ} (f : (a : A) → P a → Q a) (xs : List A)
    → All P xs
    → All Q xs
All-imp f [] h = tt
All-imp f (x ∷ xs) (now, h) = (f x now, All-imp f xs h)

-- The element at a place, and the list with that one changed.
abbrev pub nth {ℓ} : {A : Type ℓ} → ℕ → List A → Option A
nth i [] = none
nth zero (t ∷ ts) = some t
nth (suc i) (t ∷ ts) = nth i ts

abbrev pub modify {ℓ} : {A : Type ℓ} → ℕ → (A → A) → List A → List A
modify i f [] = []
modify zero f (t ∷ ts) = f t ∷ ts
modify (suc i) f (t ∷ ts) = t ∷ modify i f ts

module _ {ℓ κ} {A : Type ℓ} (P : A → Type κ) where
  pub All-nth : (i : ℕ) (xs : List A) {a : A} → nth i xs ≡ some a → All P xs → P a
  All-nth i [] e h = absurd (ground arith)
  All-nth zero (x ∷ xs) {a} e (now, h) = let same : x ≡ a = cc in rw (sym same) now
  All-nth (suc i) (x ∷ xs) e (now, h) = All-nth i xs e h

  module _ (f : A → A) where
    pub All-modify :
        (i : ℕ) (xs : List A) → ((a : A) → P a → P (f a)) → All P xs → All P (modify i f xs)
    All-modify i [] keeps h = tt
    All-modify zero (x ∷ xs) keeps (now, h) = (keeps x now, h)
    All-modify (suc i) (x ∷ xs) keeps (now, h) = (now, All-modify i xs keeps h)

    -- What is known of the one that changes may be used.
    pub All-modify_at :
        (i : ℕ) (xs : List A) {a : A}
        → nth i xs ≡ some a
        → (P a → P (f a))
        → All P xs
        → All P (modify i f xs)
    All-modify_at i [] e keeps h = tt
    All-modify_at zero (x ∷ xs) {a} e keeps (now, h) =
        let same : x ≡ a = cc in (rw same (keeps (rw (sym same) now)), h)
    All-modify_at (suc i) (x ∷ xs) e keeps (now, h) = (now, All-modify_at i xs e keeps h)

module _ {ℓ} {A : Type ℓ} (f : A → A) where
  pub nth-modify :
      (i : ℕ) (xs : List A) {a : A} → nth i xs ≡ some a → nth i (modify i f xs) ≡ some (f a)
  nth-modify i [] e = absurd (ground arith)
  nth-modify zero (x ∷ xs) {a} e = let same : x ≡ a = cc in rw same refl
  nth-modify (suc i) (x ∷ xs) e = nth-modify i xs e

  pub nth-modify_other : (i j : ℕ) (xs : List A) → i ≢ j → nth i (modify j f xs) ≡ nth i xs
  nth-modify_other i j [] apart = refl
  nth-modify_other zero zero (x ∷ xs) apart = absurd (apart refl)
  nth-modify_other zero (suc j) (x ∷ xs) apart = refl
  nth-modify_other (suc i) zero (x ∷ xs) apart = refl
  nth-modify_other (suc i) (suc j) (x ∷ xs) apart =
      nth-modify_other i j xs (λ e. apart (ap (λ n. suc n) e))
