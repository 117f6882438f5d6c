-- ===== src/Shadowsocks/Crypto/Nonce.antt =====
-- The nonce is a counter of 96 bits, the lowest byte first.
use native.Mathlib.Nat.{pow-suc}
use mathlib.Core.Path.{subst}
use jamm_vpn.Base.{
  ℕ, zero, suc, ◌+◌, ◌%◌, ◌^◌, ◌≤◌, ◌<◌, ◌≡◌, ◌≢◌, true, false, refl, sym, ◌∙◌, ap, inl, inr, List,
  [], ◌∷◌, ◌==◌, All, arith, length, nth, Option, some, none, Bool-cases,
}
use jamm_vpn.Base.Octets.{from_le, to_le, to_le-from_le, from_le-to_le}
use jamm_vpn.Error.{Result, ok, ◌>>=◌, bind_ok, ok-injective, ok≢err}
use jamm_vpn.Shadowsocks.Crypto.{
  AeadKey, cipher, or_error, seal_failed, Primitives, SsError, Method, Crypto, aead_key, incr_nonce,
  zero_nonce, new, seal, seal_with,
}

abbrev pub IsBytes : List ℕ → Type 0
IsBytes bs = All (λ b. b < 256) bs

-- The nonce after so many steps.
abbrev pub nonce_at : ℕ → List ℕ
nonce_at zero = zero_nonce
nonce_at (suc n) = incr_nonce (nonce_at n)

pub incr_nonce-length : (bs : List ℕ) → length (incr_nonce bs) ≡ length bs
unfolding incr_nonce
incr_nonce-length [] = refl
incr_nonce-length (b ∷ bs) = ground (arith, incr_nonce-length bs)

incr_nonce-IsBytes : (bs : List ℕ) → IsBytes bs → IsBytes (incr_nonce bs)
unfolding incr_nonce
incr_nonce-IsBytes [] h = tt
incr_nonce-IsBytes (b ∷ bs) (small, h) = elim (Bool-cases ((b + 1) % 256 == 0)) [
  | inl wraps ↦ rw wraps (omega arith, incr_nonce-IsBytes bs h)
  | inr more ↦ rw more (omega arith, h)
]

zero_of : {n : ℕ} → (n == 0) ≡ true → n ≡ 0
zero_of h = ground (arith, h)

not_zero_of : {n : ℕ} → (n == 0) ≡ false → 1 ≤ n
not_zero_of h = ground (arith, h)

from_le-incr_nonce :
    (bs : List ℕ)
    → IsBytes bs
    → from_le bs + 1 < 256 ^ length bs
    → from_le (incr_nonce bs) ≡ from_le bs + 1
unfolding incr_nonce
from_le-incr_nonce [] h small = absurd (omega (arith, small))
from_le-incr_nonce (b ∷ bs) (byte, h) small = elim (Bool-cases ((b + 1) % 256 == 0)) [
  | inl wraps ↦ rw wraps (
      omega (
        arith,
        byte,
        zero_of wraps,
        from_le-incr_nonce bs h
            (omega (arith, byte, small, zero_of wraps, pow-suc 256 (length bs))),
      ))
  | inr more ↦ rw more (omega (arith, byte, not_zero_of more))
]

-- The counter counts.
nonce_at-counts :
    (n : ℕ)
    → n < 2 ^ 96
    → (from_le (nonce_at n) ≡ n) × (length (nonce_at n) ≡ 12) × IsBytes (nonce_at n)
nonce_at-counts zero h = (refl, refl, ground arith)
nonce_at-counts (suc n) h =
    let (value, len, small) = nonce_at-counts n (omega (arith, h)) in
    let width : 256 ^ length (nonce_at n) ≡ 2 ^ 96 = ap (λ k. 256 ^ k) len in
    (
      from_le-incr_nonce (nonce_at n) small (omega (arith, value, width, h))
          ∙ ap (λ k. k + 1) value
          ∙ omega arith,
      incr_nonce-length (nonce_at n) ∙ len,
      incr_nonce-IsBytes (nonce_at n) small,
    )

pub nonce_at-length : (n : ℕ) → length (nonce_at n) ≡ 12
nonce_at-length zero = refl
nonce_at-length (suc n) = incr_nonce-length (nonce_at n) ∙ nonce_at-length n

-- What a direction sealed, with the state behind it.
abbrev pub seal_all : Primitives → Crypto → List (List ℕ) → Result SsError (List (List ℕ) × Crypto)
seal_all P c [] = ok ([], c)
seal_all P c (pt ∷ pts) = do (ct, c) ← seal P c pt; (cts, c) ← seal_all P c pts; ok (ct ∷ cts, c)

abbrev seal_rest :
    Primitives → List ℕ → Crypto → List (List ℕ) → Result SsError (List (List ℕ) × Crypto)
seal_rest P ct c pts = do (cts, c) ← seal_all P c pts; ok (ct ∷ cts, c)

or_error_ok : (e : SsError) (o : Option (List ℕ)) {x : List ℕ} → or_error e o ≡ ok x → o ≡ some x
or_error_ok e none h = absurd (ok≢err h)
or_error_ok e (some bs) h = ap (λ b. some b) (ok-injective h)

-- The cipher is called with the counter's nonce; then come the same key and the next nonce.
seal_lem :
    (P : Primitives) (c : Crypto) (pt ct : List ℕ) (d : Crypto)
    → seal P c pt ≡ ok (ct, d)
    → (P.encrypt c.key.cipher c.key.subkey c.nonce pt ≡ some ct)
      × (d.key ≡ c.key)
      × (d.nonce ≡ incr_nonce c.nonce)
unfolding seal
seal_lem P c pt ct d e =
    let (sealed, f, same) =
      bind_ok (seal_with P c.key c.nonce pt) (λ s. ok (s, record c { nonce = incr_nonce c.nonce }))
        e in
    let both = ok-injective same in
    (
      or_error_ok seal_failed _ f ∙ ap (λ (x : List ℕ × Crypto). some x.0) both,
      ap (λ (x : List ℕ × Crypto). x.1.key) (sym both),
      ap (λ (x : List ℕ × Crypto). x.1.nonce) (sym both),
    )

-- A text was encrypted to one of the results, with a key and a nonce.
abbrev pub IsEncrypted : Primitives → AeadKey → List ℕ → List ℕ → Option (List ℕ) → Type 0
IsEncrypted P k nonce pt sealed =
    (ct : List ℕ) × (sealed ≡ some ct) × (P.encrypt k.cipher k.subkey nonce pt ≡ some ct)

-- What `seal_all` did with the first text and with the others.
seal_all-cons :
    (P : Primitives) (c : Crypto) (pt : List ℕ) (pts cts : List (List ℕ)) (d : Crypto)
    → seal_all P c (pt ∷ pts) ≡ ok (cts, d)
    → (ct : List ℕ) × (next : Crypto) × (others : List (List ℕ)) × (seal P c pt ≡ ok (ct, next))
      × (seal_all P next pts ≡ ok (others, d))
      × (ct ∷ others ≡ cts)
seal_all-cons P c pt pts cts d e =
    let ((ct, next), first, rest) =
      bind_ok (seal P c pt) (λ (x : List ℕ × Crypto). seal_rest P x.0 x.1 pts) e in
    let ((others, d'), later, all) =
      bind_ok (seal_all P next pts) (λ (x : List (List ℕ) × Crypto). ok (ct ∷ x.0, x.1)) rest in
    (
      ct,
      next,
      others,
      first,
      later ∙ ap (λ (x : List (List ℕ) × Crypto). ok (others, x.1)) (ok-injective all),
      ap (λ (x : List (List ℕ) × Crypto). x.0) (ok-injective all),
    )

-- The text at a place is encrypted with the nonce of that place.
seal_all-nth :
    (P : Primitives) (k : AeadKey) (n : ℕ) (c : Crypto) (pts cts : List (List ℕ)) (d : Crypto)
    (i : ℕ) (pt : List ℕ)
    → c.key ≡ k
    → c.nonce ≡ nonce_at n
    → seal_all P c pts ≡ ok (cts, d)
    → nth i pts ≡ some pt
    → IsEncrypted P k (nonce_at (n + i)) pt (nth i cts)
seal_all-nth P k n c [] cts d i pt same at e h = absurd (ground (arith, h))
seal_all-nth P k n c (p ∷ pts) cts d zero pt same at e h =
    let (ct, next, others, first, later, all) = seal_all-cons P c p pts cts d e in
    let (called, key, nonce) = seal_lem P c p ct next first in
    let this : p ≡ pt = cc in
    let number : c.nonce ≡ nonce_at (n + 0) = at ∙ ap nonce_at (omega arith) in
    (ct, rw (sym all) refl, rw (sym this, sym same, sym number) called)
seal_all-nth P k n c (p ∷ pts) cts d (suc i) pt same at e h =
    let (ct, next, others, first, later, all) = seal_all-cons P c p pts cts d e in
    let (called, key, nonce) = seal_lem P c p ct next first in
    let number : suc n + i ≡ n + suc i = omega arith in
    let (x, there, made) =
      seal_all-nth P k (suc n) next pts others d i pt (key ∙ same) (nonce ∙ ap incr_nonce at) later
        h in
    (
      x,
      rw (sym all) there,
      subst (λ v. P.encrypt k.cipher k.subkey (nonce_at v) pt ≡ some x) number made,
    )

new_lem :
    (P : Primitives) (m : Method) (subkey : List ℕ) (c : Crypto)
    → new P m subkey ≡ ok c
    → (c.key ≡ record { cipher = cipher m; subkey = subkey }) × (c.nonce ≡ zero_nonce)
unfolding new aead_key
new_lem P m subkey c e =
    let (key, made, same) =
      bind_ok (aead_key P m subkey) (λ k. ok (record { key = k; nonce = zero_nonce })) e in
    elim (Bool-cases (P.new_from_slice (cipher m) subkey)) [
      | inl fits ↦ (
        ap (λ (x : Crypto). x.key) (sym (ok-injective same))
            ∙ sym (ok-injective (rw (aead_key, fits) at made)),
        ap (λ (x : Crypto). x.nonce) (sym (ok-injective same)),
      )
      | inr bad ↦ absurd (ok≢err (rw (aead_key, bad) at made))
    ]

-- The counter is its number in 12 bytes, the lowest first.
nonce_at-to_le : (n : ℕ) → n < 2 ^ 96 → nonce_at n ≡ to_le 12 n
nonce_at-to_le n h =
    let (value, len, small) = nonce_at-counts n h in
    sym (to_le-from_le 12 (nonce_at n) len small) ∙ ap (λ v. to_le 12 v) value

-- From a new key, two of the texts that are sealed in a row, both among the first 2^96: each was
-- encrypted to its result with the method's cipher, the subkey and, as the nonce, its own number in
-- the row in 12 bytes, the lowest first; so the two nonces differ.
pub seal_all_apart :
    (P : Primitives) (m : Method) (subkey : List ℕ) (start end : Crypto) (pts cts : List (List ℕ))
    (i j : ℕ) (a b : List ℕ)
    → new P m subkey ≡ ok start
    → seal_all P start pts ≡ ok (cts, end)
    → i < j
    → j < 2 ^ 96
    → nth i pts ≡ some a
    → nth j pts ≡ some b
    → IsEncrypted P (record { cipher = cipher m; subkey = subkey }) (to_le 12 i) a (nth i cts)
      × IsEncrypted P (record { cipher = cipher m; subkey = subkey }) (to_le 12 j) b (nth j cts)
      × (to_le 12 i ≢ to_le 12 j)
seal_all_apart P m subkey start end pts cts i j a b e f apart few h k =
    let key : AeadKey = record { cipher = cipher m; subkey = subkey } in
    let (made, zeroed) = new_lem P m subkey start e in
    let first = seal_all-nth P key 0 start pts cts end i a made zeroed f h in
    let second = seal_all-nth P key 0 start pts cts end j b made zeroed f k in
    (
      subst (λ n. IsEncrypted P key n a (nth i cts))
          (ap nonce_at (omega arith) ∙ nonce_at-to_le i (omega (arith, apart, few))) first,
      subst (λ n. IsEncrypted P key n b (nth j cts))
          (ap nonce_at (omega arith) ∙ nonce_at-to_le j few) second,
      λ same.
          let equal : i ≡ j =
            sym (from_le-to_le 12 i (omega (arith, apart, few)))
            ∙ ap from_le same
            ∙ from_le-to_le 12 j (omega (arith, few)) in
          omega (arith, equal, apart),
    )
