-- ===== src/Shadowsocks/Crypto/Evp.antt =====
-- The key made of a password.
use mathlib.Core.List.{append_assoc}
use jamm_vpn.Base.{
  ℕ, zero, suc, ◌+◌, ◌*◌, ◌≤◌, ◌≡◌, refl, sym, false, ◌∙◌, ap, inl, inr, List, [], ◌∷◌, ◌++◌, ltb,
  arith, length, take, Bool-cases, length-append,
}
use jamm_vpn.Shadowsocks.Crypto.{Primitives, evp_loop, evp_bytes_to_key}

-- The reference: each block is the hash of the one before it and the password.
abbrev pub blocks : Primitives → List ℕ → ℕ → List ℕ → List ℕ
blocks P password zero prev = []
blocks P password (suc k) prev =
    P.md5 (prev ++ password) ++ blocks P password k (P.md5 (prev ++ password))

take_more : (n : ℕ) (xs ys : List ℕ) → n ≤ length xs → take n (xs ++ ys) ≡ take n xs
take_more zero xs ys h = refl
take_more (suc n) [] ys h = absurd (omega (arith, h))
take_more (suc n) (x ∷ xs) ys h = ap (λ t. x ∷ t) (take_more n xs ys (omega (arith, h)))

module _ (P : Primitives) (md5_len : (m : List ℕ) → length (P.md5 m) ≡ 16) (password : List ℕ)
    (len : ℕ) where
  evp_loop-blocks :
      (fuel k : ℕ) (key prev : List ℕ)
      → len ≤ length key + fuel
      → len ≤ length key + 16 * k
      → take len (evp_loop P password len fuel key prev)
        ≡ take len (key ++ blocks P password k prev)
  unfolding evp_loop
  evp_loop-blocks zero k key prev enough more =
      sym (take_more len key (blocks P password k prev) (omega (arith, enough)))
  evp_loop-blocks (suc fuel) zero key prev enough more =
      let full : ltb (length key) len ≡ false = ground (arith, more) in
      rw full (sym (take_more len key [] (omega (arith, more))))
  evp_loop-blocks (suc fuel) (suc k) key prev enough more =
      let digest = P.md5 (prev ++ password) in
      let longer : length (key ++ digest) ≡ length key + 16 =
        length-append key digest ∙ ap (λ n. length key + n) (md5_len (prev ++ password)) in
      elim (Bool-cases (ltb (length key) len)) [
        | inr long ↦
            rw long
              (sym (take_more len key (blocks P password (suc k) prev) (ground (arith, long))))
        | inl short ↦ rw short (
            evp_loop-blocks fuel k (key ++ digest) digest (omega (arith, enough, longer))
              (omega (arith, more, longer))
            ∙ ap (λ t. take len t) (append_assoc key digest (blocks P password k digest)))
      ]

-- With a hash of 16 bytes, the key is the front of the chain of hashes, in which each hash covers
-- the one before it and the password; the loop does not run out of fuel, and as many hashes as the
-- key's length asks for, or more, give the same key.
pub evp_bytes_to_key-blocks :
    (P : Primitives) (password : List ℕ) (len k : ℕ)
    → ((m : List ℕ) → length (P.md5 m) ≡ 16)
    → len ≤ 16 * k
    → evp_bytes_to_key P password len ≡ take len (blocks P password k [])
unfolding evp_bytes_to_key
evp_bytes_to_key-blocks P password len k md5_len more =
    evp_loop-blocks P md5_len password len len k [] [] (omega arith) (omega (arith, more))
