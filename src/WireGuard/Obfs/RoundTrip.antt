-- ===== src/WireGuard/Obfs/RoundTrip.antt =====
-- A message that was wrapped for a peer with the same settings comes back.
use mathlib.Core.List.{append_assoc}
use jamm_vpn.Base.{
  ℕ, ◌+◌, ◌-◌, ◌^◌, ◌<◌, ◌≤◌, ◌≡◌, ◌⊎◌, refl, sym, ◌∙◌, ap, inl, inr, true, false, not, List, ◌++◌,
  ltb, leb, ◌==◌, ◌&&◌, ◌||◌, if◌then◌else◌, arith, length, take, drop, length-append, take_front,
  drop_front, drop_two,
}
use jamm_vpn.Base.Octets.{to_le, from_le, length-to_le, from_le-to_le}
use jamm_vpn.WireGuard.Obfs.{
  Blake2s, Rng, AwgObfuscation, t_init, t_resp, len_init, len_resp, mac1_key, fix_mac1, h_for,
  s_for, dress, undress, recognised,
}

-- The headers are numbers of 32 bits.
abbrev pub IsObfuscation : AwgObfuscation → Type 0
IsObfuscation a = (a.h1 < 2 ^ 32) × (a.h2 < 2 ^ 32) × (a.h3 < 2 ^ 32) × (a.h4 < 2 ^ 32)

-- The generator gives as many bytes as are asked for.
abbrev pub IsRng : Rng → Type 0
IsRng R = (draw n : ℕ) → length (R.fill draw n) ≡ n

-- In a handshake of the right size, the 16 bytes behind the covered ones are replaced.
fix_mac1_parts :
    (B : Blake2s) (pub_key covered mac1 mac2 : List ℕ)
    → (length covered ≡ 116) ⊎ (length covered ≡ 60)
    → length mac1 ≡ 16
    → length mac2 ≡ 16
    → fix_mac1 B pub_key (covered ++ (mac1 ++ mac2))
      ≡ covered ++ (B.mac (mac1_key B pub_key) covered ++ mac2)
unfolding fix_mac1
fix_mac1_parts B pub_key covered mac1 mac2 size m1 m2 =
    let msg = covered ++ (mac1 ++ mac2) in
    let len : length msg ≡ length covered + 32 =
      omega (arith, m1, m2, length-append covered (mac1 ++ mac2), length-append mac1 mac2) in
    let hand : (not (length msg == len_init) && not (length msg == len_resp)) ≡ false = elim size [
      | inl large ↦ ground (arith, len, large)
      | inr small ↦ ground (arith, len, small)
    ] in
    let off : length msg - 32 ≡ length covered = omega (arith, len) in
    let front : take (length covered) msg ≡ covered =
      take_front (length covered) covered (mac1 ++ mac2) refl in
    let back : drop (length covered + 16) msg ≡ mac2 =
      drop_two (length covered + 16) covered mac1 mac2 (omega (arith, m1)) in
    rw (hand, off, front, back) refl

-- A handshake message with a MAC1 for the key.
abbrev pub handshake : Blake2s → List ℕ → ℕ → List ℕ → List ℕ → List ℕ
handshake B key t body mac2 =
    let covered = to_le 4 t ++ body in covered ++ (B.mac (mac1_key B key) covered ++ mac2)

-- The datagram of a message of type `t` behind its type.
module _ (B : Blake2s) (a : AwgObfuscation) (key pad : List ℕ) (t : ℕ) (fits : h_for a t < 2 ^ 32)
    (padded : length pad ≡ s_for a t) where
  pub length-pad :
      (rest : List ℕ) → length (pad ++ (to_le 4 (h_for a t) ++ rest)) ≡ s_for a t + 4 + length rest
  length-pad rest = omega (
    arith,
    padded,
    length-append pad (to_le 4 (h_for a t) ++ rest),
    length-append (to_le 4 (h_for a t)) rest,
    length-to_le 4 (h_for a t),
  )

  on_wire :
      (rest : List ℕ)
      → from_le (take 4 (drop (s_for a t) (pad ++ (to_le 4 (h_for a t) ++ rest)))) ≡ h_for a t
  on_wire rest =
      ap (λ d. from_le (take 4 d)) (drop_front (s_for a t) pad (to_le 4 (h_for a t) ++ rest) padded)
      ∙ ap from_le (take_front 4 (to_le 4 (h_for a t)) rest (length-to_le 4 (h_for a t)))
      ∙ from_le-to_le 4 (h_for a t) (omega (arith, fits))

  itself : (n : ℕ) → (n == n) ≡ true
  itself n = ground arith

  pub recognised_fixed :
      (rest : List ℕ) (fixed : ℕ)
      → length rest + 4 ≡ fixed
      → recognised a (pad ++ (to_le 4 (h_for a t) ++ rest)) (t, fixed, false) ≡ true
  unfolding recognised
  recognised_fixed rest fixed size =
      let len = length-pad rest in
      let enough : ltb (length (pad ++ (to_le 4 (h_for a t) ++ rest))) (s_for a t + 4) ≡ false =
        ground (arith, len) in
      let sized : (length (pad ++ (to_le 4 (h_for a t) ++ rest)) == s_for a t + fixed) ≡ true =
        ground (arith, len, size) in
      rw (enough, sized, on_wire rest) (itself (h_for a t))

  pub recognised_least :
      (rest : List ℕ) (fixed : ℕ)
      → fixed ≤ length rest + 4
      → recognised a (pad ++ (to_le 4 (h_for a t) ++ rest)) (t, fixed, true) ≡ true
  unfolding recognised
  recognised_least rest fixed size =
      let len = length-pad rest in
      let enough : ltb (length (pad ++ (to_le 4 (h_for a t) ++ rest))) (s_for a t + 4) ≡ false =
        ground (arith, len) in
      let sized : leb (s_for a t + fixed) (length (pad ++ (to_le 4 (h_for a t) ++ rest))) ≡ true =
        ground (arith, len, size) in
      rw (enough, sized, on_wire rest) (itself (h_for a t))

  pub undress-pad :
      (rest : List ℕ)
      → undress B a key (pad ++ (to_le 4 (h_for a t) ++ rest)) t ≡ (
          if t == t_init || t == t_resp
          then fix_mac1 B key (to_le 4 t ++ rest)
          else to_le 4 t ++ rest)
  unfolding undress
  undress-pad rest =
      rw
        (
          drop_front (s_for a t) pad (to_le 4 (h_for a t) ++ rest) padded,
          drop_front 4 (to_le 4 (h_for a t)) rest (length-to_le 4 (h_for a t)),
        )
        refl

  -- With the covered bytes' own MAC1, whatever stood in its place.
  fix_mac1-to_le :
      (n : ℕ) (body mac1 mac2 : List ℕ)
      → (length body ≡ 112) ⊎ (length body ≡ 56)
      → length mac1 ≡ 16
      → length mac2 ≡ 16
      → fix_mac1 B key (to_le 4 n ++ (body ++ (mac1 ++ mac2))) ≡ handshake B key n body mac2
  fix_mac1-to_le n body mac1 mac2 size m1 m2 =
      let len : length (to_le 4 n ++ body) ≡ 4 + length body =
        omega (arith, length-append (to_le 4 n) body, length-to_le 4 n) in
      let sizes : (length (to_le 4 n ++ body) ≡ 116) ⊎ (length (to_le 4 n ++ body) ≡ 60) =
        elim size [
          | inl large ↦ inl (omega (arith, len, large))
          | inr small ↦ inr (omega (arith, len, small))
        ] in
      ap (fix_mac1 B key) (sym (append_assoc (to_le 4 n) body (mac1 ++ mac2)))
      ∙ fix_mac1_parts B key (to_le 4 n ++ body) mac1 mac2 sizes m1 m2

-- One that the sender dressed is undressed to the same message.
module _ (B : Blake2s) (tagged : (k m : List ℕ) → length (B.mac k m) ≡ 16) (a : AwgObfuscation)
    (key pad : List ℕ) (t : ℕ) (fits : h_for a t < 2 ^ 32) (padded : length pad ≡ s_for a t)
    (body mac2 : List ℕ) (size : (length body ≡ 112) ⊎ (length body ≡ 56)) (m2 : length mac2 ≡ 16)
    (hand : (t == t_init || t == t_resp) ≡ true) where
  abbrev pub tag : ℕ → List ℕ
  tag n = B.mac (mac1_key B key) (to_le 4 n ++ body)

  abbrev pub rest : List ℕ
  rest = body ++ (tag (h_for a t) ++ mac2)

  abbrev pub wire : List ℕ
  wire = pad ++ (to_le 4 (h_for a t) ++ rest)

  pub length-rest : length rest ≡ length body + 32
  length-rest = omega (
    arith,
    m2,
    tagged (mac1_key B key) (to_le 4 (h_for a t) ++ body),
    length-append body (tag (h_for a t) ++ mac2),
    length-append (tag (h_for a t)) mac2,
  )

  -- A message of the parts, the type first.
  pub assoc : (n : ℕ) → handshake B key n body mac2 ≡ to_le 4 n ++ (body ++ (tag n ++ mac2))
  assoc n = append_assoc (to_le 4 n) body (tag n ++ mac2)

  pub dress-wire : dress B a key pad (handshake B key t body mac2) t ≡ wire
  unfolding dress
  dress-wire =
      rw
        (
          assoc t,
          drop_front 4 (to_le 4 t) (body ++ (tag t ++ mac2)) (length-to_le 4 t),
          hand,
          fix_mac1-to_le B a key pad t fits padded (h_for a t) body (tag t) mac2 size
              (tagged (mac1_key B key) (to_le 4 t ++ body)) m2,
          assoc (h_for a t),
        )
        refl

  pub undress-wire : undress B a key wire t ≡ handshake B key t body mac2
  undress-wire =
      rw (undress-pad B a key pad t fits padded rest, hand)
        (fix_mac1-to_le B a key pad t fits padded t body (tag (h_for a t)) mac2 size
          (tagged (mac1_key B key) (to_le 4 (h_for a t) ++ body)) m2)
