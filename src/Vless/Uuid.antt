-- ===== src/Vless/Uuid.antt =====
-- What `parse_uuid` accepts and gives.
use jamm_vpn.Base.{
  ℕ, ◌/◌, ◌<◌, ◌≡◌, refl, sym, inl, inr, Option, none, some, List, [], ◌∷◌, ◌++◌, ◌==◌, arith,
  length, All, Bool-cases, Option-cases,
}
use jamm_vpn.Base.Text.{Str}
use jamm_vpn.Vless.{without_dashes, hex_pair, hex_pairs, parse_uuid}

some_is {ℓ} : {A : Type ℓ} {a b : A} → some a ≡ some b → a ≡ b
some_is e = cc

none_is {ℓ} : {A : Type ℓ} {a : A} → ¬ (◌≡◌ {A = Option A} none (some a))
none_is e = cc

hex_pair_octet : (a b v : ℕ) → hex_pair a b ≡ some v → v < 256
unfolding hex_pair
hex_pair_octet a b v e = ground arith

-- As many bytes as pairs, each an octet.
hex_pairs_octets :
    (s : Str) (u : List ℕ) → hex_pairs s ≡ some u → (length u ≡ length s / 2) × All (λ b. b < 256) u
unfolding hex_pairs
hex_pairs_octets [] u e = rw (sym (some_is e)) (refl, tt)
hex_pairs_octets (a ∷ []) u e = rw (sym (some_is e)) (refl, tt)
hex_pairs_octets (a ∷ b ∷ rest) u e = elim (Option-cases (hex_pair a b)) [
  | inl bad ↦ absurd (none_is (rw (hex_pairs, bad) at e))
  | inr (v, good) ↦ elim (Option-cases (hex_pairs rest)) [
    | inl bad ↦ absurd (none_is (rw (hex_pairs, good, bad) at e))
    | inr (vs, more) ↦
        let again = hex_pairs_octets rest vs more in
        rw (sym (some_is (rw (hex_pairs, good, more) at e)))
          (omega (arith, again.0), (hex_pair_octet a b v good, again.1))
  ]
]

-- An identifier that `parse_uuid` accepts has sixteen bytes.
pub parse_uuid_octets :
    (s : Str) (u : List ℕ) → parse_uuid s ≡ some u → (length u ≡ 16) × All (λ b. b < 256) u
unfolding parse_uuid
parse_uuid_octets s u e = elim (Bool-cases (length (without_dashes s) == 32)) [
  | inr other ↦ absurd (none_is (rw other at e))
  | inl whole ↦
      let found = hex_pairs_octets (without_dashes s) u (rw whole at e) in
      (ground (arith, found.0, whole), found.1)
]

without_dashes-append : (s t : Str) → without_dashes (s ++ (b'-' ∷ t)) ≡ without_dashes (s ++ t)
unfolding without_dashes
without_dashes-append [] t = refl
without_dashes-append (c ∷ s) t = rw (without_dashes-append s t)

-- A dash at any place of the text makes no difference to the identifier that `parse_uuid` reads.
pub parse_uuid_dash : (s t : Str) → parse_uuid (s ++ (b'-' ∷ t)) ≡ parse_uuid (s ++ t)
unfolding parse_uuid
parse_uuid_dash s t = rw (without_dashes-append s t)
