-- ===== src/Shadowsocks/Crypto/Sealed.antt =====
-- A key of the right length is accepted, and what one direction seals the other opens.
use jamm_vpn.Base.{
  ℕ, ◌+◌, ◌^◌, ◌<◌, ◌≡◌, refl, sym, ◌∙◌, ◌⊎◌, inl, inr, ap, ◌++◌, min, length-take, arith, List,
  length,
}
use jamm_vpn.Base.Text.{bytes}
use jamm_vpn.Error.{ok}
use jamm_vpn.Shadowsocks.Crypto.{
  Primitives, Method, aes128_gcm, aes256_gcm, chacha20_ietf_poly1305, ss2022_aes128_gcm,
  ss2022_aes256_gcm, ss2022_chacha20_poly1305, aes128, aes256, cipher, session_subkey_2022,
  aes_ecb_encrypt_block, aes_ecb_decrypt_block, key_len, aead_key, Crypto, zero_nonce, incr_nonce,
  new, seal, open_sealed, seal_nonce, open_nonce,
}
use jamm_vpn.Shadowsocks.Crypto.Laws.{IsPrimitives, key_size}

pub key_size-cipher : (m : Method) → key_size (cipher m) ≡ key_len m
key_size-cipher aes128_gcm = refl
key_size-cipher aes256_gcm = refl
key_size-cipher chacha20_ietf_poly1305 = refl
key_size-cipher ss2022_aes128_gcm = refl
key_size-cipher ss2022_aes256_gcm = refl
key_size-cipher ss2022_chacha20_poly1305 = refl

block_sizes : (m : Method) → (key_len m ≡ 16) ⊎ (key_len m ≡ 32)
block_sizes aes128_gcm = inl refl
block_sizes aes256_gcm = inr refl
block_sizes chacha20_ietf_poly1305 = inr refl
block_sizes ss2022_aes128_gcm = inl refl
block_sizes ss2022_aes256_gcm = inr refl
block_sizes ss2022_chacha20_poly1305 = inr refl

abbrev pub started : Method → List ℕ → Crypto
started m subkey = record {
  key = record { cipher = cipher m; subkey = subkey };
  nonce = zero_nonce;
}

abbrev pub stepped : Crypto → Crypto
stepped c = record c { nonce = incr_nonce c.nonce }

-- The key and the nonce have the lengths that the cipher asks for.
abbrev pub IsReady : Crypto → Type 0
IsReady c = (length c.key.subkey ≡ key_size c.key.cipher) × (length c.nonce ≡ 12)

module _ (P : Primitives) (laws : IsPrimitives P) where
  pub new-started :
      (m : Method) (subkey : List ℕ)
      → length subkey ≡ key_len m
      → new P m subkey ≡ ok (started m subkey)
  unfolding new aead_key
  new-started m subkey len =
      let yes_key = laws.accepts (cipher m) subkey (len ∙ sym (key_size-cipher m)) in
      rw yes_key refl

  pub seal-open_sealed :
      (c : Crypto) (pt : List ℕ)
      → IsReady c
      → length pt < 2 ^ 32
      → (ct : List ℕ) × (seal P c pt ≡ ok (ct, stepped c))
        × (open_sealed P c ct ≡ ok (pt, stepped c))
        × (length ct ≡ length pt + 16)
  unfolding seal open_sealed
  seal-open_sealed c pt (sized, counted) short =
      let s = laws.seals c.key.cipher c.key.subkey c.nonce pt sized counted short in
      (s.ct, rw s.encrypted refl, rw s.decrypted refl, s.tagged)

  pub seal_nonce-open_nonce :
      (m : Method) (subkey nonce pt : List ℕ)
      → length subkey ≡ key_len m
      → length nonce ≡ 12
      → length pt < 2 ^ 32
      → (ct : List ℕ) × (seal_nonce P m subkey nonce pt ≡ ok ct)
        × (open_nonce P m subkey nonce ct ≡ ok pt)
        × (length ct ≡ length pt + 16)
  unfolding seal_nonce open_nonce aead_key
  seal_nonce-open_nonce m subkey nonce pt len counted short =
      let sized = len ∙ sym (key_size-cipher m) in
      let accepted = laws.accepts (cipher m) subkey sized in
      let s = laws.seals (cipher m) subkey nonce pt sized counted short in
      (s.ct, rw (accepted, s.encrypted) refl, rw (accepted, s.decrypted) refl, s.tagged)

  -- A key of 16 or of 32 bytes encrypts a block, and decrypts it again.
  pub encrypt_block-key :
      (m : Method) (psk block : List ℕ)
      → length psk ≡ key_len m
      → (aes_ecb_encrypt_block P psk block ≡ ok (P.encrypt_block psk block))
        × (aes_ecb_decrypt_block P psk block ≡ ok (P.decrypt_block psk block))
  unfolding aes_ecb_encrypt_block aes_ecb_decrypt_block
  encrypt_block-key m psk block len = elim (block_sizes m) [
    | inl small ↦ let size = len ∙ small in rw (size, laws.accepts aes128 psk size) (refl, refl)
    | inr large ↦ let size = len ∙ large in rw (size, laws.accepts aes256 psk size) (refl, refl)
  ]

  pub session_subkey_2022-length :
      (m : Method) (psk salt : List ℕ) → length (session_subkey_2022 P m psk salt) ≡ key_len m
  unfolding session_subkey_2022
  session_subkey_2022-length m psk salt =
      let derived = P.derive_key (bytes "shadowsocks 2022 session subkey") (psk ++ salt) in
      length-take (key_len m) derived
      ∙ ap (λ n. min (key_len m) n)
          (laws.derive_len (bytes "shadowsocks 2022 session subkey") (psk ++ salt))
      ∙ elim (block_sizes m) [ inl small ↦ omega (arith, small) | inr large ↦ omega (arith, large) ]
