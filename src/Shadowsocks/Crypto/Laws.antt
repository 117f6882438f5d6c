-- ===== src/Shadowsocks/Crypto/Laws.antt =====
-- What the program relies on of the ciphers and the hash functions.
use jamm_vpn.Base.{ℕ, ◌+◌, ◌≡◌, ◌<◌, ◌^◌, true, some, List, length}
use jamm_vpn.Base.Text.{Str}
use jamm_vpn.Shadowsocks.Crypto.{Primitives, Cipher, aes128, aes256, chacha}

abbrev pub key_size : Cipher → ℕ
key_size aes128 = 16
key_size aes256 = 32
key_size chacha = 32

-- A text of less than 4 GiB is encrypted; the tag has 16 bytes; it decrypts to the same text.
pub record Seals (P : Primitives) (c : Cipher) (key nonce pt : List ℕ) : Type 0 where
  pub ct : List ℕ
  pub encrypted : P.encrypt c key nonce pt ≡ some ct
  pub tagged : length ct ≡ length pt + 16
  pub decrypted : P.decrypt c key nonce ct ≡ some pt

pub record XchachaSeals (P : Primitives) (key nonce pt : List ℕ) : Type 0 where
  pub ct : List ℕ
  pub encrypted : P.xchacha_encrypt key nonce pt ≡ some ct
  pub tagged : length ct ≡ length pt + 16
  pub decrypted : P.xchacha_decrypt key nonce ct ≡ some pt

pub record IsPrimitives (P : Primitives) : Type 0 where
  pub md5_len : (m : List ℕ) → length (P.md5 m) ≡ 16
  pub hkdf_len :
      (salt key : List ℕ) (label : Str) (n : ℕ) → length (P.hkdf_sha1 salt key label n) ≡ n
  pub derive_len : (context : Str) (m : List ℕ) → length (P.derive_key context m) ≡ 32
  pub accepts :
      (c : Cipher) (key : List ℕ) → length key ≡ key_size c → P.new_from_slice c key ≡ true
  pub seals :
      (c : Cipher) (key nonce pt : List ℕ)
      → length key ≡ key_size c
      → length nonce ≡ 12
      → length pt < 2 ^ 32
      → Seals P c key nonce pt
  pub xchacha_accepts : (key : List ℕ) → length key ≡ 32 → P.xchacha_new key ≡ true
  pub xchacha_seals :
      (key nonce pt : List ℕ)
      → length key ≡ 32
      → length nonce ≡ 24
      → length pt < 2 ^ 32
      → XchachaSeals P key nonce pt
  pub unblock :
      (key block : List ℕ)
      → length block ≡ 16
      → P.decrypt_block key (P.encrypt_block key block) ≡ block
  pub block_len : (key block : List ℕ) → length block ≡ 16 → length (P.encrypt_block key block) ≡ 16
