-- ===== src/Shadowsocks/Crypto.antt =====
-- crates/net/src/shadowsocks/crypto.rs: the methods, the keys and the counter of nonces.
pub mod Laws
pub mod Sealed
pub mod Nonce
pub mod Evp
use jamm_vpn.Base.{
  ℕ, zero, suc, ◌+◌, ◌%◌, Bool, true, false, not, Option, none, some, List, [], ◌∷◌, ◌++◌, ltb,
  ◌==◌, if◌then◌else◌, length, take,
}
use jamm_vpn.Base.Text.{Str, bytes, str_eq, to_ascii_lowercase}
use jamm_vpn.Error.{Result, ok, err, ◌>>=◌}

pub data SsError : Type 0 where
  random_failed bad_subkey seal_failed open_failed bad_psk : SsError
  empty_header short_v4 short_v6 no_length short_domain unknown_atyp shorter_than_salt : SsError
  bad_chunk unexpected_eof read_failed write_failed panicked : SsError
  bad_xchacha_key xchacha_seal_failed xchacha_open_failed shorter_than_nonce short_header : SsError
  shorter_than_minimum short_response not_server bad_timestamp foreign_session bad_padding
        replayed :
      SsError

pub data Method : Type 0 where
  aes128_gcm aes256_gcm chacha20_ietf_poly1305 : Method
  ss2022_aes128_gcm ss2022_aes256_gcm ss2022_chacha20_poly1305 : Method

pub data Cipher : Type 0 where
  aes128 aes256 chacha : Cipher

-- What the program calls of other crates.
pub record Primitives : Type 0 where
  pub md5 : List ℕ → List ℕ
  -- HKDF-SHA1 of a salt, a key, a label and a length.
  pub hkdf_sha1 : List ℕ → List ℕ → Str → ℕ → List ℕ
  -- `blake3::derive_key` of a context and a material, and `blake3::hash`.
  pub derive_key : Str → List ℕ → List ℕ
  pub blake3 : List ℕ → List ℕ
  -- `new_from_slice` of a cipher accepts the key.
  pub new_from_slice : Cipher → List ℕ → Bool
  -- `encrypt` and `decrypt` of a cipher with a key and a nonce.
  pub encrypt : Cipher → List ℕ → List ℕ → List ℕ → Option (List ℕ)
  pub decrypt : Cipher → List ℕ → List ℕ → List ℕ → Option (List ℕ)
  -- The same of XChaCha20-Poly1305.
  pub xchacha_new : List ℕ → Bool
  pub xchacha_encrypt : List ℕ → List ℕ → List ℕ → Option (List ℕ)
  pub xchacha_decrypt : List ℕ → List ℕ → List ℕ → Option (List ℕ)
  -- `encrypt_block` and `decrypt_block` of AES with a key.
  pub encrypt_block : List ℕ → List ℕ → List ℕ
  pub decrypt_block : List ℕ → List ℕ → List ℕ

-- The name, already in lower case.
abbrev name_match : Str → Option Method
name_match s =
    if str_eq s (bytes "aes-128-gcm")
    then some aes128_gcm
    else if str_eq s (bytes "aes-256-gcm")
    then some aes256_gcm
    else if str_eq s (bytes "chacha20-ietf-poly1305")
    then some chacha20_ietf_poly1305
    else if str_eq s (bytes "chacha20-poly1305")
    then some chacha20_ietf_poly1305
    else if str_eq s (bytes "2022-blake3-aes-128-gcm")
    then some ss2022_aes128_gcm
    else if str_eq s (bytes "2022-blake3-aes-256-gcm")
    then some ss2022_aes256_gcm
    else if str_eq s (bytes "2022-blake3-chacha20-poly1305")
    then some ss2022_chacha20_poly1305
    else none

unfoldable pub from_name : Str → Option Method
from_name s = name_match (to_ascii_lowercase s)

abbrev pub key_len : Method → ℕ
key_len aes128_gcm = 16
key_len ss2022_aes128_gcm = 16
key_len aes256_gcm = 32
key_len chacha20_ietf_poly1305 = 32
key_len ss2022_aes256_gcm = 32
key_len ss2022_chacha20_poly1305 = 32

abbrev pub salt_len : Method → ℕ
salt_len m = key_len m

abbrev pub is_2022 : Method → Bool
is_2022 ss2022_aes128_gcm = true
is_2022 ss2022_aes256_gcm = true
is_2022 ss2022_chacha20_poly1305 = true
is_2022 _ = false

abbrev pub is_chacha2022 : Method → Bool
is_chacha2022 ss2022_chacha20_poly1305 = true
is_chacha2022 _ = false

abbrev pub cipher : Method → Cipher
cipher aes128_gcm = aes128
cipher ss2022_aes128_gcm = aes128
cipher aes256_gcm = aes256
cipher ss2022_aes256_gcm = aes256
cipher chacha20_ietf_poly1305 = chacha
cipher ss2022_chacha20_poly1305 = chacha

-- The loop of `evp_bytes_to_key`, on fuel.
unfoldable pub evp_loop : Primitives → List ℕ → ℕ → ℕ → List ℕ → List ℕ → List ℕ
evp_loop P password len zero key prev = key
evp_loop P password len (suc fuel) key prev =
    let digest = P.md5 (prev ++ password) in
    let rest = evp_loop P password len fuel (key ++ digest) digest in
    if ltb (length key) len then rest else key

-- Each round adds a byte at least, hence as many rounds as the key has bytes are enough.
unfoldable pub evp_bytes_to_key : Primitives → List ℕ → ℕ → List ℕ
evp_bytes_to_key P password len = take len (evp_loop P password len len [] [])

unfoldable pub session_subkey : Primitives → Method → List ℕ → List ℕ → List ℕ
session_subkey P m master salt = P.hkdf_sha1 salt master (bytes "ss-subkey") (key_len m)

unfoldable pub session_subkey_2022 : Primitives → Method → List ℕ → List ℕ → List ℕ
session_subkey_2022 P m psk salt =
    take (key_len m) (P.derive_key (bytes "shadowsocks 2022 session subkey") (psk ++ salt))

unfoldable pub identity_subkey_2022 : Primitives → Method → List ℕ → List ℕ → List ℕ
identity_subkey_2022 P m ipsk salt =
    take (key_len m) (P.derive_key (bytes "shadowsocks 2022 identity subkey") (ipsk ++ salt))

unfoldable pub psk_hash_16 : Primitives → List ℕ → List ℕ
psk_hash_16 P psk = take 16 (P.blake3 psk)

unfoldable pub aes_ecb_encrypt_block : Primitives → List ℕ → List ℕ → Result SsError (List ℕ)
aes_ecb_encrypt_block P psk block =
    if length psk == 16
    then (if P.new_from_slice aes128 psk then ok (P.encrypt_block psk block) else err bad_psk)
    else if length psk == 32
    then (if P.new_from_slice aes256 psk then ok (P.encrypt_block psk block) else err bad_psk)
    else err bad_psk

unfoldable pub aes_ecb_decrypt_block : Primitives → List ℕ → List ℕ → Result SsError (List ℕ)
aes_ecb_decrypt_block P psk block =
    if length psk == 16
    then (if P.new_from_slice aes128 psk then ok (P.decrypt_block psk block) else err bad_psk)
    else if length psk == 32
    then (if P.new_from_slice aes256 psk then ok (P.decrypt_block psk block) else err bad_psk)
    else err bad_psk

-- The key behind an identity's key in the chain: the next one, or the session's key.
abbrev pub next_psk : List (List ℕ) → List ℕ → List ℕ
next_psk [] session_psk = session_psk
next_psk (next ∷ _) session_psk = next

unfoldable pub build_identity_headers :
    Primitives → Method → List (List ℕ) → List ℕ → List ℕ → Result SsError (List ℕ)
build_identity_headers P m [] session_psk salt = ok []
build_identity_headers P m (ipsk ∷ identity_psks) session_psk salt = do
  block ←
      aes_ecb_encrypt_block P (identity_subkey_2022 P m ipsk salt)
        (psk_hash_16 P (next_psk identity_psks session_psk))
  rest ← build_identity_headers P m identity_psks session_psk salt
  ok (block ++ rest)

-- `AeadKey`, a cipher with its key.
pub record AeadKey : Type 0 where
  pub cipher : Cipher
  pub subkey : List ℕ

unfoldable pub aead_key : Primitives → Method → List ℕ → Result SsError AeadKey
aead_key P m subkey =
    if P.new_from_slice (cipher m) subkey
    then ok (record { cipher = cipher m; subkey = subkey })
    else err bad_subkey

abbrev pub or_error : SsError → Option (List ℕ) → Result SsError (List ℕ)
or_error e none = err e
or_error e (some bs) = ok bs

abbrev pub seal_with : Primitives → AeadKey → List ℕ → List ℕ → Result SsError (List ℕ)
seal_with P k nonce pt = or_error seal_failed (P.encrypt k.cipher k.subkey nonce pt)

abbrev pub open_with : Primitives → AeadKey → List ℕ → List ℕ → Result SsError (List ℕ)
open_with P k nonce ct = or_error open_failed (P.decrypt k.cipher k.subkey nonce ct)

-- One direction: a key and the counter of nonces.
pub record Crypto : Type 0 where
  pub key : AeadKey
  pub nonce : List ℕ

abbrev pub zero_nonce : List ℕ
zero_nonce = 0 ∷ 0 ∷ 0 ∷ 0 ∷ 0 ∷ 0 ∷ 0 ∷ 0 ∷ 0 ∷ 0 ∷ 0 ∷ 0 ∷ []

-- The first byte that does not wrap ends the loop.
unfoldable pub incr_nonce : List ℕ → List ℕ
incr_nonce [] = []
incr_nonce (b ∷ nonce) =
    let next = (b + 1) % 256 in if not (next == 0) then next ∷ nonce else next ∷ incr_nonce nonce

unfoldable pub new : Primitives → Method → List ℕ → Result SsError Crypto
new P m subkey = do key ← aead_key P m subkey; ok (record { key = key; nonce = zero_nonce })

unfoldable pub seal : Primitives → Crypto → List ℕ → Result SsError (List ℕ × Crypto)
seal P c pt = do ct ← seal_with P c.key c.nonce pt; ok (ct, record c { nonce = incr_nonce c.nonce })

-- `open`.
unfoldable pub open_sealed : Primitives → Crypto → List ℕ → Result SsError (List ℕ × Crypto)
open_sealed P c ct = do
  pt ← open_with P c.key c.nonce ct
  ok (pt, record c { nonce = incr_nonce c.nonce })

-- With an explicit nonce.
unfoldable pub seal_nonce : Primitives → Method → List ℕ → List ℕ → List ℕ → Result SsError (List ℕ)
seal_nonce P m subkey nonce pt = do key ← aead_key P m subkey; seal_with P key nonce pt

unfoldable pub open_nonce : Primitives → Method → List ℕ → List ℕ → List ℕ → Result SsError (List ℕ)
open_nonce P m subkey nonce ct = do key ← aead_key P m subkey; open_with P key nonce ct
