-- ===== src/Tests/Shadowsocks.antt =====
-- Shadowsocks with a cipher that encrypts nothing and appends an empty tag.
use jamm_vpn.Base.{
  ℕ, zero, suc, ◌+◌, ◌-◌, ◌^◌, ◌%◌, ◌≡◌, ◌≢◌, refl, ◌∙◌, ap, true, false, Option, none, some, List,
  [], ◌∷◌, ◌++◌, ◌==◌, arith, if◌then◌else◌, length, nth, take, length-append, take-append,
}
use jamm_vpn.Base.Text.{bytes}
use jamm_vpn.Base.Octets.{to_le}
use jamm_vpn.Base.Utf8.{is_utf8}
use jamm_vpn.Error.{ok, err}
use jamm_vpn.Addr.{Target, domain}
use jamm_vpn.Shadowsocks.Crypto.{
  Primitives, aes128_gcm, ss2022_aes256_gcm, ss2022_chacha20_poly1305, replayed, session_subkey,
  shorter_than_nonce, cipher, aead_key, seal, Crypto, new, evp_bytes_to_key,
}
use jamm_vpn.Shadowsocks.Crypto.Laws.{IsPrimitives, key_size}
use jamm_vpn.Shadowsocks.Crypto.Nonce.{IsEncrypted, nonce_at, seal_all, seal_all_apart}
use jamm_vpn.Shadowsocks.Crypto.Evp.{blocks, evp_bytes_to_key-blocks}
use jamm_vpn.Shadowsocks.Udp.{encrypt_packet, decrypt_packet}
use jamm_vpn.Shadowsocks.Udp.RoundTrip.{decrypt_packet-encrypt_packet}
use jamm_vpn.Shadowsocks.Stream.{Arrival, chunk, wait, new_reader, seal_chunk, first_write}
use jamm_vpn.Shadowsocks.Stream.Writer.{
  Answer, takes, stalls, Writer, new_writer, poll_write, flush_wbuf, flush_loop,
}
use jamm_vpn.Shadowsocks.Stream.Writer.Delivered.{write_all, drain-write_all}
use jamm_vpn.Shadowsocks.Stream.Drain.{seal_chunks, drain}
use jamm_vpn.Shadowsocks.Replay.{accept, accept_all, run, start}
use jamm_vpn.Shadowsocks.Replay.History.{admit_all, empty}
use jamm_vpn.Shadowsocks.Replay.Window.{accept_all_history}
use jamm_vpn.Shadowsocks.Replay.Repeats.{accept_once, accept_replayed}
use jamm_vpn.Shadowsocks.Session.{Session, decrypt, encrypt, open_packet, request_body}
use jamm_vpn.Shadowsocks.Session.Packet.{server_packet, server_body}
use jamm_vpn.Shadowsocks.Session.Opened.{decrypt-server_packet}
use jamm_vpn.Shadowsocks.Session.Sent.{open_packet-encrypt}
use jamm_vpn.Shadowsocks.Session.Unchanged.{decrypt_refused}

abbrev repeated : ℕ → ℕ → List ℕ
repeated zero b = []
repeated (suc n) b = b ∷ repeated n b

length-repeated : (n b : ℕ) → length (repeated n b) ≡ n
length-repeated zero b = refl
length-repeated (suc n) b = omega (arith, length-repeated n b)

abbrev plain : Primitives
plain = record {
  md5 = λ m. repeated 16 (length m % 256);
  hkdf_sha1 = λ salt key label n. repeated n 7;
  derive_key = λ context m. repeated 32 5;
  blake3 = λ m. repeated 32 3;
  new_from_slice = λ c key. length key == key_size c;
  encrypt = λ c key nonce pt. some (pt ++ repeated 16 0);
  decrypt = λ c key nonce ct. some (take (length ct - 16) ct);
  xchacha_new = λ key. length key == 32;
  xchacha_encrypt = λ key nonce pt. some (pt ++ repeated 16 0);
  xchacha_decrypt = λ key nonce ct. some (take (length ct - 16) ct);
  encrypt_block = λ key block. block;
  decrypt_block = λ key block. block;
}

untagged : (pt : List ℕ) → take (length (pt ++ repeated 16 0) - 16) (pt ++ repeated 16 0) ≡ pt
untagged pt =
    let len : length (pt ++ repeated 16 0) - 16 ≡ length pt =
      omega (arith, length-append pt (repeated 16 0)) in
    ap (λ n. take n (pt ++ repeated 16 0)) len ∙ take-append pt (repeated 16 0)

plain-IsPrimitives : IsPrimitives plain
plain-IsPrimitives = record {
  md5_len = λ m. length-repeated 16 (length m % 256);
  hkdf_len = λ salt key label n. length-repeated n 7;
  derive_len = λ context m. length-repeated 32 5;
  accepts = λ c key e. ground (arith, e);
  seals = λ c key nonce pt a b s. record {
    ct = pt ++ repeated 16 0;
    encrypted = refl;
    tagged = omega (arith, length-append pt (repeated 16 0));
    decrypted = ap (λ t. some t) (untagged pt);
  };
  xchacha_accepts = λ key e. ground (arith, e);
  xchacha_seals = λ key nonce pt a b s. record {
    ct = pt ++ repeated 16 0;
    encrypted = refl;
    tagged = omega (arith, length-append pt (repeated 16 0));
    decrypted = ap (λ t. some t) (untagged pt);
  };
  unblock = λ key block e. refl;
  block_len = λ key block e. e;
}

abbrev first_id : List ℕ
first_id = repeated 8 1

abbrev second_id : List ℕ
second_id = repeated 8 2

abbrev arrivals : List (List ℕ × ℕ)
arrivals =
    (first_id, 5)
    ∷ (first_id, 7)
    ∷ (first_id, 5)
    ∷ (first_id, 6)
    ∷ (second_id, 5)
    ∷ (first_id, 5)
    ∷ []

arrivals_answers : accept_all arrivals start ≡ true ∷ true ∷ false ∷ true ∷ true ∷ true ∷ []
unfolding accept
arrivals_answers = refl

accept_all_history_example : accept_all arrivals start ≡ admit_all arrivals empty
accept_all_history_example = accept_all_history arrivals

accept_once_example :
    (accept first_id 5
      (run ((first_id, 90) ∷ (first_id, 40) ∷ []) (accept first_id 5 (run arrivals start)).1)).0
    ≡ false
accept_once_example = accept_once arrivals first_id 5 (90 ∷ 40 ∷ [])

ids_apart : first_id ≢ second_id
ids_apart e = cc

accept_replayed_example :
    (accept first_id 5 (accept second_id 1 (accept first_id 5 start).1).1).0 ≡ true
accept_replayed_example = accept_replayed start first_id second_id 5 1 ids_apart

evp_bytes_to_key-blocks_example :
    evp_bytes_to_key plain (bytes "pass") 32 ≡ take 32 (blocks plain (bytes "pass") 3 [])
evp_bytes_to_key-blocks_example =
    evp_bytes_to_key-blocks plain (bytes "pass") 32 3 (λ m. length-repeated 16 (length m % 256))
      (omega arith)

abbrev site : Target
site = domain (bytes "example.com") 443

decrypt_packet-encrypt_packet_example :
    (packet : List ℕ) × (encrypt_packet plain
        (some (repeated 16 9))
        aes128_gcm
        (repeated 16 4)
        site
        (1 ∷ 2 ∷ [])
      ≡ ok packet)
    × (decrypt_packet plain aes128_gcm (repeated 16 4) packet ≡ ok (site, 1 ∷ 2 ∷ []))
unfolding is_utf8
decrypt_packet-encrypt_packet_example =
    decrypt_packet-encrypt_packet plain aes128_gcm (repeated 16 4) (repeated 16 9) site (1 ∷ 2 ∷ [])
      plain-IsPrimitives refl (omega arith, refl, omega arith) (omega arith)

abbrev session : Session
session = record {
  method = ss2022_chacha20_poly1305;
  psk = repeated 32 4;
  identity_psks = [];
  session_id = first_id;
  next_packet_id = 3;
  replay = start;
}

abbrev aes_session : Session
aes_session = record session { method = ss2022_aes256_gcm }

decrypt-server_packet_example :
    (packet : List ℕ) × (server_packet plain ss2022_aes256_gcm
        (repeated 32 4)
        second_id
        8
        (repeated 24 6)
        (server_body 1000 first_id (0 ∷ []) site (7 ∷ []))
      ≡ ok packet)
    × (decrypt plain 1030 packet aes_session ≡ (
      if (accept second_id 8 start).0 then ok (7 ∷ []) else err replayed,
      record aes_session { replay = (accept second_id 8 start).1 },
    ))
unfolding is_utf8
decrypt-server_packet_example =
    decrypt-server_packet plain 1030 1000 aes_session second_id 8 (repeated 24 6) (0 ∷ []) site
      (7 ∷ []) plain-IsPrimitives refl refl refl (omega arith) refl (omega arith) (omega arith)
      (omega arith) (omega arith, refl, omega arith) (omega arith)

open_packet-encrypt_example :
    (packet : List ℕ) × (encrypt plain 1000 (some (repeated 24 6)) site (7 ∷ []) session
      ≡ (ok packet, record session { next_packet_id = (3 + 1) % 2 ^ 64 }))
    × (open_packet plain ss2022_chacha20_poly1305 (repeated 32 4) packet
        ≡ ok ((first_id, 3), request_body 1000 site (7 ∷ [])))
open_packet-encrypt_example =
    open_packet-encrypt plain 1000 (repeated 24 6) site (7 ∷ []) session plain-IsPrimitives refl
      refl refl (omega arith) refl (omega arith)

cut_off : (decrypt plain 1000 (1 ∷ 2 ∷ []) session).0 ≡ err shorter_than_nonce
unfolding decrypt open_packet
cut_off = refl

decrypt_refused_example : (decrypt plain 1000 (1 ∷ 2 ∷ []) session).1 ≡ session
decrypt_refused_example = decrypt_refused plain 1000 (1 ∷ 2 ∷ []) session shorter_than_nonce cut_off

abbrev counter : ℕ → Crypto
counter n = record {
  key = record { cipher = cipher aes128_gcm; subkey = repeated 16 4 };
  nonce = nonce_at n;
}

new-counter : new plain aes128_gcm (repeated 16 4) ≡ ok (counter 0)
unfolding new aead_key
new-counter = refl

abbrev tag : List ℕ
tag = repeated 16 0

-- A cipher that shows the nonce it was called with.
abbrev showing : Primitives
showing = record plain { encrypt = λ c key nonce pt. some (nonce ++ (pt ++ tag)) }

abbrev three_sealed : List (List ℕ)
three_sealed =
    (nonce_at 0 ++ (1 ∷ tag)) ∷ (nonce_at 1 ++ (2 ∷ tag)) ∷ (nonce_at 2 ++ (2 ∷ tag)) ∷ []

new-showing : new showing aes128_gcm (repeated 16 4) ≡ ok (counter 0)
unfolding new aead_key
new-showing = refl

sealed_three :
    seal_all showing (counter 0) ((1 ∷ []) ∷ (2 ∷ []) ∷ (2 ∷ []) ∷ [])
    ≡ ok (three_sealed, counter 3)
unfolding seal
sealed_three = refl

seal_all_apart_example :
    IsEncrypted showing (counter 0).key (to_le 12 1) (2 ∷ []) (nth 1 three_sealed)
    × IsEncrypted showing (counter 0).key (to_le 12 2) (2 ∷ []) (nth 2 three_sealed)
    × (to_le 12 1 ≢ to_le 12 2)
seal_all_apart_example =
    seal_all_apart showing aes128_gcm (repeated 16 4) (counter 0) (counter 3)
      ((1 ∷ []) ∷ (2 ∷ []) ∷ (2 ∷ []) ∷ []) three_sealed 1 2 (2 ∷ []) (2 ∷ []) new-showing
      sealed_three (omega arith) (omega arith) refl refl

abbrev stream_key : ℕ → Crypto
stream_key n = record (counter n) {
  key = record { cipher = cipher aes128_gcm; subkey = repeated 16 7 };
}

abbrev texts : List (List ℕ)
texts = (1 ∷ 2 ∷ []) ∷ (3 ∷ []) ∷ []

abbrev sealed_texts : List ℕ
sealed_texts = (0 ∷ 2 ∷ tag) ++ ((1 ∷ 2 ∷ tag) ++ ((0 ∷ 1 ∷ tag) ++ (3 ∷ tag)))

abbrev cut_up : List Arrival
cut_up =
    chunk (repeated 9 9)
    ∷ wait
    ∷ chunk (repeated 7 9 ++ (0 ∷ 2 ∷ []))
    ∷ chunk (tag ++ ((1 ∷ 2 ∷ tag) ++ (0 ∷ 1 ∷ tag)))
    ∷ wait
    ∷ chunk (3 ∷ tag)
    ∷ []

stream_started :
    new plain aes128_gcm (session_subkey plain aes128_gcm (repeated 16 4) (repeated 16 9))
    ≡ ok (stream_key 0)
unfolding new aead_key session_subkey
stream_started = refl

texts_sealed : seal_chunks plain (stream_key 0) texts ≡ ok (sealed_texts, stream_key 4)
unfolding seal seal_chunk
texts_sealed = refl

-- The stream below takes the bytes in pieces and lets the second call wait once.
abbrev pieces : List Answer
pieces = takes 20 ∷ stalls ∷ stalls ∷ takes 30 ∷ takes 90 ∷ takes 99 ∷ []

abbrev calls : List (Option (List ℕ) × List ℕ)
calls = (some (repeated 16 9), 1 ∷ 2 ∷ []) ∷ (none, 3 ∷ []) ∷ (none, 3 ∷ []) ∷ []

abbrev finished : Writer
finished = record (new_writer [] aes128_gcm (repeated 16 4)) {
  written = repeated 16 9 ++ sealed_texts;
  send = some (stream_key 4);
}

calls_taken :
    write_all plain calls (new_writer pieces aes128_gcm (repeated 16 4)) [] ≡ some (finished, texts)
unfolding write_all poll_write flush_wbuf flush_loop new_writer first_write seal new aead_key
    session_subkey
calls_taken = refl

drain-write_all_example :
    drain plain 1 9 (new_reader cut_up aes128_gcm (repeated 16 4)) ≡ some (ok (1 ∷ 2 ∷ 3 ∷ []))
unfolding new_writer
drain-write_all_example =
    drain-write_all plain aes128_gcm (repeated 16 4) pieces calls finished texts cut_up 1 9
      plain-IsPrimitives (refl, (tt, (tt, tt))) calls_taken (omega arith) (omega arith) refl
      (refl, (refl, (refl, (refl, (refl, (refl, tt)))))) (omega arith) (omega arith)
