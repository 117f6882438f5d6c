-- ===== src/Shadowsocks/Stream/Drain.antt =====
-- A stream that was written is read to its end, however it is cut.
use mathlib.Core.List.{append_assoc}
use mathlib.Core.Path.{subst}
use jamm_vpn.Base.{
  ℕ, zero, suc, ◌+◌, ◌/◌, ◌%◌, ◌^◌, ◌<◌, ◌≤◌, ◌≡◌, ◌⊎◌, refl, sym, ◌∙◌, ap, inl, inr, Option, none,
  some, List, [], ◌∷◌, ◌++◌, arith, length, min, All, length-append,
}
use jamm_vpn.Error.{Result, ok, err, ◌>>=◌, ok-injective}
use jamm_vpn.Shadowsocks.Crypto.{
  SsError, Primitives, Method, salt_len, session_subkey, Crypto, new, open_sealed,
}
use jamm_vpn.Shadowsocks.Crypto.Laws.{IsPrimitives}
use jamm_vpn.Shadowsocks.Crypto.Nonce.{incr_nonce-length}
use jamm_vpn.Shadowsocks.Crypto.Sealed.{
  key_size-cipher, started, stepped, IsReady, new-started, seal-open_sealed,
}
use jamm_vpn.Shadowsocks.Udp.RoundTrip.{session_subkey-length}
use jamm_vpn.Shadowsocks.Stream.{
  max_chunk, Arrival, Poll, pending, ready, Reader, new_reader, poll_read, seal_chunk,
}
use jamm_vpn.Shadowsocks.Stream.Fill.{join, waits, IsGood, take_everything}
use jamm_vpn.Shadowsocks.Stream.Standing.{Encodes, concat, Stands}
use jamm_vpn.Shadowsocks.Stream.Steps.{poll_read-Step}

abbrev prepend : List ℕ → Option (Result SsError (List ℕ)) → Option (Result SsError (List ℕ))
prepend bs (some (ok rest)) = some (ok (bs ++ rest))
prepend bs other = other

-- What the polls behind one poll give is put behind its bytes; no byte is the end.
abbrev drained :
    (Reader → Option (Result SsError (List ℕ)))
    → Poll (List ℕ) × Reader
    → Option (Result SsError (List ℕ))
drained again (pending, r) = again r
drained again (ready (err e), r) = some (err e)
drained again (ready (ok []), r) = some (ok [])
drained again (ready (ok (b ∷ bs)), r) = prepend (b ∷ bs) (again r)

-- Polls until the end, at most `fuel` of them.
unfoldable pub drain : Primitives → ℕ → ℕ → Reader → Option (Result SsError (List ℕ))
drain P room zero r = none
drain P room (suc fuel) r = drained (λ r. drain P room fuel r) (poll_read P room r)

module _ (P : Primitives) (room : ℕ) (least : 1 ≤ room) where
  drain-Stands :
      (fuel : ℕ) (r : Reader) (text : List ℕ)
      → Stands P r text
      → length text + waits r.inner < fuel
      → drain P room fuel r ≡ some (ok text)
  unfolding drain
  drain-Stands zero r text s enough = absurd (omega (arith, enough))
  drain-Stands (suc fuel) r text s enough =
      let polled = poll_read P room r in
      elim (poll_read-Step P room r text least s) [
        | inl q ↦
            ap (λ p. drained (λ r. drain P room fuel r) (p, polled.1)) q.result
            ∙ drain-Stands fuel polled.1 text q.stands (omega (arith, q.fewer, enough))
        | inr q ↦
            ap (λ p. drained (λ r. drain P room fuel r) (p, polled.1)) q.result
            ∙ delivered fuel polled.1 text q.front q.rest q.parts q.progress (λ longer.
              drain-Stands fuel polled.1 q.rest q.stands (
                omega (
                  arith,
                  longer,
                  q.fewer,
                  enough,
                  ap length q.parts,
                  length-append q.front q.rest,
                )))
      ]
    where
      delivered :
          (fuel : ℕ) (r : Reader) (text front rest : List ℕ)
          → text ≡ front ++ rest
          → (1 ≤ length front) ⊎ (text ≡ [])
          → (1 ≤ length front → drain P room fuel r ≡ some (ok rest))
          → drained (λ r. drain P room fuel r) (ready (ok front), r) ≡ some (ok text)
      delivered fuel r text [] rest parts (inl long) later = absurd (omega (arith, long))
      delivered fuel r text [] rest parts (inr nothing) later = ap (λ t. some (ok t)) (sym nothing)
      delivered fuel r text (b ∷ bs) rest parts progress later =
          ap (prepend (b ∷ bs)) (later (omega arith)) ∙ ap (λ t. some (ok t)) (sym parts)

-- Chunks sealed one after the other.
abbrev pub seal_chunks : Primitives → Crypto → List (List ℕ) → Result SsError (List ℕ × Crypto)
seal_chunks P send [] = ok ([], send)
seal_chunks P send (buf ∷ bufs) = do
  (frame, send) ← seal_chunk P send buf
  (frames, send) ← seal_chunks P send bufs
  ok (frame ++ frames, send)

abbrev pub IsChunk : List ℕ → Type 0
IsChunk buf = (1 ≤ length buf) × (length buf ≤ max_chunk)

module _ (P : Primitives) (laws : IsPrimitives P) where
  stepped-IsReady : (c : Crypto) → IsReady c → IsReady (stepped c)
  stepped-IsReady c (sized, counted) = (sized, incr_nonce-length c.nonce ∙ counted)

  -- A chunk is sealed to a frame that opens to it.
  seal_chunk_opens :
      (c : Crypto) (buf : List ℕ)
      → IsReady c
      → IsChunk buf
      → (len_ct data_ct : List ℕ) × (seal_chunk P c buf
          ≡ ok (len_ct ++ data_ct, stepped (stepped c)))
        × (open_sealed P c len_ct
            ≡ ok ((length buf / 2 ^ 8) % 256 ∷ length buf % 256 ∷ [], stepped c))
        × (open_sealed P (stepped c) data_ct ≡ ok (buf, stepped (stepped c)))
        × (length len_ct ≡ 18)
        × (length data_ct ≡ length buf + 16)
  unfolding seal_chunk
  seal_chunk_opens c buf fit (least, most) =
      let n = (length buf / 2 ^ 8) % 256 ∷ length buf % 256 ∷ [] in
      let (len_ct, sealed_len, opened_len, tagged_len) =
        seal-open_sealed P laws c n fit (omega arith) in
      let (data_ct, sealed, opened, tagged) =
        seal-open_sealed P laws (stepped c) buf (stepped-IsReady c fit) (omega (arith, most)) in
      let whole : min (length buf) max_chunk ≡ length buf = omega (arith, most) in
      (
        len_ct,
        data_ct,
        rw (whole, take_everything (length buf) buf (omega arith), sealed_len, sealed) refl,
        opened_len,
        opened,
        tagged_len,
        tagged,
      )

  pub seal_chunks-Encodes :
      (c : Crypto) (bufs : List (List ℕ))
      → IsReady c
      → All IsChunk bufs
      → (frames : List ℕ) × (d : Crypto) × (seal_chunks P c bufs ≡ ok (frames, d))
        × Encodes P c bufs frames
  seal_chunks-Encodes c [] fit chunks = ([], c, refl, refl)
  seal_chunks-Encodes c (buf ∷ bufs) fit (chunk, chunks) =
      let (len_ct, data_ct, sealed, opened_len, opened, sized_len, sized) =
        seal_chunk_opens c buf fit chunk in
      let (least, most) = chunk in
      let (frames, d, rest, encodes) =
        seal_chunks-Encodes (stepped (stepped c)) bufs
          (stepped-IsReady (stepped c) (stepped-IsReady c fit)) chunks in
      (
        (len_ct ++ data_ct) ++ frames,
        d,
        rw (sealed, rest) refl,
        record {
          len_ct = len_ct;
          data_ct = data_ct;
          rest = frames;
          middle = stepped c;
          after = stepped (stepped c);
          opened_len = opened_len;
          opened = opened;
          sized_len = sized_len;
          sized = sized;
          least = least;
          most = most;
          parts = append_assoc len_ct data_ct frames;
          later = encodes;
        },
      )

-- Chunks of 1 to 16383 bytes, sealed behind a salt of the method's length, and cut into arrivals in
-- any way, with waits between them: polls with room for a byte at least read them to the end in
-- order and whole, within as many polls as there are bytes and waits, and one more.
pub drain-seal_chunks :
    (P : Primitives) (m : Method) (master salt : List ℕ) (start next : Crypto)
    (bufs : List (List ℕ)) (frames : List ℕ) (inner : List Arrival) (room fuel : ℕ)
    → IsPrimitives P
    → length salt ≡ salt_len m
    → new P m (session_subkey P m master salt) ≡ ok start
    → All IsChunk bufs
    → seal_chunks P start bufs ≡ ok (frames, next)
    → join inner ≡ salt ++ frames
    → IsGood inner
    → 1 ≤ room
    → length (concat bufs) + waits inner < fuel
    → drain P room fuel (new_reader inner m master) ≡ some (ok (concat bufs))
unfolding new_reader
drain-seal_chunks P m master salt start next bufs frames inner room fuel laws sized made chunks
      sealed cut good least enough =
    let key = session_subkey-length P laws m master salt in
    let first = new-started P laws m (session_subkey P m master salt) key in
    let same : started m (session_subkey P m master salt) ≡ start =
      ok-injective (sym first ∙ made) in
    let fit : IsReady start = subst (λ c. IsReady c) same (key ∙ sym (key_size-cipher m), refl) in
    let (frames', d, sealed', encodes) = seal_chunks-Encodes P laws start bufs fit chunks in
    let frames_same : frames' ≡ frames =
      ap (λ (x : List ℕ × Crypto). x.0) (ok-injective (sym sealed' ∙ sealed)) in
    drain-Stands P room least fuel (new_reader inner m master) (concat bufs)
      (record {
        chs = bufs;
        bytes = (
          salt,
          start,
          frames,
          sized,
          made,
          cut,
          subst (λ b. Encodes P start bufs b) frames_same encodes,
        );
        good = good;
        short = omega arith;
        position = omega arith;
        whole = refl;
      })
      enough
