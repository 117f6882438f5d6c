-- ===== src/Shadowsocks/Stream/Writer/Piped.antt =====
-- All that a writer sent is a salt and the sealed chunks that it took.
use mathlib.Core.List.{append_assoc, append-nil}
use mathlib.Core.Path.{subst}
use jamm_vpn.Base.{
  ℕ, ◌/◌, ◌%◌, ◌^◌, ◌≤◌, ◌≡◌, ◌⊎◌, refl, sym, ◌∙◌, ap, inl, inr, Option, none, some, List, [], ◌∷◌,
  ◌++◌, arith, length, take, min, All, All-append, length-take,
}
use jamm_vpn.Error.{Result, ok, ◌>>=◌, ok-injective, ok≢err, bind_ok}
use jamm_vpn.Shadowsocks.Crypto.{
  SsError, Primitives, Method, salt_len, session_subkey, Crypto, new, seal,
}
use jamm_vpn.Shadowsocks.Stream.{max_chunk, first_write, seal_chunk}
use jamm_vpn.Shadowsocks.Stream.Fill.{take_everything}
use jamm_vpn.Shadowsocks.Stream.Drain.{seal_chunks, IsChunk}
use jamm_vpn.Shadowsocks.Stream.Writer.{Writer}
use jamm_vpn.Shadowsocks.Stream.Writer.Sent.{sent, Flushed, Wrote}

-- Nothing was sent, or the salt and the sealed chunks were.
pub record Started (P : Primitives) (m : Method) (master : List ℕ) (w : Writer)
    (taken : List (List ℕ)) : Type 0 where
  pub salt : List ℕ
  pub start : Crypto
  pub frames : List ℕ
  pub next : Crypto
  pub sized : length salt ≡ salt_len m
  pub made : new P m (session_subkey P m master salt) ≡ ok start
  pub sealed : seal_chunks P start taken ≡ ok (frames, next)
  pub holds : w.send ≡ some next
  pub all : sent w ≡ salt ++ frames

pub record Piped (P : Primitives) (m : Method) (master : List ℕ) (w : Writer)
    (taken : List (List ℕ)) : Type 0 where
  pub within : w.wpos ≤ length w.wbuf
  pub method : w.method ≡ m
  pub master_key : w.master ≡ master
  pub chunks : All IsChunk taken
  pub bytes : ((w.send ≡ none) × (taken ≡ []) × (sent w ≡ [])) ⊎ Started P m master w taken

-- The frames of chunks behind a frame.
abbrev frames_behind :
    Primitives → List (List ℕ) → List ℕ × Crypto → Result SsError (List ℕ × Crypto)
frames_behind P bufs (frame, send) = do
  (frames, send) ← seal_chunks P send bufs
  ok (frame ++ frames, send)

-- One more chunk at the end.
seal_chunks_snoc :
    (P : Primitives) (start : Crypto) (bufs : List (List ℕ)) (frames : List ℕ) (c : Crypto)
    (buf frame : List ℕ) (d : Crypto)
    → seal_chunks P start bufs ≡ ok (frames, c)
    → seal_chunk P c buf ≡ ok (frame, d)
    → seal_chunks P start (bufs ++ (buf ∷ [])) ≡ ok (frames ++ frame, d)
seal_chunks_snoc P start [] frames c buf frame d sealed one =
    let same = ok-injective sealed in
    let here : seal_chunk P start buf ≡ ok (frame, d) =
      ap (λ (x : List ℕ × Crypto). seal_chunk P x.1 buf) same ∙ one in
    rw here
      (ap (λ t. ok (t, d)) (append-nil frame ∙ ap (λ (x : List ℕ × Crypto). x.0 ++ frame) same))
seal_chunks_snoc P start (b ∷ bufs) frames c buf frame d sealed one =
    let ((f, c1), first, rest) = bind_ok (seal_chunk P start b) (frames_behind P bufs) sealed in
    let ((fs, c2), others, same) =
      bind_ok (seal_chunks P c1 bufs) (λ (x : List ℕ × Crypto). ok (f ++ x.0, x.1)) rest in
    let equal = ok-injective same in
    let again =
      seal_chunks_snoc P c1 bufs fs c2 buf frame d others
        (ap (λ (x : List ℕ × Crypto). seal_chunk P x.1 buf) equal ∙ one) in
    rw (first, again)
      (ap (λ t. ok (t, d))
        (sym (append_assoc f fs frame) ∙ ap (λ (x : List ℕ × Crypto). x.0 ++ frame) equal))

-- What is sealed of a chunk.
abbrev seal_parts : Primitives → Crypto → ℕ → List ℕ → Result SsError (List ℕ × Crypto)
seal_parts P send n t = do
  (len, send) ← seal P send ((n / 2 ^ 8) % 256 ∷ n % 256 ∷ [])
  (data_ct, send) ← seal P send t
  ok (len ++ data_ct, send)

-- The chunk is the front of the buffer.
seal_chunk_front :
    (P : Primitives) (c : Crypto) (buf : List ℕ)
    → seal_chunk P c (take (min (length buf) max_chunk) buf) ≡ seal_chunk P c buf
unfolding seal_chunk
seal_chunk_front P c buf =
    let n = min (length buf) max_chunk in
    let count : min (length (take n buf)) max_chunk ≡ n = omega (arith, length-take n buf) in
    let front : take (min (length (take n buf)) max_chunk) (take n buf) ≡ take n buf =
      ap (λ k. take k (take n buf)) count
      ∙ take_everything n (take n buf) (omega (arith, length-take n buf)) in
    ap (λ k. seal_parts P c k (take (min (length (take n buf)) max_chunk) (take n buf))) count
    ∙ ap (seal_parts P c n) front

-- The generator gives as many bytes as the salt has, or fails.
abbrev pub IsSalt : Method → Option (List ℕ) → Type 0
IsSalt m none = Unit
IsSalt m (some s) = length s ≡ salt_len m

first_none :
    (P : Primitives) (m : Method) (master : List ℕ) (salt : Option (List ℕ)) (bs : List ℕ)
    (c : Crypto)
    → IsSalt m salt
    → first_write P m master salt none ≡ ok (bs, c)
    → (length bs ≡ salt_len m) × (new P m (session_subkey P m master bs) ≡ ok c)
unfolding first_write
first_none P m master none bs c sized e = absurd (ok≢err e)
first_none P m master (some s) bs c sized e =
    let (d, made, same) =
      bind_ok (new P m (session_subkey P m master s)) (λ (x : Crypto). ok (s, x)) e in
    subst
      (λ (x : List ℕ × Crypto).
        (length x.0 ≡ salt_len m) × (new P m (session_subkey P m master x.0) ≡ ok x.1))
      (ok-injective same) (sized, made)

first_some :
    (P : Primitives) (m : Method) (master : List ℕ) (salt : Option (List ℕ)) (send : Option Crypto)
    (held : Crypto) (bs : List ℕ) (c : Crypto)
    → send ≡ some held
    → first_write P m master salt send ≡ ok (bs, c)
    → ◌≡◌ {A = List ℕ × Crypto} ([], held) (bs, c)
unfolding first_write
first_some P m master salt send held bs c is e =
    ok-injective (sym (ap (first_write P m master salt) is) ∙ e)

module _ (P : Primitives) (m : Method) (master : List ℕ) where
  pub Flushed-Piped :
      (w v : Writer) (taken : List (List ℕ))
      → Piped P m master w taken
      → Flushed w v
      → Piped P m master v taken
  Flushed-Piped w v taken s f = record {
    within = f.within;
    method = f.method ∙ s.method;
    master_key = f.master ∙ s.master_key;
    chunks = s.chunks;
    bytes = elim s.bytes [
      | inl (idle, nothing, unsent) ↦ inl (f.send ∙ idle, nothing, f.same ∙ unsent)
      | inr q ↦ inr (record {
        salt = q.salt;
        start = q.start;
        frames = q.frames;
        next = q.next;
        sized = q.sized;
        made = q.made;
        sealed = q.sealed;
        holds = f.send ∙ q.holds;
        all = f.same ∙ q.all;
      })
    ];
  }

  wrote-Started :
      (salt : Option (List ℕ)) (buf : List ℕ) (w v : Writer) (n : ℕ) (taken : List (List ℕ))
      → IsSalt m salt
      → Piped P m master w taken
      → Wrote P salt buf w n v
      → Started P m master v (taken ++ (take n buf ∷ []))
  wrote-Started salt buf w v n taken sized s q =
      let call : first_write P m master salt w.send ≡ ok (q.salt_bytes, q.send) =
        sym (
          ap (λ k. first_write P k w.master salt w.send) s.method
          ∙ ap (λ k. first_write P m k salt w.send) s.master_key)
        ∙ q.first in
      let one : seal_chunk P q.send (take n buf) ≡ ok (q.frame, q.next) =
        ap (λ k. seal_chunk P q.send (take k buf)) q.count
        ∙ seal_chunk_front P q.send buf
        ∙ q.sealed in
      elim s.bytes [
        | inl (idle, nothing, unsent) ↦
            let (len, made) =
              first_none P m master salt q.salt_bytes q.send sized
                (sym (ap (first_write P m master salt) idle) ∙ call) in
            record {
              salt = q.salt_bytes;
              start = q.send;
              frames = q.frame;
              next = q.next;
              sized = len;
              made = made;
              sealed =
                  ap (λ t. seal_chunks P q.send (t ++ (take n buf ∷ []))) nothing
                  ∙ seal_chunks_snoc P q.send [] [] q.send (take n buf) q.frame q.next refl one;
              holds = q.keeps;
              all = q.same ∙ ap (λ t. t ++ (q.salt_bytes ++ q.frame)) unsent;
            }
        | inr k ↦
            let equal = first_some P m master salt w.send k.next q.salt_bytes q.send k.holds call in
            record {
              salt = k.salt;
              start = k.start;
              frames = k.frames ++ q.frame;
              next = q.next;
              sized = k.sized;
              made = k.made;
              sealed =
                  seal_chunks_snoc P k.start taken k.frames k.next (take n buf) q.frame q.next
                    k.sealed
                    (ap (λ (x : List ℕ × Crypto). seal_chunk P x.1 (take n buf)) equal ∙ one);
              holds = q.keeps;
              all =
                  q.same
                  ∙ ap (λ t. t ++ (q.salt_bytes ++ q.frame)) k.all
                  ∙ ap (λ (x : List ℕ × Crypto). (k.salt ++ k.frames) ++ (x.0 ++ q.frame))
                      (sym equal)
                  ∙ append_assoc k.salt k.frames q.frame;
            }
      ]

  pub Wrote-Piped :
      (salt : Option (List ℕ)) (buf : List ℕ) (w v : Writer) (n : ℕ) (taken : List (List ℕ))
      → IsSalt m salt
      → Piped P m master w taken
      → Wrote P salt buf w n v
      → Piped P m master v (taken ++ (take n buf ∷ []))
  Wrote-Piped salt buf w v n taken sized s q =
      let len = length-take n buf in
      record {
        within = q.within;
        method = q.method ∙ s.method;
        master_key = q.master ∙ s.master_key;
        chunks =
            All-append IsChunk taken (take n buf ∷ []) s.chunks
              ((omega (arith, len, q.count, q.least), omega (arith, len, q.count)), tt);
        bytes = inr (wrote-Started salt buf w v n taken sized s q);
      }
