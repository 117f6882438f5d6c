-- ===== src/Shadowsocks/Stream/Writer/Sent.antt =====
-- No byte is lost, doubled or put elsewhere, however the stream below takes them.
use mathlib.Core.List.{append_assoc}
use mathlib.Core.Path.{subst}
use jamm_vpn.Base.{
  ℕ, zero, suc, ◌+◌, ◌-◌, ◌/◌, ◌%◌, ◌^◌, ◌≤◌, ◌≡◌, ◌⊎◌, refl, sym, ◌∙◌, ap, inl, inr, Bool, false,
  Option, some, List, [], ◌∷◌, ◌++◌, ltb, ◌==◌, arith, length, take, drop, min, Bool-cases,
  length-append, length-drop, take-append-drop,
}
use jamm_vpn.Error.{ok, err, Result-cases}
use jamm_vpn.Shadowsocks.Crypto.{SsError, Primitives, Crypto, seal}
use jamm_vpn.Shadowsocks.Stream.{max_chunk, Poll, pending, ready, first_write, seal_chunk}
use jamm_vpn.Shadowsocks.Stream.Standing.{drop-drop}
use jamm_vpn.Shadowsocks.Stream.Steps.{drop_everything}
use jamm_vpn.Shadowsocks.Stream.Writer.{
  Answer, takes, stalls, fails, Writer, wrote, cleared, flush_loop, flush_wbuf, after_write,
  write_chunk, after_flush, poll_write,
}

-- What was taken below and what still waits.
abbrev pub sent : Writer → List ℕ
sent w = w.written ++ drop w.wpos w.wbuf

-- Only the place between written and waiting bytes changed.
pub record Flushed (w v : Writer) : Type 0 where
  pub same : sent v ≡ sent w
  pub send : v.send ≡ w.send
  pub method : v.method ≡ w.method
  pub master : v.master ≡ w.master
  pub within : v.wpos ≤ length v.wbuf

drop_some : (n : ℕ) (xs : List ℕ) → drop (min n (length xs)) xs ≡ drop n xs
drop_some n xs = elim (Bool-cases (ltb n (length xs))) [
  | inl short ↦ ap (λ k. drop k xs) (ground (arith, short))
  | inr long ↦
      drop_everything (min n (length xs)) xs (ground (arith, long))
      ∙ sym (drop_everything n xs (ground (arith, long)))
]

wrote-Flushed : (n : ℕ) (w : Writer) → w.wpos ≤ length w.wbuf → Flushed w (wrote n w)
wrote-Flushed n w within =
    let waiting = drop w.wpos w.wbuf in
    let next : drop (w.wpos + min n (length w.wbuf - w.wpos)) w.wbuf ≡ drop n waiting =
      sym (drop-drop w.wpos (min n (length w.wbuf - w.wpos)) w.wbuf)
      ∙ ap (λ k. drop (min n k) waiting) (sym (length-drop w.wpos w.wbuf))
      ∙ drop_some n waiting in
    record {
      same =
          append_assoc w.written (take n waiting)
            (drop (w.wpos + min n (length w.wbuf - w.wpos)) w.wbuf)
          ∙ ap (λ t. w.written ++ (take n waiting ++ t)) next
          ∙ ap (λ t. w.written ++ t) (take-append-drop n waiting);
      send = refl;
      method = refl;
      master = refl;
      within = omega (arith, within);
    }

Flushed-trans : (u v w : Writer) → Flushed u v → Flushed v w → Flushed u w
Flushed-trans u v w a b = record {
  same = b.same ∙ a.same;
  send = b.send ∙ a.send;
  method = b.method ∙ a.method;
  master = b.master ∙ a.master;
  within = b.within;
}

module _ (w : Writer) (within : w.wpos ≤ length w.wbuf) (below : List Answer) where
  kept-Flushed : Flushed w (record w { below = below })
  kept-Flushed = record { same = refl; send = refl; method = refl; master = refl; within = within }

  cleared-Flushed : ltb w.wpos (length w.wbuf) ≡ false → Flushed w (cleared below w)
  cleared-Flushed all = record {
    same = ap (λ t. w.written ++ t) (sym (drop_everything w.wpos w.wbuf (ground (arith, all))));
    send = refl;
    method = refl;
    master = refl;
    within = omega arith;
  }

flush_loop-Flushed :
    (below : List Answer) (w : Writer) → w.wpos ≤ length w.wbuf → Flushed w (flush_loop below w).1
unfolding flush_loop
flush_loop-Flushed [] w within = elim (Bool-cases (ltb w.wpos (length w.wbuf))) [
  | inl more ↦ rw more (kept-Flushed w within [])
  | inr all ↦ rw all (cleared-Flushed w within [] all)
]
flush_loop-Flushed (stalls ∷ below) w within = elim (Bool-cases (ltb w.wpos (length w.wbuf))) [
  | inl more ↦ rw more (kept-Flushed w within below)
  | inr all ↦ rw all (cleared-Flushed w within (stalls ∷ below) all)
]
flush_loop-Flushed (fails ∷ below) w within = elim (Bool-cases (ltb w.wpos (length w.wbuf))) [
  | inl more ↦ rw more (kept-Flushed w within below)
  | inr all ↦ rw all (cleared-Flushed w within (fails ∷ below) all)
]
flush_loop-Flushed (takes n ∷ below) w within = elim (Bool-cases (ltb w.wpos (length w.wbuf))) [
  | inr all ↦ rw all (cleared-Flushed w within (takes n ∷ below) all)
  | inl more ↦ elim (Bool-cases (n == 0)) [
    | inl nothing ↦ rw (more, nothing) (kept-Flushed w within below)
    | inr some_bytes ↦
        let here = wrote-Flushed n w within in
        rw (more, some_bytes)
          (Flushed-trans w (wrote n w) (flush_loop below (wrote n w)).1 here
            (flush_loop-Flushed below (wrote n w) here.within))
  ]
]

flush_wbuf-Flushed : (w : Writer) → w.wpos ≤ length w.wbuf → Flushed w (flush_wbuf w).1
unfolding flush_wbuf
flush_wbuf-Flushed w within = flush_loop-Flushed w.below w within

drop_within : (n : ℕ) (xs ys : List ℕ) → n ≤ length xs → drop n (xs ++ ys) ≡ drop n xs ++ ys
drop_within zero xs ys h = refl
drop_within (suc n) [] ys h = absurd (omega (arith, h))
drop_within (suc n) (x ∷ xs) ys h = drop_within n xs ys (omega (arith, h))

-- Bytes behind those that wait.
abbrev queued : List ℕ → Crypto → Writer → Writer
queued bs send w = record w { send = some send; wbuf = w.wbuf ++ bs }

queued_sent :
    (bs : List ℕ) (send : Crypto) (w : Writer)
    → w.wpos ≤ length w.wbuf
    → sent (queued bs send w) ≡ sent w ++ bs
queued_sent bs send w within =
    ap (λ t. w.written ++ t) (drop_within w.wpos w.wbuf bs within)
    ∙ sym (append_assoc w.written (drop w.wpos w.wbuf) bs)

queued_within :
    (bs : List ℕ) (send : Crypto) (w : Writer)
    → w.wpos ≤ length w.wbuf
    → w.wpos ≤ length (w.wbuf ++ bs)
queued_within bs send w within = omega (arith, within, length-append w.wbuf bs)

-- A call that took `n` bytes put the salt, if it was the first, and the sealed chunk behind the rest.
pub record Wrote (P : Primitives) (salt : Option (List ℕ)) (buf : List ℕ) (w : Writer) (n : ℕ)
    (v : Writer) : Type 0 where
  pub salt_bytes : List ℕ
  pub frame : List ℕ
  pub send : Crypto
  pub next : Crypto
  pub first : first_write P w.method w.master salt w.send ≡ ok (salt_bytes, send)
  pub sealed : seal_chunk P send buf ≡ ok (frame, next)
  pub count : n ≡ min (length buf) max_chunk
  pub least : 1 ≤ length buf
  pub same : sent v ≡ sent w ++ (salt_bytes ++ frame)
  pub keeps : v.send ≡ some next
  pub method : v.method ≡ w.method
  pub master : v.master ≡ w.master
  pub within : v.wpos ≤ length v.wbuf

-- A call waits, fails, or takes bytes.
abbrev pub WriteStep : Primitives → Option (List ℕ) → List ℕ → Writer → Poll ℕ × Writer → Type 0
WriteStep P salt buf w (p, v) =
    ((p ≡ pending) × Flushed w v)
    ⊎ (((e : SsError) × (p ≡ ready (err e)))
        ⊎ (((length buf ≡ 0) × (p ≡ ready (ok 0)) × Flushed w v)
            ⊎ ((n : ℕ) × (p ≡ ready (ok n)) × Wrote P salt buf w n v)))

after_write-cases :
    (n : ℕ) (p : Poll Bool) (v : Writer)
    → ((e : SsError) × ((after_write n (p, v)).0 ≡ ready (err e)))
      ⊎ (((after_write n (p, v)).0 ≡ ready (ok n)) × ((after_write n (p, v)).1 ≡ v))
after_write-cases n pending v = inr (refl, refl)
after_write-cases n (ready (err e)) v = inl (e, refl)
after_write-cases n (ready (ok b)) v = inr (refl, refl)

module _ (P : Primitives) (salt : Option (List ℕ)) (buf : List ℕ) (w w1 : Writer) (f : Flushed w w1)
    (some_bytes : 1 ≤ length buf) where
  abbrev count : ℕ
  count = min (length buf) max_chunk

  abbrev len_bytes : List ℕ
  len_bytes = (count / 2 ^ 8) % 256 ∷ count % 256 ∷ []

  write_chunk-WriteStep :
      (salt_bytes : List ℕ) (send : Crypto)
      → first_write P w.method w.master salt w.send ≡ ok (salt_bytes, send)
      → WriteStep P salt buf w (write_chunk P buf (queued salt_bytes send w1) send)
  unfolding seal_chunk
  write_chunk-WriteStep salt_bytes send first = elim (Result-cases (seal P send len_bytes)) [
    | inr (e, failed) ↦ rw failed (inr (inl (e, refl)))
    | inl ((len_ct, middle), sealed_len) ↦ elim (Result-cases (seal P middle (take count buf))) [
      | inr (e, failed) ↦ rw (sealed_len, failed) (inr (inl (e, refl)))
      | inl ((data_ct, next), sealed) ↦
          let w2 = queued salt_bytes send w1 in
          let w3 = queued len_ct middle w2 in
          let w4 = queued data_ct next w3 in
          let within2 = queued_within salt_bytes send w1 f.within in
          let within3 = queued_within len_ct middle w2 within2 in
          let within4 = queued_within data_ct next w3 within3 in
          let flushed = flush_wbuf-Flushed w4 within4 in
          let frame : seal_chunk P send buf ≡ ok (len_ct ++ data_ct, next) =
            rw (sealed_len, sealed) refl in
          let all : sent w4 ≡ sent w ++ (salt_bytes ++ (len_ct ++ data_ct)) =
            queued_sent data_ct next w3 within3
            ∙ ap (λ t. t ++ data_ct) (queued_sent len_ct middle w2 within2)
            ∙ ap (λ t. (t ++ len_ct) ++ data_ct) (queued_sent salt_bytes send w1 f.within)
            ∙ ap (λ t. ((t ++ salt_bytes) ++ len_ct) ++ data_ct) f.same
            ∙ ap (λ t. t ++ data_ct) (append_assoc (sent w) salt_bytes len_ct)
            ∙ append_assoc (sent w) (salt_bytes ++ len_ct) data_ct
            ∙ ap (λ t. sent w ++ t) (append_assoc salt_bytes len_ct data_ct) in
          rw (sealed_len, sealed)
            (elim (after_write-cases count (flush_wbuf w4).0 (flush_wbuf w4).1) [
              | inl (e, failed) ↦ inr (inl (e, failed))
              | inr (done, state) ↦ inr (
                  inr (
                    inr (
                      count,
                      done,
                      subst (λ v. Wrote P salt buf w count v) (sym state)
                          (record {
                            salt_bytes = salt_bytes;
                            frame = len_ct ++ data_ct;
                            send = send;
                            next = next;
                            first = first;
                            sealed = frame;
                            count = refl;
                            least = some_bytes;
                            same = flushed.same ∙ all;
                            keeps = flushed.send;
                            method = flushed.method ∙ f.method;
                            master = flushed.master ∙ f.master;
                            within = flushed.within;
                          }),
                    )))
            ])
    ]
  ]

after_flush-WriteStep :
    (P : Primitives) (salt : Option (List ℕ)) (buf : List ℕ) (w : Writer) (p : Poll Bool)
    (w1 : Writer)
    → Flushed w w1
    → WriteStep P salt buf w (after_flush P salt buf (p, w1))
after_flush-WriteStep P salt buf w pending w1 f = inl (refl, f)
after_flush-WriteStep P salt buf w (ready (err e)) w1 f = inr (inl (e, refl))
after_flush-WriteStep P salt buf w (ready (ok b)) w1 f = elim (Bool-cases (length buf == 0)) [
  | inl empty ↦ rw empty (inr (inr (inl (ground (arith, empty), refl, f))))
  | inr some_bytes ↦
      let call = first_write P w1.method w1.master salt w1.send in
      let same : call ≡ first_write P w.method w.master salt w.send =
        ap (λ m. first_write P m w1.master salt w1.send) f.method
        ∙ ap (λ k. first_write P w.method k salt w1.send) f.master
        ∙ ap (λ s. first_write P w.method w.master salt s) f.send in
      rw some_bytes (elim (Result-cases call) [
        | inr (e, failed) ↦ rw failed (inr (inl (e, refl)))
        | inl ((salt_bytes, send), made) ↦ rw made (
            write_chunk-WriteStep P salt buf w w1 f (ground (arith, some_bytes)) salt_bytes send
              (sym same ∙ made))
      ])
]

-- Whatever the stream below does, a call of `poll_write` waits and loses nothing, or fails, or has
-- taken no byte of an empty buffer, or has taken the front of the buffer and put its sealed chunk,
-- behind the salt if it is the first, behind all that was sent.
pub poll_write-WriteStep :
    (P : Primitives) (salt : Option (List ℕ)) (buf : List ℕ) (w : Writer)
    → w.wpos ≤ length w.wbuf
    → WriteStep P salt buf w (poll_write P salt buf w)
unfolding poll_write
poll_write-WriteStep P salt buf w within =
    after_flush-WriteStep P salt buf w (flush_wbuf w).0 (flush_wbuf w).1
      (flush_wbuf-Flushed w within)
