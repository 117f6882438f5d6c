-- ===== src/Shadowsocks/Stream/Steps.antt =====
-- Every poll of a reader is a step of the text that it stands for.
use mathlib.Core.Path.{subst}
use jamm_vpn.Base.{
  ℕ, zero, suc, ◌+◌, ◌*◌, ◌/◌, ◌%◌, ◌^◌, ◌≤◌, ◌≡◌, refl, sym, ◌∙◌, ap, inl, inr, false, ◌||◌, some,
  List, [], ◌∷◌, ◌++◌, ltb, ◌==◌, arith, length, take, drop, Bool-cases, length-append, take_front,
  drop_front, take-append, drop-append,
}
use jamm_vpn.Error.{ok}
use jamm_vpn.Shadowsocks.Crypto.{Primitives, salt_len, session_subkey, Crypto, new, open_sealed}
use jamm_vpn.Shadowsocks.Stream.{
  max_chunk, tag_len, ReadStage, at_salt, at_len, at_data, pending, ready, Reader, Filled, fill,
  deliver, data_opened, data_frame, after_data, on_data, len_checked, len_opened, len_frame,
  after_len, on_len, salted, after_salt, on_salt, on_stage, poll_read,
}
use jamm_vpn.Shadowsocks.Stream.Fill.{join, waits, IsGood, Waiting, fill-Outcome}
use jamm_vpn.Shadowsocks.Stream.Standing.{
  Encodes, At, need, concat, Stands, Waits, Delivers, Step, deliver-Step, drop_nothing,
}

split_front :
    (xs ys us vs : List ℕ) → xs ++ ys ≡ us ++ vs → length xs ≡ length us → (xs ≡ us) × (ys ≡ vs)
split_front xs ys us vs e len = (
  sym (take-append xs ys) ∙ ap (take (length xs)) e ∙ take_front (length xs) us vs (sym len),
  sym (drop-append xs ys) ∙ ap (drop (length xs)) e ∙ drop_front (length xs) us vs (sym len),
)

-- The reader behind a poll that waits.
module _ (P : Primitives) (r : Reader) (st : ReadStage) (chs : List (List ℕ)) (text : List ℕ)
    (w : ℕ) (stage : r.stage ≡ st) (within : r.ppos ≤ length r.plain)
    (gone : drop r.ppos r.plain ≡ []) (whole : text ≡ concat chs) where
  waited :
      (f : Filled) (q : Waiting (need r.method st) r.rtmp r.inner f)
      → At P r.method r.master st r.recv chs (r.rtmp ++ join r.inner)
      → waits r.inner ≤ w
      → Waits P text w pending (record r { rtmp = q.rtmp'; inner = q.inner' })
  waited f q at fewer = record {
    result = refl;
    stands = record {
      chs = chs;
      bytes =
          subst (λ s. At P r.method r.master s r.recv chs (q.rtmp' ++ join q.inner')) (sym stage)
            (subst (λ b. At P r.method r.master st r.recv chs b) (sym q.kept.same) at);
      good = q.kept.good;
      short = subst (λ s. length q.rtmp' ≤ need r.method s) (sym stage) (omega (arith, q.short));
      position = within;
      whole = whole ∙ ap (λ t. t ++ concat chs) (sym gone);
    };
    fewer = omega (arith, q.fewer, fewer);
  }

-- Behind the length of a chunk.
on_data-Step :
    (P : Primitives) (room : ℕ) (r : Reader) (len : ℕ) (chs : List (List ℕ)) (text : List ℕ) (w : ℕ)
    → 1 ≤ room
    → r.stage ≡ at_data len
    → r.ppos ≤ length r.plain
    → drop r.ppos r.plain ≡ []
    → text ≡ concat chs
    → At P r.method r.master (at_data len) r.recv chs (r.rtmp ++ join r.inner)
    → IsGood r.inner
    → length r.rtmp ≤ len + tag_len
    → waits r.inner ≤ w
    → Step P text w (on_data P room len r)
unfolding on_data
on_data-Step P room r len chs text w least stage within gone whole (c, ch, chs', recv, same, d) good
      short fewer =
    let f = fill (len + tag_len) (len + tag_len) r.rtmp r.inner in
    elim (fill-Outcome (len + tag_len) (len + tag_len) r.rtmp r.inner (omega arith) short good) [
      | inl q ↦
          subst (λ f. Step P text w (after_data P room r f)) (sym q.result)
            (inl (
              waited P r (at_data len) chs text w stage within gone whole f q
                (c, ch, chs', recv, same, d) fewer))
      | inr (inl q) ↦
          let (frame, behind) =
            split_front q.rtmp' (join q.inner') d.data_ct d.rest (q.kept.same ∙ d.parts)
              (q.exact ∙ sym d.sized) in
          let r2 = record r {
            rtmp = [];
            inner = q.inner';
            recv = some d.after;
            plain = ch;
            ppos = 0;
            stage = at_len;
          } in
          let stands : Stands P r2 (ch ++ concat chs') = record {
            chs = chs';
            bytes = (d.after, refl, subst (λ b. Encodes P d.after chs' b) (sym behind) d.later);
            good = q.kept.good;
            short = omega arith;
            position = omega arith;
            whole = refl;
          } in
          let delivered =
            deliver-Step P room r2 (ch ++ concat chs') w stands least (omega (arith, d.least))
              (omega (arith, q.fewer, fewer)) in
          let text_here : text ≡ ch ++ concat chs' = whole ∙ ap concat same in
          subst (λ f. Step P text w (after_data P room r f)) (sym q.result)
            (subst
              (λ v.
                Step P text w
                  (data_frame P room (record r { rtmp = []; inner = q.inner' }) v q.rtmp'))
              (sym recv)
              (subst
                (λ o. Step P text w (data_opened room (record r { rtmp = []; inner = q.inner' }) o))
                (sym (ap (open_sealed P c) frame ∙ d.opened))
                (subst (λ t. Step P t w (deliver room r2)) (sym text_here) delivered)))
      | inr (inr q) ↦
          absurd
            (omega (arith, q.short, ap length d.parts, length-append d.data_ct d.rest, d.sized))
    ]

-- The number in the two bytes of a chunk's length.
len_value : (n : ℕ) → n ≤ max_chunk → (n / 2 ^ 8) % 256 * 2 ^ 8 + n % 256 ≡ n
len_value n h = omega (arith, h)

-- The bytes below ended between two chunks, and there are no more.
ended_Delivers :
    (P : Primitives) (r : Reader) (c : Crypto) (text : List ℕ) (w : ℕ)
    → r.stage ≡ at_len
    → r.recv ≡ some c
    → r.ppos ≤ length r.plain
    → drop r.ppos r.plain ≡ []
    → text ≡ []
    → Delivers P text w (ready (ok [])) (record r { rtmp = []; inner = [] })
ended_Delivers P r c text w stage recv within gone whole = record {
  front = [];
  rest = [];
  result = refl;
  parts = whole;
  stands = record {
    chs = [];
    bytes = subst (λ s. At P r.method r.master s r.recv [] []) (sym stage) (c, recv, refl);
    good = tt;
    short = omega arith;
    position = within;
    whole = ap (λ t. t ++ []) (sym gone);
  };
  progress = inr whole;
  fewer = omega arith;
}

on_len-Step :
    (P : Primitives) (room : ℕ) (r : Reader) (chs : List (List ℕ)) (text : List ℕ) (w : ℕ)
    → 1 ≤ room
    → r.stage ≡ at_len
    → r.ppos ≤ length r.plain
    → drop r.ppos r.plain ≡ []
    → text ≡ concat chs
    → At P r.method r.master at_len r.recv chs (r.rtmp ++ join r.inner)
    → IsGood r.inner
    → length r.rtmp ≤ 2 + tag_len
    → waits r.inner ≤ w
    → Step P text w (on_len P room r)
unfolding on_len
on_len-Step P room r [] text w least stage within gone whole (c, recv, enc) good short fewer =
    let f = fill (2 + tag_len) (2 + tag_len) r.rtmp r.inner in
    elim (fill-Outcome (2 + tag_len) (2 + tag_len) r.rtmp r.inner (omega arith) short good) [
      | inl q ↦
          subst (λ f. Step P text w (after_len P room r f)) (sym q.result)
            (inl (waited P r at_len [] text w stage within gone whole f q (c, recv, enc) fewer))
      | inr (inl q) ↦ absurd (
          omega
            (arith, q.exact, ap length (q.kept.same ∙ enc), length-append q.rtmp' (join q.inner')))
      | inr (inr q) ↦ elim q.result [
        | inl (_, result) ↦
            subst (λ f. Step P text w (after_len P room r f)) (sym result)
              (inr (ended_Delivers P r c text w stage recv within gone whole))
        | inr long ↦ absurd (omega (arith, long, ap length enc))
      ]
    ]
on_len-Step P room r (ch ∷ chs) text w least stage within gone whole (c, recv, enc) good short
      fewer =
    let f = fill (2 + tag_len) (2 + tag_len) r.rtmp r.inner in
    elim (fill-Outcome (2 + tag_len) (2 + tag_len) r.rtmp r.inner (omega arith) short good) [
      | inl q ↦
          subst (λ f. Step P text w (after_len P room r f)) (sym q.result)
            (inl (
              waited P r at_len (ch ∷ chs) text w stage within gone whole f q (c, recv, enc) fewer))
      | inr (inl q) ↦
          let (frame, behind) =
            split_front q.rtmp' (join q.inner') enc.len_ct (enc.data_ct ++ enc.rest)
              (q.kept.same ∙ enc.parts) (q.exact ∙ sym enc.sized_len) in
          let r1 = record r { rtmp = []; inner = q.inner' } in
          let r2 = record r1 { recv = some enc.middle; stage = at_data (length ch) } in
          let allowed : (length ch == 0 || ltb max_chunk (length ch)) ≡ false =
            ground (arith, enc.least, enc.most) in
          let next : Step P text w (on_data P room (length ch) r2) =
            on_data-Step P room r2 (length ch) (ch ∷ chs) text w least refl within gone whole
              (
                enc.middle,
                ch,
                chs,
                refl,
                refl,
                record {
                  data_ct = enc.data_ct;
                  rest = enc.rest;
                  after = enc.after;
                  opened = enc.opened;
                  counted = refl;
                  sized = enc.sized;
                  least = enc.least;
                  parts = behind;
                  later = enc.later;
                },
              )
              q.kept.good (omega arith) (omega (arith, q.fewer, fewer)) in
          let checked : Step P text w (len_checked P room r1 enc.middle (length ch)) =
            rw allowed next in
          subst (λ f. Step P text w (after_len P room r f)) (sym q.result)
            (subst (λ v. Step P text w (len_frame P room r1 v q.rtmp')) (sym recv)
              (subst (λ o. Step P text w (len_opened P room r1 o))
                (sym (ap (open_sealed P c) frame ∙ enc.opened_len))
                (subst (λ n. Step P text w (len_checked P room r1 enc.middle n))
                  (sym (len_value (length ch) enc.most)) checked)))
      | inr (inr q) ↦ absurd (
          omega (
            arith,
            q.short,
            ap length enc.parts,
            length-append enc.len_ct (enc.data_ct ++ enc.rest),
            enc.sized_len,
          ))
    ]

on_salt-Step :
    (P : Primitives) (room : ℕ) (r : Reader) (chs : List (List ℕ)) (text : List ℕ) (w : ℕ)
    → 1 ≤ room
    → r.stage ≡ at_salt
    → r.ppos ≤ length r.plain
    → drop r.ppos r.plain ≡ []
    → text ≡ concat chs
    → At P r.method r.master at_salt r.recv chs (r.rtmp ++ join r.inner)
    → IsGood r.inner
    → length r.rtmp ≤ salt_len r.method
    → waits r.inner ≤ w
    → Step P text w (on_salt P room r)
unfolding on_salt
on_salt-Step P room r chs text w least stage within gone whole
      (salt, c, bs, sized, made, parts, enc) good short fewer =
    let f = fill (salt_len r.method) (salt_len r.method) r.rtmp r.inner in
    elim (fill-Outcome (salt_len r.method) (salt_len r.method) r.rtmp r.inner (omega arith) short
      good) [
        | inl q ↦
            subst (λ f. Step P text w (after_salt P room r f)) (sym q.result)
              (inl (
                waited P r at_salt chs text w stage within gone whole f q
                  (salt, c, bs, sized, made, parts, enc) fewer))
        | inr (inl q) ↦
            let (frame, behind) =
              split_front q.rtmp' (join q.inner') salt bs (q.kept.same ∙ parts)
                (q.exact ∙ sym sized) in
            let r1 = record r { rtmp = []; inner = q.inner' } in
            let r2 = record r1 { recv = some c; stage = at_len } in
            let next : Step P text w (on_len P room r2) =
              on_len-Step P room r2 chs text w least refl within gone whole
                (c, refl, subst (λ b. Encodes P c chs b) (sym behind) enc) q.kept.good (omega arith)
                (omega (arith, q.fewer, fewer)) in
            subst (λ f. Step P text w (after_salt P room r f)) (sym q.result)
              (subst (λ o. Step P text w (salted P room r1 o))
                (sym (ap (λ s. new P r.method (session_subkey P r.method r.master s)) frame ∙ made))
                next)
        | inr (inr q) ↦
            absurd (omega (arith, q.short, ap length parts, length-append salt bs, sized))
      ]

pub drop_everything : (n : ℕ) (xs : List ℕ) → length xs ≤ n → drop n xs ≡ []
drop_everything n [] h = drop_nothing n
drop_everything zero (x ∷ xs) h = absurd (omega (arith, h))
drop_everything (suc n) (x ∷ xs) h = drop_everything n xs (omega (arith, h))

on_stage-Step :
    (P : Primitives) (room : ℕ) (r : Reader) (st : ReadStage) (chs : List (List ℕ)) (text : List ℕ)
    → 1 ≤ room
    → r.stage ≡ st
    → r.ppos ≤ length r.plain
    → drop r.ppos r.plain ≡ []
    → text ≡ concat chs
    → At P r.method r.master st r.recv chs (r.rtmp ++ join r.inner)
    → IsGood r.inner
    → length r.rtmp ≤ need r.method st
    → Step P text (waits r.inner) (on_stage P room r st)
on_stage-Step P room r at_salt chs text least stage within gone whole at good short =
    on_salt-Step P room r chs text (waits r.inner) least stage within gone whole at good short
      (omega arith)
on_stage-Step P room r at_len chs text least stage within gone whole at good short =
    on_len-Step P room r chs text (waits r.inner) least stage within gone whole at good short
      (omega arith)
on_stage-Step P room r (at_data len) chs text least stage within gone whole at good short =
    on_data-Step P room r len chs text (waits r.inner) least stage within gone whole at good short
      (omega arith)

-- A poll of a reader that stands for a text, with room for a byte at least, waits, and the stream
-- below asks to wait less often from there, or delivers the front of the text, which is empty only
-- at the text's end; the reader behind it stands for the rest. It never fails.
pub poll_read-Step :
    (P : Primitives) (room : ℕ) (r : Reader) (text : List ℕ)
    → 1 ≤ room
    → Stands P r text
    → Step P text (waits r.inner) (poll_read P room r)
unfolding poll_read
poll_read-Step P room r text least s = elim (Bool-cases (ltb r.ppos (length r.plain))) [
  | inl buffered ↦
      rw buffered (
        deliver-Step P room r text (waits r.inner) s least (ground (arith, buffered)) (omega arith))
  | inr empty ↦
      let gone = drop_everything r.ppos r.plain (ground (arith, empty)) in
      rw empty (
        on_stage-Step P room r r.stage s.chs text least refl s.position gone
          (s.whole ∙ ap (λ t. t ++ concat s.chs) gone) s.bytes s.good s.short)
]
