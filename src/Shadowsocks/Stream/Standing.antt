-- ===== src/Shadowsocks/Stream/Standing.antt =====
-- What a reader stands for: the text that is still to be delivered.
use mathlib.Core.List.{append_assoc}
use jamm_vpn.Base.{
  ℕ, zero, suc, ◌+◌, ◌-◌, ◌/◌, ◌%◌, ◌^◌, ◌<◌, ◌≤◌, ◌≡◌, ◌⊎◌, refl, sym, ◌∙◌, ap, inl, inr, Option,
  some, List, [], ◌∷◌, ◌++◌, ◌==◌, arith, length, take, drop, min, Bool-cases, length-take,
  length-drop, take-append-drop,
}
use jamm_vpn.Error.{ok}
use jamm_vpn.Shadowsocks.Crypto.{
  Primitives, Method, salt_len, session_subkey, Crypto, new, open_sealed,
}
use jamm_vpn.Shadowsocks.Stream.{
  max_chunk, tag_len, ReadStage, at_salt, at_len, at_data, Poll, pending, ready, Reader, deliver,
}
use jamm_vpn.Shadowsocks.Stream.Fill.{join, waits, IsGood, take_everything}

-- The sealed length of a chunk, the sealed chunk and what follows.
pub record Frame (P : Primitives) (c : Crypto) (ch : List ℕ) (next : Crypto → List ℕ → Type 0)
    (bs : List ℕ) : Type 0 where
  pub len_ct : List ℕ
  pub data_ct : List ℕ
  pub rest : List ℕ
  pub middle : Crypto
  pub after : Crypto
  pub opened_len :
      open_sealed P c len_ct ≡ ok ((length ch / 2 ^ 8) % 256 ∷ length ch % 256 ∷ [], middle)
  pub opened : open_sealed P middle data_ct ≡ ok (ch, after)
  pub sized_len : length len_ct ≡ 18
  pub sized : length data_ct ≡ length ch + 16
  pub least : 1 ≤ length ch
  pub most : length ch ≤ max_chunk
  pub parts : bs ≡ len_ct ++ (data_ct ++ rest)
  pub later : next after rest

-- The bytes are the sealed chunks.
abbrev pub Encodes : Primitives → Crypto → List (List ℕ) → List ℕ → Type 0
Encodes P c [] bs = bs ≡ []
Encodes P c (ch ∷ chs) bs = Frame P c ch (λ d rest. Encodes P d chs rest) bs

-- Behind the length of a chunk.
pub record Data (P : Primitives) (c : Crypto) (len : ℕ) (ch : List ℕ)
    (next : Crypto → List ℕ → Type 0) (bs : List ℕ) : Type 0 where
  pub data_ct : List ℕ
  pub rest : List ℕ
  pub after : Crypto
  pub opened : open_sealed P c data_ct ≡ ok (ch, after)
  pub counted : length ch ≡ len
  pub sized : length data_ct ≡ len + 16
  pub least : 1 ≤ length ch
  pub parts : bs ≡ data_ct ++ rest
  pub later : next after rest

abbrev pub At :
    Primitives → Method → List ℕ → ReadStage → Option Crypto → List (List ℕ) → List ℕ → Type 0
At P m master at_salt recv chs bytes =
    (salt : List ℕ) × (c : Crypto) × (bs : List ℕ) × (length salt ≡ salt_len m)
    × (new P m (session_subkey P m master salt) ≡ ok c)
    × (bytes ≡ salt ++ bs)
    × Encodes P c chs bs
At P m master at_len recv chs bytes = (c : Crypto) × (recv ≡ some c) × Encodes P c chs bytes
At P m master (at_data len) recv chs bytes =
    (c : Crypto) × (ch : List ℕ) × (chs' : List (List ℕ)) × (recv ≡ some c)
    × (chs ≡ ch ∷ chs')
    × Data P c len ch (λ d rest. Encodes P d chs' rest) bytes

-- The bytes of a frame of the stage.
abbrev pub need : Method → ReadStage → ℕ
need m at_salt = salt_len m
need m at_len = 2 + tag_len
need m (at_data len) = len + tag_len

abbrev pub concat : List (List ℕ) → List ℕ
concat [] = []
concat (ch ∷ chs) = ch ++ concat chs

pub record Stands (P : Primitives) (r : Reader) (text : List ℕ) : Type 0 where
  pub chs : List (List ℕ)
  pub bytes : At P r.method r.master r.stage r.recv chs (r.rtmp ++ join r.inner)
  pub good : IsGood r.inner
  pub short : length r.rtmp ≤ need r.method r.stage
  pub position : r.ppos ≤ length r.plain
  pub whole : text ≡ drop r.ppos r.plain ++ concat chs

-- A poll waits, or delivers the front of the text; it delivers nothing only at the text's end.
pub record Waits (P : Primitives) (text : List ℕ) (w : ℕ) (p : Poll (List ℕ)) (r : Reader)
    : Type 0 where
  pub result : p ≡ pending
  pub stands : Stands P r text
  pub fewer : waits r.inner < w

pub record Delivers (P : Primitives) (text : List ℕ) (w : ℕ) (p : Poll (List ℕ)) (r : Reader)
    : Type 0 where
  pub front : List ℕ
  pub rest : List ℕ
  pub result : p ≡ ready (ok front)
  pub parts : text ≡ front ++ rest
  pub stands : Stands P r rest
  pub progress : (1 ≤ length front) ⊎ (text ≡ [])
  pub fewer : waits r.inner ≤ w

abbrev pub Step : Primitives → List ℕ → ℕ → Poll (List ℕ) × Reader → Type 0
Step P text w (p, r) = Waits P text w p r ⊎ Delivers P text w p r

pub drop_nothing : (n : ℕ) → ◌≡◌ {A = List ℕ} (drop n []) []
drop_nothing zero = refl
drop_nothing (suc n) = refl

pub drop-drop : (m n : ℕ) (xs : List ℕ) → drop n (drop m xs) ≡ drop (m + n) xs
drop-drop zero n xs = ap (λ k. drop k xs) (omega arith)
drop-drop (suc m) n [] = drop_nothing n ∙ sym (drop_nothing (suc m + n))
drop-drop (suc m) n (x ∷ xs) = drop-drop m n xs ∙ ap (λ k. drop k (x ∷ xs)) step
  where
    step : suc (m + n) ≡ suc m + n
    step = omega arith

-- Other buffered bytes before the same chunks.
rebuffered :
    (P : Primitives) (r : Reader) (text : List ℕ) (s : Stands P r text) (plain : List ℕ) (ppos : ℕ)
    (rest : List ℕ)
    → ppos ≤ length plain
    → rest ≡ drop ppos plain ++ concat s.chs
    → Stands P (record r { plain = plain; ppos = ppos }) rest
rebuffered P r text s plain ppos rest within whole = record {
  chs = s.chs;
  bytes = s.bytes;
  good = s.good;
  short = s.short;
  position = within;
  whole = whole;
}

-- The buffered bytes are delivered, as many as there is room for.
pub deliver-Step :
    (P : Primitives) (room : ℕ) (r : Reader) (text : List ℕ) (w : ℕ)
    → Stands P r text
    → 1 ≤ room
    → r.ppos < length r.plain
    → waits r.inner ≤ w
    → Step P text w (deliver room r)
deliver-Step P room r text w s least more fewer =
    let n = min room (length r.plain - r.ppos) in
    let front = take n (drop r.ppos r.plain) in
    let len : length front ≡ n =
      omega (arith, length-take n (drop r.ppos r.plain), length-drop r.ppos r.plain) in
    elim (Bool-cases (r.ppos + n == length r.plain)) [
      | inl all ↦ inr (record {
        front = front;
        rest = concat s.chs;
        result = refl;
        parts =
            s.whole
            ∙ ap (λ t. t ++ concat s.chs)
                (sym (
                  take_everything n (drop r.ppos r.plain)
                    (ground (arith, all, length-drop r.ppos r.plain))));
        stands = rw all (rebuffered P r text s [] 0 (concat s.chs) (omega arith) refl);
        progress = inl (omega (arith, len, least, more));
        fewer = rw all fewer;
      })
      | inr some_left ↦ inr (record {
        front = front;
        rest = drop n (drop r.ppos r.plain) ++ concat s.chs;
        result = refl;
        parts =
            s.whole
            ∙ ap (λ t. t ++ concat s.chs) (sym (take-append-drop n (drop r.ppos r.plain)))
            ∙ append_assoc (take n (drop r.ppos r.plain)) (drop n (drop r.ppos r.plain))
                (concat s.chs);
        stands = rw some_left (
            rebuffered P r text s r.plain (r.ppos + n)
              (drop n (drop r.ppos r.plain) ++ concat s.chs) (omega (arith, more))
              (ap (λ t. t ++ concat s.chs) (drop-drop r.ppos n r.plain)));
        progress = inl (omega (arith, len, least, more));
        fewer = rw some_left fewer;
      })
    ]
