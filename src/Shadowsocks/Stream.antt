-- ===== src/Shadowsocks/Stream.antt =====
-- crates/net/src/shadowsocks/stream.rs: the stream of sealed chunks. What the stream below gives is
-- a list of arrivals, behind which it ends; the random bytes are a parameter.
pub mod Fill
pub mod Standing
pub mod Steps
pub mod Drain
pub mod Writer
use jamm_vpn.Base.{
  ℕ, zero, suc, ◌+◌, ◌-◌, ◌*◌, ◌/◌, ◌%◌, ◌^◌, Bool, true, false, not, ◌||◌, Option, none, some,
  List, [], ◌∷◌, ◌++◌, ltb, leb, ◌==◌, if◌then◌else◌, length, take, drop, min,
}
use jamm_vpn.Error.{Result, ok, err, ◌>>=◌}
use jamm_vpn.Shadowsocks.Crypto.{
  SsError, random_failed, bad_chunk, unexpected_eof, read_failed, write_failed, panicked,
  Primitives, Method, salt_len, session_subkey, Crypto, new, seal, open_sealed,
}
use jamm_vpn.Shadowsocks.Udp.{random}

abbrev pub max_chunk : ℕ
max_chunk = 0x3fff

abbrev pub tag_len : ℕ
tag_len = 16

pub data ReadStage : Type 0 where
  at_salt at_len : ReadStage
  at_data : ℕ → ReadStage

-- What the stream below does next: it has bytes, it asks to wait, or it fails.
pub data Arrival : Type 0 where
  chunk : List ℕ → Arrival
  wait broken : Arrival

pub data Poll (A : Type 0) : Type 0 where
  pending : Poll A
  ready : Result SsError A → Poll A

-- The half that reads.
pub record Reader : Type 0 where
  pub inner : List Arrival
  pub method : Method
  pub master : List ℕ
  pub recv : Option Crypto
  pub stage : ReadStage
  pub rtmp : List ℕ
  pub plain : List ℕ
  pub ppos : ℕ

unfoldable pub new_reader : List Arrival → Method → List ℕ → Reader
new_reader inner m master = record {
  inner = inner;
  method = m;
  master = master;
  recv = none;
  stage = at_salt;
  rtmp = [];
  plain = [];
  ppos = 0;
}

-- `poll_read` of the stream below into a buffer of `want` bytes; no byte is the end.
abbrev pub poll_inner : ℕ → List Arrival → Poll (List ℕ) × List Arrival
poll_inner want [] = (ready (ok []), [])
poll_inner want (wait ∷ inner) = (pending, inner)
poll_inner want (broken ∷ inner) = (ready (err read_failed), inner)
poll_inner want (chunk bs ∷ inner) = (
  ready (ok (take want bs)),
  if ltb want (length bs) then chunk (drop want bs) ∷ inner else inner,
)

abbrev pub Filled : Type 0
Filled = Poll Bool × List ℕ × List Arrival

-- One round of `fill`, with the rounds behind it.
abbrev pub fill_round :
    (List ℕ → List Arrival → Filled) → List ℕ → Poll (List ℕ) × List Arrival → Filled
fill_round again rtmp (pending, inner) = (pending, rtmp, inner)
fill_round again rtmp (ready (err e), inner) = (ready (err e), rtmp, inner)
fill_round again [] (ready (ok []), inner) = (ready (ok false), [], inner)
fill_round again (b ∷ rtmp) (ready (ok []), inner) = (ready (err unexpected_eof), b ∷ rtmp, inner)
fill_round again rtmp (ready (ok (x ∷ xs)), inner) = again (rtmp ++ (x ∷ xs)) inner

-- The loop of `fill`, on fuel: every round that goes on adds a byte.
unfoldable pub fill : ℕ → ℕ → List ℕ → List Arrival → Filled
fill zero need rtmp inner = (ready (ok true), rtmp, inner)
fill (suc fuel) need rtmp inner =
    if not (ltb (length rtmp) need)
    then (ready (ok true), rtmp, inner)
    else fill_round (λ rtmp inner. fill fuel need rtmp inner) rtmp
        (poll_inner (min (need - length rtmp) 4096) inner)

-- The plain bytes that are left, into a buffer of `room` bytes.
abbrev pub deliver : ℕ → Reader → Poll (List ℕ) × Reader
deliver room r =
    let n = min room (length r.plain - r.ppos) in
    (
      ready (ok (take n (drop r.ppos r.plain))),
      if r.ppos + n == length r.plain
          then record r { plain = []; ppos = 0 }
          else record r { ppos = r.ppos + n },
    )

abbrev pub data_opened : ℕ → Reader → Result SsError (List ℕ × Crypto) → Poll (List ℕ) × Reader
data_opened room r (err e) = (ready (err e), r)
data_opened room r (ok (pt, c)) =
    deliver room (record r { recv = some c; plain = pt; ppos = 0; stage = at_len })

-- A whole frame of data was read; it is opened and delivered.
abbrev pub data_frame : Primitives → ℕ → Reader → Option Crypto → List ℕ → Poll (List ℕ) × Reader
data_frame P room r none frame = (ready (err panicked), r)
data_frame P room r (some c) frame = data_opened room r (open_sealed P c frame)

abbrev pub after_data : Primitives → ℕ → Reader → Filled → Poll (List ℕ) × Reader
after_data P room r (pending, rtmp, inner) = (pending, record r { rtmp = rtmp; inner = inner })
after_data P room r (ready (err e), rtmp, inner) =
    (ready (err e), record r { rtmp = rtmp; inner = inner })
after_data P room r (ready (ok false), rtmp, inner) =
    (ready (err unexpected_eof), record r { rtmp = rtmp; inner = inner })
after_data P room r (ready (ok true), rtmp, inner) =
    data_frame P room (record r { rtmp = []; inner = inner }) r.recv rtmp

unfoldable pub on_data : Primitives → ℕ → ℕ → Reader → Poll (List ℕ) × Reader
on_data P room len r = after_data P room r (fill (len + tag_len) (len + tag_len) r.rtmp r.inner)

-- The length of a chunk was read.
abbrev pub len_checked : Primitives → ℕ → Reader → Crypto → ℕ → Poll (List ℕ) × Reader
len_checked P room r c len =
    if len == 0 || ltb max_chunk len
    then (ready (err bad_chunk), record r { recv = some c })
    else on_data P room len (record r { recv = some c; stage = at_data len })

abbrev pub len_opened :
    Primitives → ℕ → Reader → Result SsError (List ℕ × Crypto) → Poll (List ℕ) × Reader
len_opened P room r (err e) = (ready (err e), r)
len_opened P room r (ok (hi ∷ lo ∷ _, c)) = len_checked P room r c (hi * 2 ^ 8 + lo)
len_opened P room r (ok (_, c)) = (ready (err panicked), record r { recv = some c })

abbrev pub len_frame : Primitives → ℕ → Reader → Option Crypto → List ℕ → Poll (List ℕ) × Reader
len_frame P room r none frame = (ready (err panicked), r)
len_frame P room r (some c) frame = len_opened P room r (open_sealed P c frame)

abbrev pub after_len : Primitives → ℕ → Reader → Filled → Poll (List ℕ) × Reader
after_len P room r (pending, rtmp, inner) = (pending, record r { rtmp = rtmp; inner = inner })
after_len P room r (ready (err e), rtmp, inner) =
    (ready (err e), record r { rtmp = rtmp; inner = inner })
after_len P room r (ready (ok false), rtmp, inner) =
    (ready (ok []), record r { rtmp = rtmp; inner = inner })
after_len P room r (ready (ok true), rtmp, inner) =
    len_frame P room (record r { rtmp = []; inner = inner }) r.recv rtmp

unfoldable pub on_len : Primitives → ℕ → Reader → Poll (List ℕ) × Reader
on_len P room r = after_len P room r (fill (2 + tag_len) (2 + tag_len) r.rtmp r.inner)

abbrev pub salted : Primitives → ℕ → Reader → Result SsError Crypto → Poll (List ℕ) × Reader
salted P room r (err e) = (ready (err e), r)
salted P room r (ok c) = on_len P room (record r { recv = some c; stage = at_len })

abbrev pub after_salt : Primitives → ℕ → Reader → Filled → Poll (List ℕ) × Reader
after_salt P room r (pending, rtmp, inner) = (pending, record r { rtmp = rtmp; inner = inner })
after_salt P room r (ready (err e), rtmp, inner) =
    (ready (err e), record r { rtmp = rtmp; inner = inner })
after_salt P room r (ready (ok false), rtmp, inner) =
    (ready (ok []), record r { rtmp = rtmp; inner = inner })
after_salt P room r (ready (ok true), rtmp, inner) =
    salted P room (record r { rtmp = []; inner = inner })
      (new P r.method (session_subkey P r.method r.master rtmp))

unfoldable pub on_salt : Primitives → ℕ → Reader → Poll (List ℕ) × Reader
on_salt P room r = after_salt P room r (fill (salt_len r.method) (salt_len r.method) r.rtmp r.inner)

-- The loop of `poll_read` goes from the salt to a length to the data.
abbrev pub on_stage : Primitives → ℕ → Reader → ReadStage → Poll (List ℕ) × Reader
on_stage P room r at_salt = on_salt P room r
on_stage P room r at_len = on_len P room r
on_stage P room r (at_data len) = on_data P room len r

unfoldable pub poll_read : Primitives → ℕ → Reader → Poll (List ℕ) × Reader
poll_read P room r =
    if ltb r.ppos (length r.plain) then deliver room r else on_stage P room r r.stage

-- What `poll_write` puts behind the bytes that wait to be written: at first the salt, then the
-- sealed length and the sealed data.
unfoldable pub first_write :
    Primitives
    → Method
    → List ℕ
    → Option (List ℕ)
    → Option Crypto
    → Result SsError (List ℕ × Crypto)
first_write P m master salt (some send) = ok ([], send)
first_write P m master salt none = do
  salt ← random salt
  send ← new P m (session_subkey P m master salt)
  ok (salt, send)

unfoldable pub seal_chunk : Primitives → Crypto → List ℕ → Result SsError (List ℕ × Crypto)
seal_chunk P send buf =
    let n = min (length buf) max_chunk in
    (do
      (len, send) ← seal P send ((n / 2 ^ 8) % 256 ∷ n % 256 ∷ [])
      (data_ct, send) ← seal P send (take n buf)
      ok (len ++ data_ct, send))
