-- ===== src/Shadowsocks/Stream/Writer.antt =====
-- The half of crates/net/src/shadowsocks/stream.rs that writes. What the stream below does with the
-- bytes is a list of answers, behind which it asks to wait.
pub mod Sent
pub mod Piped
pub mod Delivered
use jamm_vpn.Base.{
  ℕ, ◌+◌, ◌-◌, ◌/◌, ◌%◌, ◌^◌, Bool, true, not, Option, none, some, List, [], ◌∷◌, ◌++◌, ltb, ◌==◌,
  if◌then◌else◌, length, take, drop, min,
}
use jamm_vpn.Error.{Result, ok, err}
use jamm_vpn.Shadowsocks.Crypto.{SsError, write_failed, Primitives, Method, Crypto, seal}
use jamm_vpn.Shadowsocks.Stream.{max_chunk, Poll, pending, ready, first_write}

-- It takes so many bytes at most, asks to wait, or fails.
pub data Answer : Type 0 where
  takes : ℕ → Answer
  stalls fails : Answer

pub record Writer : Type 0 where
  pub below : List Answer
  -- What the stream below has taken so far.
  pub written : List ℕ
  pub method : Method
  pub master : List ℕ
  pub send : Option Crypto
  pub wbuf : List ℕ
  pub wpos : ℕ

unfoldable pub new_writer : List Answer → Method → List ℕ → Writer
new_writer below m master = record {
  below = below;
  written = [];
  method = m;
  master = master;
  send = none;
  wbuf = [];
  wpos = 0;
}

abbrev pub wrote : ℕ → Writer → Writer
wrote n w = record w {
  written = w.written ++ take n (drop w.wpos w.wbuf);
  wpos = w.wpos + min n (length w.wbuf - w.wpos);
}

-- All is written below.
abbrev pub cleared : List Answer → Writer → Writer
cleared below w = record w { below = below; wbuf = []; wpos = 0 }

unfoldable pub flush_loop : List Answer → Writer → Poll Bool × Writer
flush_loop [] w =
    if not (ltb w.wpos (length w.wbuf))
    then (ready (ok true), cleared [] w)
    else (pending, record w { below = [] })
flush_loop (stalls ∷ below) w =
    if not (ltb w.wpos (length w.wbuf))
    then (ready (ok true), cleared (stalls ∷ below) w)
    else (pending, record w { below = below })
flush_loop (fails ∷ below) w =
    if not (ltb w.wpos (length w.wbuf))
    then (ready (ok true), cleared (fails ∷ below) w)
    else (ready (err write_failed), record w { below = below })
flush_loop (takes n ∷ below) w =
    let rest = flush_loop below (wrote n w) in
    if not (ltb w.wpos (length w.wbuf))
    then (ready (ok true), cleared (takes n ∷ below) w)
    else if n == 0
    then (ready (err write_failed), record w { below = below })
    else rest

unfoldable pub flush_wbuf : Writer → Poll Bool × Writer
flush_wbuf w = flush_loop w.below w

-- A stream below that is not ready is no failure: the bytes wait.
abbrev pub after_write : ℕ → Poll Bool × Writer → Poll ℕ × Writer
after_write n (ready (err e), w) = (ready (err e), w)
after_write n (ready (ok b), w) = (ready (ok n), w)
after_write n (pending, w) = (ready (ok n), w)

abbrev pub data_sealed : ℕ → Writer → Result SsError (List ℕ × Crypto) → Poll ℕ × Writer
data_sealed n w (err e) = (ready (err e), w)
data_sealed n w (ok (ct, send)) =
    after_write n (flush_wbuf (record w { send = some send; wbuf = w.wbuf ++ ct }))

abbrev pub len_sealed :
    Primitives → ℕ → List ℕ → Writer → Result SsError (List ℕ × Crypto) → Poll ℕ × Writer
len_sealed P n buf w (err e) = (ready (err e), w)
len_sealed P n buf w (ok (ct, send)) =
    data_sealed n (record w { send = some send; wbuf = w.wbuf ++ ct }) (seal P send (take n buf))

abbrev pub write_chunk : Primitives → List ℕ → Writer → Crypto → Poll ℕ × Writer
write_chunk P buf w send =
    let n = min (length buf) max_chunk in
    len_sealed P n buf w (seal P send ((n / 2 ^ 8) % 256 ∷ n % 256 ∷ []))

abbrev pub write_first :
    Primitives → List ℕ → Writer → Result SsError (List ℕ × Crypto) → Poll ℕ × Writer
write_first P buf w (err e) = (ready (err e), w)
write_first P buf w (ok (salt, send)) =
    write_chunk P buf (record w { send = some send; wbuf = w.wbuf ++ salt }) send

abbrev pub after_flush :
    Primitives → Option (List ℕ) → List ℕ → Poll Bool × Writer → Poll ℕ × Writer
after_flush P salt buf (pending, w) = (pending, w)
after_flush P salt buf (ready (err e), w) = (ready (err e), w)
after_flush P salt buf (ready (ok b), w) =
    if length buf == 0
    then (ready (ok 0), w)
    else write_first P buf w (first_write P w.method w.master salt w.send)

-- `salt` is what the generator gives, if the salt is made in this call.
unfoldable pub poll_write : Primitives → Option (List ℕ) → List ℕ → Writer → Poll ℕ × Writer
poll_write P salt buf w = after_flush P salt buf (flush_wbuf w)
