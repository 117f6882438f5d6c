-- ===== src/Shadowsocks/Replay.antt =====
-- `Replay` of crates/net/src/shadowsocks/ss2022_udp.rs: the window against replayed packets. An
-- identifier of a server's session is its bytes.
pub mod History
pub mod Window
pub mod Repeats
use Prim.Native.Nat.{bit_and, bit_or}
use jamm_vpn.Base.{
  ℕ, ◌*◌, ◌%◌, ◌-◌, ◌^◌, Bool, true, false, not, Option, none, some, List, [], ◌∷◌, ltb, leb, ◌==◌,
  if◌then◌else◌,
}
use jamm_vpn.Base.Text.{str_eq}

abbrev pub replay_window : ℕ
replay_window = 64

pub record Replay : Type 0 where
  pub sid : Option (List ℕ)
  pub highest : ℕ
  pub window : ℕ

abbrev pub start : Replay
start = record { sid = none; highest = 0; window = 0 }

-- `self.sid == Some(sid)`.
unfoldable pub same_session : Option (List ℕ) → List ℕ → Bool
unfolding str_eq
same_session none sid = false
same_session (some s) sid = str_eq s sid

-- The window with `pid` as its highest number.
unfoldable pub advance : ℕ → Replay → Replay
advance pid r =
    let shift = pid - r.highest in
    let window = if leb replay_window shift then 0 else r.window * 2 ^ shift % 2 ^ 64 in
    record r { window = bit_or window 1; highest = pid }

-- `pid` is not above the highest number.
unfoldable pub look_up : ℕ → Replay → Bool × Replay
look_up pid r =
    let diff = r.highest - pid in
    let bit = 1 * 2 ^ diff in
    if leb replay_window diff
    then (false, r)
    else if not (bit_and r.window bit == 0)
    then (false, r)
    else (true, record r { window = bit_or r.window bit })

unfoldable pub accept : List ℕ → ℕ → Replay → Bool × Replay
unfolding same_session advance look_up
accept sid pid r =
    if not (same_session r.sid sid)
    then (true, record { sid = some sid; highest = pid; window = 1 })
    else if ltb r.highest pid
    then (true, advance pid r)
    else look_up pid r

-- The answers to packets, one after the other.
abbrev pub accept_all : List (List ℕ × ℕ) → Replay → List Bool
accept_all [] r = []
accept_all ((sid, pid) ∷ packets) r = (accept sid pid r).0 ∷ accept_all packets (accept sid pid r).1

-- The state after packets.
abbrev pub run : List (List ℕ × ℕ) → Replay → Replay
run [] r = r
run ((sid, pid) ∷ packets) r = run packets (accept sid pid r).1
