-- ===== src/Shadowsocks/Replay/History.antt =====
-- What the window against replayed packets stands for: all numbers that a session accepted.
use jamm_vpn.Base.{
  ℕ, ◌-◌, Bool, true, false, not, Option, none, some, List, [], ◌∷◌, ◌||◌, ◌&&◌, ltb, ◌==◌,
  if◌then◌else◌, any,
}
use jamm_vpn.Shadowsocks.Replay.{replay_window, same_session}

pub record History : Type 0 where
  pub sid : Option (List ℕ)
  pub highest : ℕ
  pub seen : List ℕ

abbrev pub empty : History
empty = record { sid = none; highest = 0; seen = [] }

abbrev pub is_seen : ℕ → List ℕ → Bool
is_seen pid seen = any (λ p. p == pid) seen

-- A packet of the same session is new if its number is above all others, or less than
-- `replay_window` below the highest and not seen.
abbrev pub is_new : ℕ → History → Bool
is_new pid h =
    ltb h.highest pid || (ltb (h.highest - pid) replay_window && not (is_seen pid h.seen))

abbrev pub admit : List ℕ → ℕ → History → Bool × History
admit sid pid h =
    if not (same_session h.sid sid)
    then (true, record { sid = some sid; highest = pid; seen = pid ∷ [] })
    else if is_new pid h
    then (
      true,
      record h { highest = if ltb h.highest pid then pid else h.highest; seen = pid ∷ h.seen },
    )
    else (false, h)

abbrev pub admit_all : List (List ℕ × ℕ) → History → List Bool
admit_all [] h = []
admit_all ((sid, pid) ∷ packets) h = (admit sid pid h).0 ∷ admit_all packets (admit sid pid h).1
