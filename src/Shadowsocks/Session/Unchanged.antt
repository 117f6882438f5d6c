-- ===== src/Shadowsocks/Session/Unchanged.antt =====
-- A packet that is refused changes nothing.
use Prim.Native.Nat.{bit_and}
use jamm_vpn.Base.{
  contradiction, ℕ, ◌*◌, ◌^◌, ◌-◌, ◌≡◌, refl, sym, ap, false, List, leb, ltb, ◌==◌, inl, inr,
  Bool-cases,
}
use jamm_vpn.Error.{err, Result-cases, ok≢err}
use jamm_vpn.Shadowsocks.Crypto.{SsError, Primitives}
use jamm_vpn.Shadowsocks.Replay.{Replay, replay_window, same_session, look_up, accept}
use jamm_vpn.Shadowsocks.Session.{Session, open_packet, parse_response_body, pass_window, decrypt}

look_up_refused : (pid : ℕ) (r : Replay) → (look_up pid r).0 ≡ false → (look_up pid r).1 ≡ r
unfolding look_up
look_up_refused pid r = elim (Bool-cases (leb replay_window (r.highest - pid))) [
  | inl far ↦ rw far (λ h. refl)
  | inr near ↦ elim (Bool-cases (bit_and r.window (1 * 2 ^ (r.highest - pid)) == 0)) [
    | inl clear ↦ rw (near, clear) (λ h. contradiction h)
    | inr set ↦ rw (near, set) (λ h. refl)
  ]
]

accept_refused :
    (sid : List ℕ) (pid : ℕ) (r : Replay) → (accept sid pid r).0 ≡ false → (accept sid pid r).1 ≡ r
unfolding accept
accept_refused sid pid r = elim (Bool-cases (same_session r.sid sid)) [
  | inr other ↦ rw other (λ h. contradiction h)
  | inl same ↦ elim (Bool-cases (ltb r.highest pid)) [
    | inl up ↦ rw (same, up) (λ h. contradiction h)
    | inr under ↦ rw (same, under) (look_up_refused pid r)
  ]
]

pass_window_refused :
    (s : Session) (sid : List ℕ) (pid : ℕ) (payload : List ℕ) (e : SsError)
    → (pass_window s sid pid payload).0 ≡ err e
    → (pass_window s sid pid payload).1 ≡ s
pass_window_refused s sid pid payload e h = elim (Bool-cases (accept sid pid s.replay).0) [
  | inl fresh ↦ absurd (ok≢err (sym (rw fresh at h)))
  | inr old ↦ ap (λ r. record s { replay = r }) (accept_refused sid pid s.replay old)
]

-- A packet that ends in an error, whichever it is, leaves the session and its window as they were.
pub decrypt_refused :
    (P : Primitives) (now : ℕ) (packet : List ℕ) (s : Session) (e : SsError)
    → (decrypt P now packet s).0 ≡ err e
    → (decrypt P now packet s).1 ≡ s
unfolding decrypt
decrypt_refused P now packet s e = elim (Result-cases (open_packet P s.method s.psk packet)) [
  | inr (x, failed) ↦ rw failed (λ h. refl)
  | inl (((sid, pid), body), opened) ↦
      rw opened (elim (Result-cases (parse_response_body now s.session_id body)) [
        | inr (x, failed) ↦ rw failed (λ h. refl)
        | inl (payload, parsed) ↦ rw parsed (pass_window_refused s sid pid payload e)
      ])
]
