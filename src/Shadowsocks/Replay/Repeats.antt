-- ===== src/Shadowsocks/Replay/Repeats.antt =====
-- Which packets the window refuses a second time, and which it does not.
use mathlib.Core.Path.{subst}
use Prim.Native.Nat.{bit_and}
use jamm_vpn.Base.{
  ℕ, ◌-◌, ◌*◌, ◌^◌, ◌≤◌, ◌≡◌, ◌≢◌, ◌⊎◌, refl, sym, ap, ◌∙◌, Bool, true, false, ◌&&◌, ◌||◌, List, [],
  ◌∷◌, map, none, some, ltb, leb, ◌==◌, contradiction, if◌then◌else◌, Option, arith, Bool-cases,
  inl, inr,
}
use jamm_vpn.Base.Text.{str_eq, str_eq_self, str_eq→eq}
use jamm_vpn.Shadowsocks.Replay.{
  Replay, replay_window, same_session, advance, look_up, accept, run, start,
}
use jamm_vpn.Shadowsocks.Replay.History.{History, is_seen, is_new, admit}
use jamm_vpn.Shadowsocks.Replay.Window.{Tells, view, accept-Simulates, equals_itself, place_of_zero}

-- The session's history refuses a number.
record Refuses (sid : List ℕ) (pid : ℕ) (h : History) : Type 0 where
  session : h.sid ≡ some sid
  under : pid ≤ h.highest
  known : (is_seen pid h.seen ≡ true) ⊎ (64 ≤ h.highest - pid)

same_self : (sid : List ℕ) → same_session (some sid) sid ≡ true
unfolding same_session
same_self sid = str_eq_self sid

or_true : (b : Bool) → (b || true) ≡ true
or_true true = refl
or_true false = refl

and_false : (b : Bool) → (b && false) ≡ false
and_false true = refl
and_false false = refl

same_sid : (s : Option (List ℕ)) (sid : List ℕ) → same_session s sid ≡ true → s ≡ some sid
unfolding same_session
same_sid none sid h = contradiction (sym h)
same_sid (some s) sid h = ap (λ x. some x) (str_eq→eq s sid h)

module _ (sid : List ℕ) (pid : ℕ) where
  seen_or_far :
      (h : History) → is_new pid h ≡ false → (is_seen pid h.seen ≡ true) ⊎ (64 ≤ h.highest - pid)
  seen_or_far h old = elim (Bool-cases (is_seen pid h.seen)) [
    | inl seen ↦ inl seen
    | inr unseen ↦ inr (elim (Bool-cases (ltb (h.highest - pid) 64)) [
      | inl near ↦
          let new : is_new pid h ≡ true = rw (near, unseen) (or_true (ltb h.highest pid)) in
          contradiction (sym new ∙ old)
      | inr far ↦ ground (arith, far)
    ])
  ]

  not_above : (h : History) → is_new pid h ≡ false → pid ≤ h.highest
  not_above h old = elim (Bool-cases (ltb h.highest pid)) [
    | inl up ↦ let new : is_new pid h ≡ true = rw up refl in contradiction (sym new ∙ old)
    | inr under ↦ ground (arith, under)
  ]

  offered : (top : ℕ) → pid ≤ (if ltb top pid then pid else top)
  offered top = ground arith

  raised : (q top : ℕ) → pid ≤ top → pid ≤ (if ltb top q then q else top)
  raised q top h = ground (arith, h)

  raised_far : (q top : ℕ) → 64 ≤ top - pid → 64 ≤ (if ltb top q then q else top) - pid
  raised_far q top h = ground (arith, h)

  -- Whatever the answer, a number that was offered is refused afterwards.
  admit-Refuses : (h : History) → Refuses sid pid (admit sid pid h).1
  admit-Refuses h = elim (Bool-cases (same_session h.sid sid)) [
    | inr other ↦
        rw other (record {
          session = refl;
          under = omega arith;
          known = inl (rw (equals_itself pid) refl);
        })
    | inl same ↦ elim (Bool-cases (is_new pid h)) [
      | inl new ↦
          rw (same, new)
            (record {
              session = same_sid h.sid sid same;
              under = offered h.highest;
              known = inl (rw (equals_itself pid) refl);
            })
      | inr old ↦
          rw (same, old)
            (record {
              session = same_sid h.sid sid same;
              under = not_above h old;
              known = seen_or_far h old;
            })
    ]
  ]

  -- Other numbers of the session leave it refused.
  kept-Refuses : (q : ℕ) (h : History) → Refuses sid pid h → Refuses sid pid (admit sid q h).1
  kept-Refuses q h k =
      let same : same_session h.sid sid ≡ true = rw k.session (same_self sid) in
      elim (Bool-cases (is_new q h)) [
        | inl new ↦
            rw (same, new)
              (record {
                session = k.session;
                under = raised q h.highest k.under;
                known = elim k.known [
                  | inl seen ↦ inl (rw seen (or_true (q == pid)))
                  | inr far ↦ inr (raised_far q h.highest far)
                ];
              })
        | inr old ↦ rw (same, old) k
      ]

  Refuses-admit : (h : History) → Refuses sid pid h → (admit sid pid h).0 ≡ false
  Refuses-admit h k =
      let same : same_session h.sid sid ≡ true = rw k.session (same_self sid) in
      let under : ltb h.highest pid ≡ false = ground (arith, k.under) in
      elim k.known [
        | inl seen ↦
            let old : is_new pid h ≡ false =
              rw (under, seen) (and_false (ltb (h.highest - pid) 64)) in
            rw (same, old) refl
        | inr far ↦
            let old : is_new pid h ≡ false = ground (arith, under, far) in rw (same, old) refl
      ]

-- The history that a state stands for refuses a number.
abbrev Stays : List ℕ → ℕ → Replay → Type 0
Stays sid pid r = (seen : List ℕ) × Tells r.highest r.window seen × Refuses sid pid (view r seen)

run-Tells :
    (packets : List (List ℕ × ℕ)) (r : Replay) (seen : List ℕ)
    → Tells r.highest r.window seen
    → (seen' : List ℕ) × Tells (run packets r).highest (run packets r).window seen'
run-Tells [] r seen t = (seen, t)
run-Tells ((sid, pid) ∷ packets) r seen t =
    let (_, seen', _, t') = accept-Simulates pid r seen t sid in
    run-Tells packets (accept sid pid r).1 seen' t'

module _ (sid : List ℕ) (pid : ℕ) where
  accept-Stays :
      (r : Replay) (seen : List ℕ)
      → Tells r.highest r.window seen
      → Stays sid pid (accept sid pid r).1
  accept-Stays r seen t =
      let (_, seen', same, t') = accept-Simulates pid r seen t sid in
      (seen', t', subst (λ h. Refuses sid pid h) same (admit-Refuses sid pid (view r seen)))

  run-Stays :
      (between : List ℕ) (r : Replay)
      → Stays sid pid r
      → Stays sid pid (run (map (λ q. (sid, q)) between) r)
  run-Stays [] r k = k
  run-Stays (q ∷ between) r (seen, t, k) =
      let (_, seen', same, t') = accept-Simulates q r seen t sid in
      run-Stays between (accept sid q r).1
        (seen', t', subst (λ h. Refuses sid pid h) same (kept-Refuses sid pid q (view r seen) k))

  Stays-accept : (r : Replay) → Stays sid pid r → (accept sid pid r).0 ≡ false
  Stays-accept r (seen, t, k) =
      let (answer, _, _, _) = accept-Simulates pid r seen t sid in
      answer ∙ Refuses-admit sid pid (view r seen) k

-- After any packets, a packet of a session that was offered to the window, whatever its answer was,
-- is refused when it is offered again after any further packets of the same session.
pub accept_once :
    (before : List (List ℕ × ℕ)) (sid : List ℕ) (pid : ℕ) (between : List ℕ)
    → (accept sid pid (run (map (λ q. (sid, q)) between) (accept sid pid (run before start)).1)).0
      ≡ false
accept_once before sid pid between =
    let (seen, t) =
      run-Tells before start []
        (record { low = tt; agree = λ d few low. rw (place_of_zero d) refl }) in
    Stays-accept sid pid (run (map (λ q. (sid, q)) between) (accept sid pid (run before start)).1) (
      run-Stays sid pid between (accept sid pid (run before start)).1
        (accept-Stays sid pid (run before start) seen t))

look_up_session : (pid : ℕ) (r : Replay) → (look_up pid r).1.sid ≡ r.sid
unfolding look_up
look_up_session pid r = elim (Bool-cases (leb replay_window (r.highest - pid))) [
  | inl far ↦ rw far refl
  | inr near ↦ elim (Bool-cases (bit_and r.window (1 * 2 ^ (r.highest - pid)) == 0)) [
    | inl clear ↦ rw (near, clear) refl
    | inr set ↦ rw (near, set) refl
  ]
]

accept_session : (sid : List ℕ) (pid : ℕ) (r : Replay) → (accept sid pid r).1.sid ≡ some sid
unfolding accept advance
accept_session sid pid r = elim (Bool-cases (same_session r.sid sid)) [
  | inr other ↦ rw other refl
  | inl same ↦ elim (Bool-cases (ltb r.highest pid)) [
    | inl up ↦ rw (same, up) (same_sid r.sid sid same)
    | inr under ↦ rw (same, under) (look_up_session pid r ∙ same_sid r.sid sid same)
  ]
]

-- In every state, a packet of one session, then a packet of another session, then the first packet
-- again: the last one is accepted, since the packet of the other session cleared the window.
pub accept_replayed :
    (r : Replay) (sid other : List ℕ) (pid q : ℕ)
    → sid ≢ other
    → (accept sid pid (accept other q (accept sid pid r).1).1).0 ≡ true
unfolding accept same_session
accept_replayed r sid other pid q apart = elim (Bool-cases (str_eq other sid)) [
  | inl same ↦ elim (apart (sym (str_eq→eq other sid same))) [ ]
  | inr differ ↦
      let last = (accept other q (accept sid pid r).1).1 in
      let new : same_session last.sid sid ≡ false =
        ap (λ s. same_session s sid) (accept_session other q (accept sid pid r).1) ∙ differ in
      rw new refl
]
