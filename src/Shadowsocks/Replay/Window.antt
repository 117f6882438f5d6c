-- ===== src/Shadowsocks/Replay/Window.antt =====
-- The 64 bits of the window tell as much as the whole history.
use Prim.Native.Nat.{bit_and, bit_or}
use native.Mathlib.Nat.{one-le-pow}
use mathlib.Core.Path.{subst}
use jamm_vpn.Base.{
  ℕ, zero, suc, ◌+◌, ◌*◌, ◌%◌, ◌-◌, ◌^◌, ◌≤◌, ◌<◌, ◌≡◌, ◌≢◌, refl, sym, ap, ◌∙◌, Bool, true, false,
  not, ◌&&◌, List, [], ◌∷◌, ltb, leb, ◌==◌, if◌then◌else◌, arith, All, All-imp, Bool-cases, inl,
  inr,
}
use jamm_vpn.Base.Places.{
  place, place_few, bit_and-place, bit_or-place, place-set_same, place-set_other, place-shift_below,
  place-shift_above, place-wrap,
}
use jamm_vpn.Shadowsocks.Replay.{
  Replay, replay_window, same_session, advance, look_up, accept, accept_all, start,
}
use jamm_vpn.Shadowsocks.Replay.History.{History, is_seen, admit, admit_all, empty}

-- The place of a number tells whether it was seen.
pub record Tells (highest window : ℕ) (seen : List ℕ) : Type 0 where
  pub low : All (λ p. p ≤ highest) seen
  pub agree : (d : ℕ) → d < 64 → d ≤ highest → (place d window == 1) ≡ is_seen (highest - d) seen

pub is_seen_above :
    (n highest : ℕ) (seen : List ℕ)
    → All (λ p. p ≤ highest) seen
    → highest < n
    → is_seen n seen ≡ false
is_seen_above n highest [] h k = refl
is_seen_above n highest (p ∷ seen) (now, h) k =
    let other : (p == n) ≡ false = ground (arith, now, k) in
    rw other (is_seen_above n highest seen h k)

pub place_of_zero : (d : ℕ) → place d 0 ≡ 0
place_of_zero zero = refl
place_of_zero (suc d) = place_of_zero d

-- The window after a step of `s` places, before the new number's bit.
moved : ℕ → ℕ → ℕ
moved s w = if leb replay_window s then 0 else w * 2 ^ s % 2 ^ 64

place-moved : (d s w : ℕ) → d < 64 → place d (moved s w) ≡ (if ltb d s then 0 else place (d - s) w)
unfolding moved
place-moved d s w h = elim (Bool-cases (leb replay_window s)) [
  | inl far ↦
      let below : ltb d s ≡ true = ground (arith, h, far) in rw (far, below) (place_of_zero d)
  | inr near ↦ elim (Bool-cases (ltb d s)) [
    | inl below ↦
        rw (near, below)
          (place-wrap d 64 (w * 2 ^ s) h ∙ place-shift_below d s w (ground (arith, below)))
    | inr above ↦
        let split : d ≡ d - s + s = ground (arith, above) in
        rw (near, above)
          (place-wrap d 64 (w * 2 ^ s) h
            ∙ ap (λ n. place n (w * 2 ^ s)) split
            ∙ place-shift_above (d - s) s w)
  ]
]

pub equals_itself : (n : ℕ) → (n == n) ≡ true
equals_itself n = ground arith

-- A number above the highest.
module _ (pid highest window : ℕ) (seen : List ℕ) (h : Tells highest window seen)
    (up : highest < pid) where
  abbrev moved_here : ℕ
  moved_here = moved (pid - highest) window

  empty_place : place 0 moved_here ≡ 0
  empty_place =
      let first : ltb 0 (pid - highest) ≡ true = ground (arith, up) in
      place-moved 0 (pid - highest) window (omega arith) ∙ rw first refl

  advanced_first : (place 0 (moved_here + 2 ^ 0) == 1) ≡ is_seen (pid - 0) (pid ∷ seen)
  advanced_first =
      let same : pid - 0 ≡ pid = omega arith in
      rw (place-set_same 0 moved_here empty_place, same, equals_itself pid) refl

  advanced_other :
      (e : ℕ)
      → 1 ≤ e
      → e < 64
      → e ≤ pid
      → (place e (moved_here + 2 ^ 0) == 1) ≡ is_seen (pid - e) (pid ∷ seen)
  advanced_other e least few low =
      let s = pid - highest in
      let apart : e ≢ 0 = λ z. omega (arith, z, least) in
      let other : (pid == pid - e) ≡ false = ground (arith, least, low) in
      rw (place-set_other e 0 moved_here empty_place apart, place-moved e s window few, other)
        (elim (Bool-cases (ltb e s)) [
          | inl below ↦
              rw (below, is_seen_above (pid - e) highest seen h.low (ground (arith, below, low)))
                refl
          | inr above ↦
              let back : highest - (e - s) ≡ pid - e = ground (arith, above, up) in
              rw above (
                h.agree (e - s) (omega (arith, few)) (ground (arith, above, low, up))
                ∙ ap (λ n. is_seen n seen) back)
        ])

  Tells-advance : Tells pid (bit_or moved_here 1) (pid ∷ seen)
  Tells-advance = record {
    low = (omega arith, All-imp (λ p k. omega (arith, k, up)) seen h.low);
    agree = λ d few low. rw (bit_or-place 0 moved_here empty_place) (elim (Bool-cases (d == 0)) [
      | inl z ↦
          let first : d ≡ 0 = ground (arith, z) in
          subst (λ e. (place e (moved_here + 2 ^ 0) == 1) ≡ is_seen (pid - e) (pid ∷ seen))
            (sym first) advanced_first
      | inr more ↦ advanced_other d (ground (arith, more)) few low
    ]);
  }

-- A number at most the highest, whose bit is not set.
module _ (pid highest window : ℕ) (seen : List ℕ) (h : Tells highest window seen)
    (low : pid ≤ highest) (near : highest - pid < 64) where
  place_told : (place (highest - pid) window == 1) ≡ is_seen pid seen
  place_told =
      let back : highest - (highest - pid) ≡ pid = omega (arith, low) in
      ap (λ b. b) (h.agree (highest - pid) near (omega arith)) ∙ ap (λ n. is_seen n seen) back

  Tells-set :
      place (highest - pid) window ≡ 0 → Tells highest (window + 2 ^ (highest - pid)) (pid ∷ seen)
  Tells-set free = record {
    low = (low, h.low);
    agree = λ d few under. elim (Bool-cases (d == highest - pid)) [
      | inl z ↦
          let here : d ≡ highest - pid = ground (arith, z) in
          let back : highest - (highest - pid) ≡ pid = omega (arith, low) in
          rw (here, back, place-set_same (highest - pid) window free, equals_itself pid) refl
      | inr more ↦
          let apart : d ≢ highest - pid = λ e. ground (arith, more, e) in
          let other : (pid == highest - d) ≡ false = ground (arith, more, under, low) in
          rw (place-set_other d (highest - pid) window free apart, other) (h.agree d few under)
    ];
  }

-- The history that a window stands for, its numbers given.
abbrev pub view : Replay → List ℕ → History
view r seen = record { sid = r.sid; highest = r.highest; seen = seen }

-- The same answer, and states that stand for each other.
abbrev pub Simulates : Bool × Replay → Bool × History → Type 0
Simulates (b, r) (c, h) =
    (b ≡ c) × (seen : List ℕ) × (h ≡ view r seen) × Tells r.highest r.window seen

fresh-Tells : (pid : ℕ) → Tells pid 1 (pid ∷ [])
fresh-Tells pid = record {
  low = (omega arith, tt);
  agree = λ d few low. elim (Bool-cases (d == 0)) [
    | inl z ↦
        let first : d ≡ 0 = ground (arith, z) in
        let same : pid - 0 ≡ pid = omega arith in
        subst (λ e. (place e 1 == 1) ≡ is_seen (pid - e) (pid ∷ [])) (sym first)
          (rw (same, equals_itself pid) refl)
    | inr more ↦
        let apart : d ≢ 0 = λ e. ground (arith, more, e) in
        let other : (pid == pid - d) ≡ false = ground (arith, more, low) in
        let bare : place d 1 ≡ 0 = place-set_other d 0 0 refl apart ∙ place_of_zero d in
        rw (bare, other) refl
  ];
}

module _ (pid : ℕ) (r : Replay) (seen : List ℕ) (t : Tells r.highest r.window seen) where
  look_up-Simulates :
      ltb r.highest pid ≡ false
      → Simulates (look_up pid r) (
          if ltb (r.highest - pid) replay_window && not (is_seen pid seen)
          then (true, record { sid = r.sid; highest = r.highest; seen = pid ∷ seen })
          else (false, view r seen))
  unfolding look_up
  look_up-Simulates under = elim (Bool-cases (leb replay_window (r.highest - pid))) [
    | inl far ↦
        let old : ltb (r.highest - pid) replay_window ≡ false = ground (arith, far) in
        rw (look_up, far, old) (refl, seen, refl, t)
    | inr close ↦
        let recent : ltb (r.highest - pid) replay_window ≡ true = ground (arith, close) in
        let low : pid ≤ r.highest = ground (arith, under) in
        let near : r.highest - pid < 64 = ground (arith, close) in
        let told = place_told pid r.highest r.window seen t low near in
        elim (Bool-cases (place (r.highest - pid) r.window == 1)) [
          | inl set ↦
              let one : place (r.highest - pid) r.window ≡ 1 = ground (arith, set) in
              let bit : (bit_and r.window (1 * 2 ^ (r.highest - pid)) == 0) ≡ false = ground (
                arith,
                bit_and-place (r.highest - pid) r.window,
                one,
                one-le-pow (r.highest - pid) 2 (omega arith),
              ) in
              rw (look_up, close, recent, bit, sym told ∙ set) (refl, seen, refl, t)
          | inr clear ↦
              let zero' : place (r.highest - pid) r.window ≡ 0 =
                ground (arith, clear, place_few (r.highest - pid) r.window) in
              let bit : (bit_and r.window (1 * 2 ^ (r.highest - pid)) == 0) ≡ true =
                ground (arith, bit_and-place (r.highest - pid) r.window, zero') in
              rw (look_up, close, recent, bit, sym told ∙ clear)
                (
                  refl,
                  pid ∷ seen,
                  refl,
                  rw (bit_or-place (r.highest - pid) r.window zero')
                      (Tells-set pid r.highest r.window seen t low near zero'),
                )
        ]
  ]

  pub accept-Simulates : (sid : List ℕ) → Simulates (accept sid pid r) (admit sid pid (view r seen))
  unfolding accept advance moved
  accept-Simulates sid = elim (Bool-cases (same_session r.sid sid)) [
    | inr other ↦ rw (accept, other) (refl, pid ∷ [], refl, fresh-Tells pid)
    | inl same ↦ elim (Bool-cases (ltb r.highest pid)) [
      | inl up ↦
          rw (accept, same, up)
            (
              refl,
              pid ∷ seen,
              refl,
              Tells-advance pid r.highest r.window seen t (ground (arith, up)),
            )
      | inr under ↦ rw (accept, same, under) (look_up-Simulates under)
    ]
  ]

accept_all-admit_all :
    (packets : List (List ℕ × ℕ)) (r : Replay) (seen : List ℕ)
    → Tells r.highest r.window seen
    → accept_all packets r ≡ admit_all packets (view r seen)
accept_all-admit_all [] r seen t = refl
accept_all-admit_all ((sid, pid) ∷ packets) r seen t =
    let (answer, seen', same, t') = accept-Simulates pid r seen t sid in
    let rest = accept_all-admit_all packets (accept sid pid r).1 seen' t' in
    λ i. answer i ∷ (rest ∙ ap (λ h. admit_all packets h) (sym same)) i

-- From the start, the window gives every packet of every sequence the answer that a receiver gives
-- which keeps all numbers that the session accepted: a packet of a new session is accepted, and one
-- of the current session if its number is above all others, or less than 64 below the highest and
-- not seen.
pub accept_all_history :
    (packets : List (List ℕ × ℕ)) → accept_all packets start ≡ admit_all packets empty
accept_all_history packets =
    accept_all-admit_all packets start []
      (record { low = tt; agree = λ d few low. rw (place_of_zero d) refl })
