-- ===== src/Udp/Binding.antt =====
-- An association of crates/net/src/udp.rs that is bound to a client serves only that client.
use jamm_vpn.Base.{
  All-nth, All-modify, All-modify_at, nth, modify, All-map, ℕ, suc, ◌≤◌, ◌≡◌, ◌⊎◌, ◌==◌, refl, sym,
  ◌∙◌, inl, inr, Bool, true, not, Option, some, List, [], ◌∷◌, arith, length, All, All-append,
  Bool-cases, if_both, option_both, Option-cases, length-append, if◌then◌else◌, drop,
}
use jamm_vpn.Base.Text.{Str}
use jamm_vpn.Error.{Result-cases}
use jamm_vpn.Addr.{IpAddr, v4, v6, ip_eq, Target}
use jamm_vpn.Engine.{Decision, Outbound, connect, block, Routed}
use jamm_vpn.Udp.{unexpected_eof, unknown_atyp, panicked, parse_udp_datagram}
use jamm_vpn.Udp.Association.{
  flow_queue, Peer, peer_eq, Task, Association, Event, control_read, idle, relay_failed, datagram,
  task_recv, session_recv, session_failed, hang_up, enqueue, try_send, spawn_flow, finish,
  take_next, answer, stop, open_flow, forward, relay, recv_from, udp_associate, step,
}

-- A task of the client `c`, with a queue of at most `flow_queue` payloads.
abbrev pub IsFor : Peer → Task → Type 0
IsFor c t = (t.client ≡ c) × (length t.queue ≤ flow_queue)

Decision-cases : {N : Type 0} (d : Decision N) → (d ≡ block) ⊎ ((o : Outbound N) × (d ≡ connect o))
Decision-cases block = inl refl
Decision-cases (connect o) = inr (o, refl)

-- The state without its record: who is bound, the tasks, what left.
abbrev pub IsServing : Peer → Option Peer → List Task → List (Peer × List ℕ) → Type 0
IsServing c client tasks sent = (client ≡ some c) × All (IsFor c) tasks × All (λ d. d.0 ≡ c) sent

abbrev pub Serves : Peer → Association → Type 0
Serves c s = IsServing c s.client_addr s.tasks s.sent

-- A channel is full when it holds `flow_queue` payloads.
abbrev pub IsBounded : (Task → Bool) → Type 0
IsBounded accepts = (t : Task) → accepts t ≡ true → suc (length t.queue) ≤ flow_queue

module _ (c : Peer) where
  hang_up-IsFor : (t : Task) → IsFor c t → IsFor c (hang_up t)
  unfolding hang_up
  hang_up-IsFor t h = h

  finish-IsFor : (t : Task) → IsFor c t → IsFor c (finish t)
  unfolding finish
  finish-IsFor t h = h

  take_next-IsFor : (b : Bool) (t : Task) → IsFor c t → IsFor c (take_next b t)
  unfolding take_next finish
  take_next-IsFor b t h = ground arith

  stop-Serves : (s : Association) → Serves c s → Serves c (stop s)
  unfolding stop
  stop-Serves s h = (h.0, All-map (IsFor c) hang_up hang_up-IsFor s.tasks h.1, h.2)

  answer-Serves :
      (i : ℕ) (payload : List ℕ) (b : Bool) (s : Association)
      → Serves c s
      → Serves c (answer i payload b s)
  unfolding answer
  answer-Serves i payload b s h = elim (Option-cases (nth i s.tasks)) [
    | inl e ↦ rw (answer, e) h
    | inr (t, e) ↦
        let ours = All-nth (IsFor c) i s.tasks e h.1 in
        let done = All-modify (IsFor c) finish i s.tasks finish-IsFor h.1 in
        rw (answer, e)
          (if_both (Serves c) t.running
            (if_both (Serves c) b (h.0, h.1, (ours.0, h.2)) (h.0, done, h.2)) h)
  ]

  open_flow-Serves :
      {N : Type 0} (key : Str) (target : Target) (p : List ℕ) (r : Routed N) (b : Bool)
      (s : Association)
      → Serves c s
      → Serves c (open_flow key c target p r b s)
  unfolding open_flow spawn_flow
  open_flow-Serves key target p r b s h = elim (Decision-cases r.decision) [
    | inl e ↦ rw (open_flow, e) h
    | inr (outbound, e) ↦
        let more = All-append (IsFor c) s.tasks (_ ∷ []) h.1 ((refl, omega arith), tt) in
        rw (open_flow, e) (if_both (Serves c) b (h.0, more, h.2) h)
  ]

module _ (accepts : Task → Bool) (bounded : IsBounded accepts) (c : Peer) where
  try_send-Serves :
      (p : List ℕ) (i : ℕ) (ts : List Task) {us : List Task}
      → try_send accepts p i ts ≡ some us
      → All (IsFor c) ts
      → All (IsFor c) us
  unfolding try_send enqueue
  try_send-Serves p i ts {us} e h = elim (Option-cases (nth i ts)) [
    | inl o ↦ absurd (ground (arith, o, e))
    | inr (t, o) ↦ elim (Bool-cases (accepts t)) [
      | inl room ↦
          let same : modify i (enqueue p) ts ≡ us = ground (arith, o, e, room) in
          let longer : IsFor c t → IsFor c (enqueue p t) =
            λ k. (k.0, omega (arith, bounded t room, length-append t.queue (p ∷ []))) in
          rw (sym same) (All-modify_at (IsFor c) (enqueue p) i ts o longer h)
      | inr full ↦ absurd (ground (arith, o, e, full))
    ]
  ]

  forward-Serves :
      {N : Type 0} (key : Str) (target : Target) (p : List ℕ) (r : Routed N) (b : Bool)
      (s : Association)
      → Serves c s
      → Serves c (forward accepts key c target p r b s)
  unfolding forward
  forward-Serves key target p r b s h = elim (Option-cases (s.flows key)) [
    | inl e ↦ rw (forward, e) (open_flow-Serves c key target p r b s h)
    | inr (i, e) ↦ elim (Option-cases (try_send accepts p i s.tasks)) [
      | inl o ↦
          rw (forward, e, o)
            (open_flow-Serves c key target p r b _
              (h.0, All-modify (IsFor c) hang_up i s.tasks (hang_up-IsFor c) h.1, h.2))
      | inr (ts, o) ↦ rw (forward, e, o) (h.0, try_send-Serves p i s.tasks o h.1, h.2)
    ]
  ]

  module _ {N : Type 0} (display : Target → Str) (control : IpAddr) where
    pub relay-Serves :
        (buf : List ℕ) (r : Routed N) (b : Bool) (s : Association)
        → Serves c s
        → Serves c (relay accepts display control c buf r b s)
    unfolding relay
    relay-Serves buf r b s h = elim (Result-cases (parse_udp_datagram buf)) [
      | inl ((frag, target, off), e) ↦
          rw (relay, e)
            (if_both (Serves c) (frag == 0)
              (forward-Serves (display target) target (drop off buf) r b s h) h)
      | inr (panicked, e) ↦ rw (relay, e) (stop-Serves c s h)
      | inr (unexpected_eof, e) ↦ rw (relay, e) h
      | inr (unknown_atyp, e) ↦ rw (relay, e) h
    ]

ip_eq→eq : (a b : IpAddr) → ip_eq a b ≡ true → a ≡ b
unfolding ip_eq
ip_eq→eq (v4 a) (v4 b) h = ground arith
ip_eq→eq (v4 a) (v6 b) h = ground arith
ip_eq→eq (v6 a) (v4 b) h = ground arith
ip_eq→eq (v6 a) (v6 b) h = ground arith

pub peer_eq→eq : (a b : Peer) → peer_eq a b ≡ true → a ≡ b
unfolding peer_eq
peer_eq→eq (a, p) (b, q) h = elim (Bool-cases (ip_eq a b)) [
  | inl same ↦ let ports : p ≡ q = ground (arith, same, h) in rw (ip_eq→eq a b same, ports) refl
  | inr other ↦ absurd (ground (arith, other, h))
]

module _ {N : Type 0} (accepts : Task → Bool) (bounded : IsBounded accepts) (display : Target → Str)
    (control : IpAddr) where
  ours :
      (c d src : Peer) (buf : List ℕ) (r : Routed N) (b : Bool) (s : Association)
      → Serves c s
      → s.client_addr ≡ some d
      → Serves c (if peer_eq d src then relay accepts display control src buf r b s else s)
  ours c d src buf r b s h e = elim (Bool-cases (peer_eq d src)) [
    | inl same ↦
        let bound : d ≡ c = ground (arith, e, h.0) in
        let from : src ≡ c = sym (peer_eq→eq d src same) ∙ bound in
        rw (same, from) (relay-Serves accepts bounded c display control buf r b s h)
    | inr other ↦ rw other h
  ]

  -- The rounds of an association that is bound.
  pub step-Serves :
      (c : Peer) (e : Event N) (s : Association)
      → Serves c s
      → Serves c (step accepts display control e s)
  unfolding step udp_associate recv_from
  step-Serves c (control_read closed) s h =
      if_both (Serves c) s.listening (if_both (Serves c) closed (stop-Serves c s h) h) h
  step-Serves c idle s h =
      if_both (Serves c) s.listening
        (option_both (Serves c) s.client_addr (λ e. stop-Serves c s h) (λ d e. h)) h
  step-Serves c relay_failed s h = if_both (Serves c) s.listening (stop-Serves c s h) h
  step-Serves c (datagram src buf r b) s h =
      if_both (Serves c) s.listening
        (if_both (Serves c) (not (ip_eq src.0 control)) h (
          option_both (Serves c) s.client_addr (λ e. absurd (ground (arith, e, h.0)))
            (λ d e. ours c d src buf r b s h e)))
        h
  step-Serves c (task_recv i b) s h =
      (h.0, All-modify (IsFor c) (take_next b) i s.tasks (take_next-IsFor c b) h.1, h.2)
  step-Serves c (session_recv i p b) s h = answer-Serves c i p b s h
  step-Serves c (session_failed i) s h =
      (h.0, All-modify (IsFor c) finish i s.tasks (finish-IsFor c) h.1, h.2)
