-- ===== src/Udp/Client.antt =====
-- An association of crates/net/src/udp.rs over all its rounds: whose it is, and what others can do.
use jamm_vpn.Base.{
  ◌≤◌, ◌≡◌, ◌⊎◌, refl, sym, inl, inr, Bool, true, false, not, none, some, List, [], ◌∷◌, arith,
  length, All, All-imp, Bool-cases, if◌then◌else◌, if_both, option_both,
}
use jamm_vpn.Base.Text.{Str}
use jamm_vpn.Addr.{IpAddr, ip_eq, Target}
use jamm_vpn.Udp.Association.{
  Task, flow_queue, Peer, peer_eq, Association, Event, control_read, idle, relay_failed, datagram,
  task_recv, session_recv, session_failed, start, answer, stop, recv_from, udp_associate, step, run,
}
use jamm_vpn.Udp.Binding.{IsBounded, Serves, relay-Serves, step-Serves}

-- Nobody is bound, nothing runs and nothing left, or one peer on the host of the control
-- connection is.
abbrev IsSafe : IpAddr → Association → Type 0
IsSafe control s =
    ((s.client_addr ≡ none) × (s.tasks ≡ []) × (s.sent ≡ []))
    ⊎ ((c : Peer) × Serves c s × (ip_eq c.0 control ≡ true))

-- Whether an event is a datagram of another peer than `c`.
abbrev pub foreign : {N : Type 0} → Peer → Event N → Bool
foreign c (datagram src buf r b) = not (peer_eq c src)
foreign c e = false

abbrev pub without : {N : Type 0} → Peer → List (Event N) → List (Event N)
without c [] = []
without c (e ∷ es) = if foreign c e then without c es else e ∷ without c es

module _ {N : Type 0} (accepts : Task → Bool) (bounded : IsBounded accepts) (display : Target → Str)
    (control : IpAddr) where
  step-IsSafe :
      (e : Event N) (s : Association)
      → IsSafe control s
      → IsSafe control (step accepts display control e s)
  unfolding step udp_associate recv_from stop answer
  step-IsSafe e s (inr (c, h, local)) =
      inr (c, step-Serves accepts bounded display control c e s h, local)
  step-IsSafe (control_read closed) s (inl (f, t, o)) =
      if_both (IsSafe control) s.listening
        (if_both (IsSafe control) closed (inl (f, rw t refl, o)) (inl (f, t, o))) (inl (f, t, o))
  step-IsSafe idle s (inl (f, t, o)) =
      if_both (IsSafe control) s.listening
        (option_both (IsSafe control) s.client_addr (λ e. inl (f, rw t refl, o))
          (λ d e. inl (f, t, o)))
        (inl (f, t, o))
  step-IsSafe relay_failed s (inl (f, t, o)) =
      if_both (IsSafe control) s.listening (inl (f, rw t refl, o)) (inl (f, t, o))
  step-IsSafe (datagram src buf r b) s (inl (f, t, o)) =
      if_both (IsSafe control) s.listening
        (elim (Bool-cases (ip_eq src.0 control)) [
          | inl local ↦ rw local (
              option_both (IsSafe control) s.client_addr
                (λ e. inr (
                  src,
                  relay-Serves accepts bounded src display control buf r b
                      (record s { client_addr = some src }) (refl, rw t tt, rw o tt),
                  local,
                ))
                (λ d e. absurd (ground (arith, f, e))))
          | inr foreign ↦ rw foreign (inl (f, t, o))
        ])
        (inl (f, t, o))
  step-IsSafe (task_recv i b) s (inl (f, t, o)) = inl (f, rw t refl, o)
  step-IsSafe (session_recv i p b) s (inl (f, t, o)) = rw (answer, t) (inl (f, t, o))
  step-IsSafe (session_failed i) s (inl (f, t, o)) = inl (f, rw t refl, o)

  run-IsSafe :
      (es : List (Event N)) (s : Association)
      → IsSafe control s
      → IsSafe control (run accepts display control es s)
  run-IsSafe [] s h = h
  run-IsSafe (e ∷ es) s h = run-IsSafe es (step accepts display control e s) (step-IsSafe e s h)

  -- Whatever an association receives, every datagram that left its relay socket went to the client
  -- it is bound to, on the host of the control connection; every task belongs to that client, and
  -- no channel holds more than `flow_queue` payloads, provided a channel that holds that many takes
  -- no more.
  pub run_serves_client :
      (es : List (Event N))
      → let s = run accepts display control es start in
        All (λ d. (s.client_addr ≡ some d.0) × (ip_eq d.0.0 control ≡ true)) s.sent
        × All (λ t. (s.client_addr ≡ some t.client) × (length t.queue ≤ flow_queue)) s.tasks
  run_serves_client es = elim (run-IsSafe es start (inl (refl, refl, refl))) [
    | inl (f, t, o) ↦ (rw o tt, rw t tt)
    | inr (c, h, local) ↦
        let s = run accepts display control es start in
        (
          All-imp (λ d e. (rw e h.0, rw e local)) s.sent h.2,
          All-imp (λ t k. (rw (k.0) h.0, k.1)) s.tasks h.1,
        )
  ]

  step-foreign :
      (c : Peer) (e : Event N) (s : Association)
      → s.client_addr ≡ some c
      → foreign c e ≡ true
      → step accepts display control e s ≡ s
  unfolding step udp_associate recv_from
  step-foreign c (control_read closed) s h k = absurd (ground arith)
  step-foreign c idle s h k = absurd (ground arith)
  step-foreign c relay_failed s h k = absurd (ground arith)
  step-foreign c (datagram src buf r b) s h k =
      if_both (λ u. u ≡ s) s.listening
        (if_both (λ u. u ≡ s) (not (ip_eq src.0 control)) refl
          (option_both (λ u. u ≡ s) s.client_addr (λ e. absurd (ground (arith, e, h)))
            (λ d e.
              let same : d ≡ c = ground (arith, e, h) in
              let other : peer_eq c src ≡ false = ground (arith, k) in rw (same, other) refl)))
        refl
  step-foreign c (task_recv i b) s h k = absurd (ground arith)
  step-foreign c (session_recv i p b) s h k = absurd (ground arith)
  step-foreign c (session_failed i) s h k = absurd (ground arith)

  run-without :
      (c : Peer) (es : List (Event N)) (s : Association)
      → Serves c s
      → run accepts display control es s ≡ run accepts display control (without c es) s
  run-without c [] s h = refl
  run-without c (e ∷ es) s h = elim (Bool-cases (foreign c e)) [
    | inl other ↦ rw (without, other) (rw (step-foreign c e s h.0 other) (run-without c es s h))
    | inr ours ↦
        rw (without, ours)
          (run-without c es (step accepts display control e s)
            (step-Serves accepts bounded display control c e s h))
  ]

  -- Once an association is bound to a client, it goes on as if the datagrams of all other peers
  -- had never arrived, whatever they contain, provided a channel that holds `flow_queue`
  -- payloads takes no more.
  pub run_ignores_others :
      (c : Peer) (before es : List (Event N))
      → (run accepts display control before start).client_addr ≡ some c
      → run accepts display control es (run accepts display control before start)
        ≡ run accepts display control (without c es) (run accepts display control before start)
  run_ignores_others c before es h = elim (run-IsSafe before start (inl (refl, refl, refl))) [
    | inl (f, t, o) ↦ absurd (ground (arith, h, f))
    | inr (d, serves, local) ↦
        let same : d ≡ c = ground (arith, h, serves.0) in
        run-without c es (run accepts display control before start) (rw (sym same) serves)
  ]
