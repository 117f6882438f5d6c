-- ===== src/Dns/Cache/Stuck.antt =====
-- What a dropped call of `resolve` of crates/net/src/dns/mod.rs leaves behind. The timeout around
-- `handle_http` in crates/net/src/engine.rs drops calls of `resolve`.
use jamm_vpn.Base.{
  ℕ, ◌≤◌, ◌≡◌, refl, ap, ◌∙◌, inl, inr, Bool, true, false, ◌&&◌, Option, none, some, [], ◌∷◌, arith,
  nth, Bool-cases,
}
use jamm_vpn.Base.Text.{Str, str_eq, str_eq→eq, str_eq_self}
use jamm_vpn.Base.Maps.{Map}
use jamm_vpn.Dns.Cache.{
  CacheState, ready, in_flight, Phase, asking, waiting, leading, dropped, done, is_pending, Call,
  System, check_cache, resolve_leader, resolve_uncached, look, publish, drop_call, Step, tick,
  arrive, looks, wakes, answers, drops, Steps, rest, more, Reachable,
}
use jamm_vpn.Dns.Cache.Flight.{
  check_cache-cases, flights, leaders, leads, returned, returns, is_done, is_leading, to_nat,
  count-append, count-modify, leaders_single,
}

-- The cache waits for a query for a name that no call leads; so many calls for it returned.
record IsStuck (name : Str) (n : ℕ) (s : System) : Type 0 where
  flying : s.cache name ≡ some in_flight
  idle : leaders name s.calls ≡ 0
  same : returned name s.calls ≡ n

flights_one : (o : Option CacheState) → 1 ≤ flights o → o ≡ some in_flight
flights_one none h = absurd (omega (arith, h))
flights_one (some in_flight) h = refl
flights_one (some (ready ips t)) h = absurd (omega (arith, h))

and_false : (b : Bool) → to_nat (b && false) ≡ 0
and_false true = refl
and_false false = refl

-- A pending call has not returned.
pending_not_done : (p : Phase) (b : Bool) → is_pending p ≡ true → to_nat (is_done p && b) ≡ 0
pending_not_done asking b h = refl
pending_not_done waiting b h = refl
pending_not_done leading b h = refl
pending_not_done dropped b h = refl
pending_not_done (done a t) b h = absurd (ground (arith, h))

-- For a name whose query is in flight a look changes nothing of the name but that the call waits.
module _ (m name : Str) (now : ℕ) (cache : Map Str CacheState)
    (flying : cache name ≡ some in_flight) where
  check_cache-flying : (check_cache m now cache).1 name ≡ some in_flight
  check_cache-flying = elim (check_cache-cases m now cache) [
    | inl (e, first) ↦ elim (Bool-cases (str_eq m name)) [
      | inl same ↦ rw (e, same) refl
      | inr other ↦ rw (e, other) flying
    ]
    | inr (inl (e, o)) ↦ rw e flying
    | inr (inr (ips, t, e, h, k)) ↦ rw e flying
  ]

  check_cache-waits :
      (to_nat (is_leading (check_cache m now cache).0 && str_eq m name) ≡ 0)
      × (to_nat (is_done (check_cache m now cache).0 && str_eq m name) ≡ 0)
  unfolding check_cache
  check_cache-waits = elim (Bool-cases (str_eq m name)) [
    | inl same ↦
        let found : check_cache m now cache ≡ (waiting, cache) =
          let here : cache m ≡ some in_flight = ap cache (str_eq→eq m name same) ∙ flying in
          rw (check_cache, here) refl in
        rw found (refl, refl)
    | inr other ↦ rw other (
      omega (arith, and_false (is_leading (check_cache m now cache).0)),
      omega (arith, and_false (is_done (check_cache m now cache).0)),
    )
  ]

Step-IsStuck : {name : Str} {n : ℕ} {s t : System} → Step s t → IsStuck name n s → IsStuck name n t
unfolding look publish resolve_leader
Step-IsStuck (tick d) h = record { flying = h.flying; idle = h.idle; same = h.same }
Step-IsStuck {name} {n} {s} (arrive m) h = record {
  flying = h.flying;
  idle = omega (arith, h.idle, count-append (leads name) s.calls (_ ∷ []));
  same = omega (arith, h.same, count-append (returns name) s.calls (_ ∷ []));
}
Step-IsStuck {name} {n} {s} (looks i m e) h =
    let (a, b) = check_cache-waits m name s.now s.cache h.flying in
    record {
      flying = check_cache-flying m name s.now s.cache h.flying;
      idle = omega (arith, h.idle, a, count-modify (leads name) _ i s.calls e);
      same = omega (arith, h.same, b, count-modify (returns name) _ i s.calls e);
    }
Step-IsStuck {name} {n} {s} (wakes i m e) h = record {
  flying = h.flying;
  idle = omega (arith, h.idle, count-modify (leads name) _ i s.calls e);
  same = omega (arith, h.same, count-modify (returns name) _ i s.calls e);
}
Step-IsStuck {name} {n} {s} (drops i m p e k) h = record {
  flying = h.flying;
  idle = omega (arith, h.idle, count-modify (leads name) _ i s.calls e);
  same = omega (
    arith,
    h.same,
    pending_not_done p (str_eq m name) k,
    count-modify (returns name) _ i s.calls e,
  );
}
Step-IsStuck {name} {n} {s} (answers i m a aaaa e) h =
    let led =
      count-modify (leads name)
        (λ (c : Call). record c { phase = done (resolve_uncached a aaaa) s.now }) i s.calls e in
    let ret =
      count-modify (returns name)
        (λ (c : Call). record c { phase = done (resolve_uncached a aaaa) s.now }) i s.calls e in
    elim (Bool-cases (str_eq m name)) [
      | inl same ↦
          let one : to_nat (str_eq m name) ≡ 1 = rw same refl in
          absurd (omega (arith, led, one, h.idle))
      | inr other ↦
          let nil : to_nat (str_eq m name) ≡ 0 = rw other refl in
          record {
            flying = rw (resolve_leader, other) h.flying;
            idle = omega (arith, led, nil, h.idle);
            same = omega (arith, ret, nil, h.same);
          }
    ]

Steps-IsStuck :
    {name : Str} {n : ℕ} {s t : System} → Steps s t → IsStuck name n s → IsStuck name n t
Steps-IsStuck rest h = h
Steps-IsStuck (more before step) h = Step-IsStuck step (Steps-IsStuck before h)

-- A call that asks the server for a name is dropped: whatever steps follow, the cache says for ever
-- that a query for the name is in flight, no call asks for it, and no further call for it returns.
pub dropped_leader_sticks :
    (s t : System) (i : ℕ) (name : Str)
    → Reachable s
    → nth i s.calls ≡ some (record { name = name; phase = leading })
    → Steps (drop_call i s) t
    → (t.cache name ≡ some in_flight)
      × (leaders name t.calls ≡ 0)
      × (returned name t.calls ≡ returned name s.calls)
dropped_leader_sticks s t i name r e steps =
    let (one, known, lost_only) = leaders_single s r name in
    let gone = λ (c : Call). record c { phase = dropped } in
    let same : to_nat (str_eq name name) ≡ 1 = rw (str_eq_self name) refl in
    let led = count-modify (leads name) gone i s.calls e in
    let ret = count-modify (returns name) gone i s.calls e in
    let stuck : IsStuck name (returned name s.calls) (drop_call i s) = record {
      flying = flights_one (s.cache name) (omega (arith, same, led, known));
      idle = omega (arith, same, led, one);
      same = omega (arith, ret);
    } in
    let h = Steps-IsStuck steps stuck in (h.flying, h.idle, h.same)
