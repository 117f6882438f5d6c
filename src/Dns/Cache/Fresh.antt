-- ===== src/Dns/Cache/Fresh.antt =====
-- What the cache of crates/net/src/dns/mod.rs serves is what a query for that name answered, and
-- not older than its time to live.
use jamm_vpn.Base.{
  ℕ, suc, ◌+◌, ◌≤◌, ◌<◌, ◌≡◌, refl, sym, inl, inr, Option, none, some, List, [], ◌∷◌, ◌++◌, arith,
  if◌then◌else◌, nth, All, All-imp, All-append, All-modify_at, All-nth, Bool-cases, if_both,
  is_empty,
}
use jamm_vpn.Base.Text.{Str, str_eq, str_eq→eq}
use jamm_vpn.Addr.{IpAddr}
use jamm_vpn.Dns.Cache.{
  Step, CacheState, ready, in_flight, Phase, asking, waiting, leading, dropped, done, System,
  Answer, Entry, check_cache, resolve_leader, look, publish, Step, tick, arrive, looks, wakes,
  answers, drops, Reachable, starts, next, resolve_uncached, cache_result, or_empty, ttl_of,
}
use jamm_vpn.Dns.Cache.Flight.{check_cache-cases}

-- A result in the log for a name, with the answer and the time it was cached.
record Found (log : List Entry) (name : Str) (answer : Answer) : Type 0 where
  place : ℕ
  time : ℕ
  there : nth place log ≡ some (record { name = name; answer = answer; time = time })

abbrev later :
    {log : List Entry} {name : Str} {answer : Answer} (e : Entry)
    → Found log name answer
    → Found (e ∷ log) name answer
later e f = record { place = suc f.place; time = f.time; there = f.there }

-- A finished call has an answer from the log, cached not later than it returned and not longer ago
-- than the answer lives.
abbrev IsSound : List Entry → Str → Phase → Type 0
IsSound log name (done answer at) =
    (f : Found log name answer) × (f.time ≤ at) × (at < f.time + ttl_of answer)
IsSound log name p = Unit

-- An entry of the cache comes from the log.
abbrev IsBacked : List Entry → ℕ → Str → Option CacheState → Type 0
IsBacked log now name (some (ready ips expires)) =
    (f : Found log name (cache_result ips)) × (f.time ≤ now)
    × (expires ≡ f.time + ttl_of (cache_result ips))
IsBacked log now name o = Unit

record IsFresh (s : System) : Type 0 where
  calls : All (λ c. IsSound s.log c.name c.phase) s.calls
  cache : (name : Str) → IsBacked s.log s.now name (s.cache name)

cached_again :
    (ips : List IpAddr)
    → let answer : Answer = if is_empty ips then none else some ips in
      cache_result (or_empty answer) ≡ answer
unfolding cache_result
cached_again [] = refl
cached_again (ip ∷ ips) = refl

-- A leader's result is what its cached form gives again.
cache_result-or_empty :
    (a aaaa : Answer) → cache_result (or_empty (resolve_uncached a aaaa)) ≡ resolve_uncached a aaaa
unfolding resolve_uncached
cache_result-or_empty a aaaa = cached_again (or_empty a ++ or_empty aaaa)

ttl_of-positive : (answer : Answer) → 1 ≤ ttl_of answer
ttl_of-positive none = omega arith
ttl_of-positive (some ips) = omega arith

IsBacked-tick :
    (log : List Entry) (now d : ℕ) (name : Str) (o : Option CacheState)
    → IsBacked log now name o
    → IsBacked log (now + d) name o
IsBacked-tick log now d name none h = tt
IsBacked-tick log now d name (some in_flight) h = tt
IsBacked-tick log now d name (some (ready ips t)) (f, old, e) = (f, omega (arith, old), e)

IsBacked-later :
    (e : Entry) (log : List Entry) (now : ℕ) (name : Str) (o : Option CacheState)
    → IsBacked log now name o
    → IsBacked (e ∷ log) now name o
IsBacked-later e log now name none h = tt
IsBacked-later e log now name (some in_flight) h = tt
IsBacked-later e log now name (some (ready ips t)) (f, old, lives) = (later e f, old, lives)

IsSound-later :
    (e : Entry) (log : List Entry) (name : Str) (p : Phase)
    → IsSound log name p
    → IsSound (e ∷ log) name p
IsSound-later e log name asking h = tt
IsSound-later e log name waiting h = tt
IsSound-later e log name leading h = tt
IsSound-later e log name dropped h = tt
IsSound-later e log name (done answer at) (f, old, lives) = (later e f, old, lives)

module _ (name : Str) (s : System) (h : IsFresh s) where
  check_cache-IsSound : IsSound s.log name (check_cache name s.now s.cache).0
  check_cache-IsSound = elim (check_cache-cases name s.now s.cache) [
    | inl (e, first) ↦ rw e tt
    | inr (inl (e, o)) ↦ rw e tt
    | inr (inr (ips, t, e, o, soon)) ↦
        let kept : IsBacked s.log s.now name (s.cache name) = h.cache name in
        let (f, old, lives) = rw o at kept in rw e (f, old, omega (arith, soon, lives))
  ]

  check_cache-IsBacked : (n : Str) → IsBacked s.log s.now n ((check_cache name s.now s.cache).1 n)
  check_cache-IsBacked n = elim (check_cache-cases name s.now s.cache) [
    | inl (e, first) ↦ rw e (if_both (IsBacked s.log s.now n) (str_eq name n) tt (h.cache n))
    | inr (inl (e, o)) ↦ rw e (h.cache n)
    | inr (inr (ips, t, e, o, soon)) ↦ rw e (h.cache n)
  ]

Step-IsFresh : {s t : System} → Step s t → IsFresh s → IsFresh t
unfolding look publish resolve_leader
Step-IsFresh {s} (tick d) h = record {
  calls = h.calls;
  cache = λ n. IsBacked-tick s.log s.now d n (s.cache n) (h.cache n);
}
Step-IsFresh {s} (arrive name) h = record {
  calls = All-append (λ c. IsSound s.log c.name c.phase) s.calls (_ ∷ []) h.calls (tt, tt);
  cache = h.cache;
}
Step-IsFresh {s} (looks i name e) h = record {
  calls =
      All-modify_at (λ c. IsSound s.log c.name c.phase) _ i s.calls e
        (λ k. check_cache-IsSound name s h) h.calls;
  cache = check_cache-IsBacked name s h;
}
Step-IsFresh {s} (wakes i name e) h = record {
  calls = All-modify_at (λ c. IsSound s.log c.name c.phase) _ i s.calls e (λ k. tt) h.calls;
  cache = h.cache;
}
Step-IsFresh {s} (drops i name p e k) h = record {
  calls = All-modify_at (λ c. IsSound s.log c.name c.phase) _ i s.calls e (λ k. tt) h.calls;
  cache = h.cache;
}
Step-IsFresh {s} (answers i name a aaaa e) h =
    let result = resolve_uncached a aaaa in
    let new : Entry = record { name = name; answer = result; time = s.now } in
    let found : Found (new ∷ s.log) name result = record {
      place = 0;
      time = s.now;
      there = refl;
    } in
    let kept : IsBacked (new ∷ s.log) s.now name
        (some (ready (or_empty result) (s.now + ttl_of result))) =
      rw (cache_result-or_empty a aaaa) (found, omega arith, refl) in
    let lives : s.now < s.now + ttl_of result = omega (arith, ttl_of-positive result) in
    record {
      calls =
          All-modify_at (λ c. IsSound (new ∷ s.log) c.name c.phase) _ i s.calls e
            (λ k. (found, omega arith, lives))
            (All-imp (λ c. IsSound-later new s.log c.name c.phase) s.calls h.calls);
      cache = λ n. elim (Bool-cases (str_eq name n)) [
        | inl same ↦ rw (resolve_leader, same, sym (str_eq→eq name n same)) kept
        | inr other ↦
            rw (resolve_leader, other) (IsBacked-later new s.log s.now n (s.cache n) (h.cache n))
      ];
    }

Reachable-IsFresh : (s : System) → Reachable s → IsFresh s
Reachable-IsFresh s starts = record { calls = tt; cache = λ n. tt }
Reachable-IsFresh s (next r step) = Step-IsFresh step (Reachable-IsFresh _ r)

-- However the calls of `resolve` interleave, what a finished call returned for its name at a time
-- is the result of a real resolution of that very name, which was cached no later than that, and
-- less than its time to live before: 300 s for addresses, 3 s for an error.
pub answer_fresh :
    (s : System) (i : ℕ) (name : Str) (answer : Answer) (at : ℕ)
    → Reachable s
    → nth i s.calls ≡ some (record { name = name; phase = done answer at })
    → (k : ℕ) × (t : ℕ) × (nth k s.log ≡ some (record { name = name; answer = answer; time = t }))
      × (t ≤ at)
      × (at < t + ttl_of answer)
answer_fresh s i name answer at r e =
    let (f, old, lives) =
      All-nth (λ c. IsSound s.log c.name c.phase) i s.calls e (Reachable-IsFresh s r).calls in
    (f.place, f.time, f.there, old, lives)
