-- ===== src/Dns/Cache/Flight.antt =====
-- At most one call of crates/net/src/dns/mod.rs asks for a name at a time.
use jamm_vpn.Base.{
  ℕ, zero, suc, ◌+◌, ◌≤◌, ◌≡◌, ◌⊎◌, ◌<◌, refl, ap, ◌∙◌, inl, inr, Bool, true, false, ◌&&◌, Option,
  none, some, List, [], ◌∷◌, ◌++◌, arith, ltb, nth, modify, Bool-cases, Option-cases,
}
use jamm_vpn.Base.Text.{Str, str_eq, str_eq→eq}
use jamm_vpn.Base.Maps.{Map, insert}
use jamm_vpn.Addr.{IpAddr}
use jamm_vpn.Dns.Cache.{
  Step, CacheState, ready, in_flight, Phase, asking, waiting, leading, dropped, done, Call, System,
  check_cache, resolve_leader, look, publish, Step, tick, arrive, looks, wakes, answers, drops,
  is_pending, Reachable, starts, next, resolve_uncached, cache_result,
}

abbrev pub is_leading : Phase → Bool
is_leading leading = true
is_leading p = false

abbrev pub is_done : Phase → Bool
is_done (done answer at) = true
is_done p = false

abbrev pub is_dropped : Phase → Bool
is_dropped dropped = true
is_dropped p = false

abbrev pub to_nat : Bool → ℕ
to_nat true = 1
to_nat false = 0

abbrev pub leads : Str → Call → Bool
leads name c = is_leading c.phase && str_eq c.name name

abbrev pub returns : Str → Call → Bool
returns name c = is_done c.phase && str_eq c.name name

abbrev pub is_lost : Str → Call → Bool
is_lost name c = is_dropped c.phase && str_eq c.name name

abbrev pub count : (Call → Bool) → List Call → ℕ
count p [] = 0
count p (c ∷ cs) = to_nat (p c) + count p cs

-- How many calls lead for a name.
abbrev pub leaders : Str → List Call → ℕ
leaders name cs = count (leads name) cs

-- How many calls for a name have returned.
abbrev pub returned : Str → List Call → ℕ
returned name cs = count (returns name) cs

-- How many calls for a name were dropped.
abbrev pub lost : Str → List Call → ℕ
lost name cs = count (is_lost name) cs

-- How many queries for a name the cache knows of.
abbrev pub flights : Option CacheState → ℕ
flights (some in_flight) = 1
flights s = 0

pub count-append :
    (p : Call → Bool) (cs ds : List Call) → count p (cs ++ ds) ≡ count p cs + count p ds
count-append p [] ds = omega arith
count-append p (c ∷ cs) ds = omega (arith, count-append p cs ds)

-- A call that changes counts anew.
pub count-modify :
    (p : Call → Bool) (f : Call → Call) (i : ℕ) (cs : List Call) {c : Call}
    → nth i cs ≡ some c
    → count p (modify i f cs) + to_nat (p c) ≡ count p cs + to_nat (p (f c))
count-modify p f i [] e = absurd (ground arith)
count-modify p f zero (d ∷ ds) {c} e = let same : d ≡ c = cc in rw same (omega arith)
count-modify p f (suc i) (d ∷ ds) e = omega (arith, count-modify p f i ds e)

module _ (name : Str) (now : ℕ) (cache : Map Str CacheState) where
  -- A call leads, with no query in flight; or it waits; or it is served.
  pub check_cache-cases :
      ((check_cache name now cache ≡ (leading, insert str_eq name in_flight cache))
        × (flights (cache name) ≡ 0))
      ⊎ (((check_cache name now cache ≡ (waiting, cache)) × (cache name ≡ some in_flight))
          ⊎ ((ips : List IpAddr) × (t : ℕ) × (check_cache name now cache
                ≡ (done (cache_result ips) now, cache))
              × (cache name ≡ some (ready ips t))
              × (now < t)))
  unfolding check_cache
  check_cache-cases = elim (Option-cases (cache name)) [
    | inl o ↦ inl (rw (check_cache, o) refl, rw o refl)
    | inr (in_flight, o) ↦ inr (inl (rw (check_cache, o) refl, o))
    | inr (ready ips t, o) ↦ elim (Bool-cases (ltb now t)) [
      | inl soon ↦ inr (inr (ips, t, rw (check_cache, o, soon) refl, o, ground (arith, soon)))
      | inr late ↦ inl (rw (check_cache, o, late) refl, rw o refl)
    ]
  ]

  check_cache-flights :
      (n : Str)
      → let found = check_cache name now cache in
        flights (found.1 n) ≡ flights (cache n) + to_nat (is_leading found.0 && str_eq name n)
  check_cache-flights n = elim check_cache-cases [
    | inl (e, none_yet) ↦ elim (Bool-cases (str_eq name n)) [
      | inl same ↦
          rw (e, same)
            (omega (arith, none_yet, ap (λ m. flights (cache m)) (str_eq→eq name n same)))
      | inr other ↦ rw (e, other) (omega arith)
    ]
    | inr (inl (e, o)) ↦ rw e (omega arith)
    | inr (inr (ips, t, e, h, k)) ↦ rw e (omega arith)
  ]

flights_few : (o : Option CacheState) → flights o ≤ 1
flights_few none = omega arith
flights_few (some in_flight) = omega arith
flights_few (some (ready ips t)) = omega arith

-- A leader has its query in the cache, and a query without a leader was a dropped call's.
record IsSingle (s : System) : Type 0 where
  known : (name : Str) → leaders name s.calls ≤ flights (s.cache name)
  lost_only : (name : Str) → flights (s.cache name) ≤ leaders name s.calls + lost name s.calls

-- A pending call of a name may lead, and is not a dropped one.
pending_few :
    (p : Phase) (same : Bool)
    → is_pending p ≡ true
    → to_nat (is_leading p && same) + to_nat (is_dropped p && same) ≤ to_nat same
pending_few asking same h = omega arith
pending_few waiting same h = omega arith
pending_few leading same h = omega arith
pending_few dropped same h = absurd (ground (arith, h))
pending_few (done a t) same h = absurd (ground (arith, h))

-- After a look into the cache a call is not a dropped one.
check_cache-kept :
    (name : Str) (now : ℕ) (cache : Map Str CacheState)
    → is_dropped (check_cache name now cache).0 ≡ false
check_cache-kept name now cache = elim (check_cache-cases name now cache) [
  | inl (e, first) ↦ rw e refl
  | inr (inl (e, o)) ↦ rw e refl
  | inr (inr (ips, t, e, h, k)) ↦ rw e refl
]

Step-IsSingle : {s t : System} → Step s t → IsSingle s → IsSingle t
unfolding look publish resolve_leader
Step-IsSingle {s} (tick d) h = record { known = h.known; lost_only = h.lost_only }
Step-IsSingle {s} (arrive name) h = record {
  known = λ n. omega (arith, h.known n, count-append (leads n) s.calls (_ ∷ []));
  lost_only = λ n. omega (
    arith,
    h.lost_only n,
    count-append (leads n) s.calls (_ ∷ []),
    count-append (is_lost n) s.calls (_ ∷ []),
  );
}
Step-IsSingle {s} (looks i name e) h = record {
  known = λ n. omega (
    arith,
    h.known n,
    count-modify (leads n) _ i s.calls e,
    check_cache-flights name s.now s.cache n,
  );
  lost_only = λ n.
      let kept : to_nat (is_dropped (check_cache name s.now s.cache).0 && str_eq name n) ≡ 0 =
        rw (check_cache-kept name s.now s.cache) refl in
      omega (
        arith,
        h.lost_only n,
        kept,
        count-modify (leads n) _ i s.calls e,
        count-modify (is_lost n) _ i s.calls e,
        check_cache-flights name s.now s.cache n,
      );
}
Step-IsSingle {s} (wakes i name e) h = record {
  known = λ n. omega (arith, h.known n, count-modify (leads n) _ i s.calls e);
  lost_only = λ n. omega (
    arith,
    h.lost_only n,
    count-modify (leads n) _ i s.calls e,
    count-modify (is_lost n) _ i s.calls e,
  );
}
Step-IsSingle {s} (drops i name p e k) h = record {
  known = λ n. omega (arith, h.known n, count-modify (leads n) _ i s.calls e);
  lost_only = λ n. omega (
    arith,
    h.lost_only n,
    pending_few p (str_eq name n) k,
    count-modify (leads n) _ i s.calls e,
    count-modify (is_lost n) _ i s.calls e,
  );
}
Step-IsSingle {s} (answers i name a aaaa e) h =
    let served = λ (c : Call). record c { phase = done (resolve_uncached a aaaa) s.now } in
    let change : (n : Str)
        → leaders n (modify i served s.calls) + to_nat (str_eq name n) ≡ leaders n s.calls =
      λ n. count-modify (leads n) served i s.calls e ∙ omega arith in
    record {
      known = λ n. elim (Bool-cases (str_eq name n)) [
        | inl same ↦
            let one : to_nat (str_eq name n) ≡ 1 = rw same refl in
            rw (resolve_leader, same)
              (omega (arith, change n, one, h.known n, flights_few (s.cache n)))
        | inr other ↦ rw (resolve_leader, other) (omega (arith, change n, h.known n))
      ];
      lost_only = λ n. elim (Bool-cases (str_eq name n)) [
        | inl same ↦ rw (resolve_leader, same) (omega arith)
        | inr other ↦
            let zero : to_nat (str_eq name n) ≡ 0 = rw other refl in
            rw (resolve_leader, other)
              (omega
                (arith, change n, zero, h.lost_only n, count-modify (is_lost n) served i s.calls e))
      ];
    }

Reachable-IsSingle : (s : System) → Reachable s → IsSingle s
Reachable-IsSingle s starts = record { known = λ n. omega arith; lost_only = λ n. omega arith }
Reachable-IsSingle s (next r step) = Step-IsSingle step (Reachable-IsSingle _ r)

-- However the calls of `resolve` interleave, and whichever of them are dropped, for every name at
-- most one call asks the server at a time; no call asks unless the cache says that a query is in
-- flight, and if the cache says so while no call asks, then a call for that name was dropped.
pub leaders_single :
    (s : System)
    → Reachable s
    → (name : Str)
    → (leaders name s.calls ≤ 1)
      × (leaders name s.calls ≤ flights (s.cache name))
      × (flights (s.cache name) ≤ leaders name s.calls + lost name s.calls)
leaders_single s r name =
    let h = Reachable-IsSingle s r in
    (omega (arith, h.known name, flights_few (s.cache name)), h.known name, h.lost_only name)
