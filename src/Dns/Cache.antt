-- ===== src/Dns/Cache.antt =====
-- crates/net/src/dns/mod.rs: the cache of the resolver and the calls of `resolve` that share it. A
-- step of the system is what one call does between two of its waits, under the lock; the steps of
-- different calls come in any order. The transports are left out: what the two queries of a leader
-- answer is arbitrary (`none`: an error). A call that waits reads the cache again when it is
-- notified or when its safety timeout ends, so the system may wake it at any time. A call may be
-- dropped before it returns, as the timeout around `handle_http` in crates/net/src/engine.rs does:
-- nothing of `resolve` runs then, and the cache stays as it is.
pub mod Flight
pub mod Fresh
pub mod Stuck
use jamm_vpn.Base.{
  ℕ, ◌+◌, ◌*◌, ◌^◌, ◌≡◌, Bool, true, false, Option, none, some, List, [], ◌∷◌, ◌++◌, ltb,
  if◌then◌else◌, is_empty, nth, modify,
}
use jamm_vpn.Base.Text.{Str, str_eq}
use jamm_vpn.Base.Maps.{Map, insert}
use jamm_vpn.Addr.{IpAddr}

-- In nanoseconds.
abbrev pub positive_ttl : ℕ
positive_ttl = 300 * 10 ^ 9

abbrev pub negative_ttl : ℕ
negative_ttl = 3 * 10 ^ 9

pub data CacheState : Type 0 where
  ready : List IpAddr → ℕ → CacheState
  in_flight : CacheState

-- What a call of `resolve` returns; `none` is the error that there are no records.
abbrev pub Answer : Type 0
Answer = Option (List IpAddr)

-- Where a call stands; one that returned with its answer and the time.
pub data Phase : Type 0 where
  asking waiting leading dropped : Phase
  done : Answer → ℕ → Phase

pub record Call : Type 0 where
  pub name : Str
  pub phase : Phase

-- The result of a leader, and when it was put into the cache.
pub record Entry : Type 0 where
  pub name : Str
  pub answer : Answer
  pub time : ℕ

-- `log` has the results of the leaders, the last one first: the program keeps no such list.
pub record System : Type 0 where
  pub cache : Map Str CacheState
  pub now : ℕ
  pub calls : List Call
  pub log : List Entry

unfoldable pub cache_result : List IpAddr → Answer
cache_result ips = if is_empty ips then none else some ips

-- The lock's first scope in `resolve`: where the call stands after it, and the cache.
unfoldable pub check_cache : Str → ℕ → Map Str CacheState → Phase × Map Str CacheState
unfolding str_eq cache_result
check_cache name now cache =
    let lead : Phase × Map Str CacheState = (leading, insert str_eq name in_flight cache) in
    elim (cache name) [
      | some (ready ips expires) ↦
          if ltb now expires then (done (cache_result ips) now, cache) else lead
      | some in_flight ↦ (waiting, cache)
      | none ↦ lead
    ]

abbrev or_empty : Answer → List IpAddr
or_empty none = []
or_empty (some ips) = ips

-- From the answers for A and for AAAA.
unfoldable pub resolve_uncached : Answer → Answer → Answer
resolve_uncached a aaaa =
    let ips = or_empty a ++ or_empty aaaa in if is_empty ips then none else some ips

abbrev pub ttl_of : Answer → ℕ
ttl_of none = negative_ttl
ttl_of (some ips) = positive_ttl

-- What `resolve_leader` puts into the cache.
unfoldable pub resolve_leader : Str → Answer → ℕ → Map Str CacheState → Map Str CacheState
unfolding str_eq
resolve_leader name result now cache =
    insert str_eq name (ready (or_empty result) (now + ttl_of result)) cache

-- Call `i`, that asks for `name`, looks into the cache.
unfoldable pub look : ℕ → Str → System → System
unfolding check_cache
look i name s =
    let found = check_cache name s.now s.cache in
    record s { cache = found.1; calls = modify i (λ c. record c { phase = found.0 }) s.calls }

-- Call `i` leads for `name`, and its queries came back.
unfoldable pub publish : ℕ → Str → Answer → Answer → System → System
unfolding resolve_uncached resolve_leader
publish i name a aaaa s =
    let result = resolve_uncached a aaaa in
    record s {
      cache = resolve_leader name result s.now s.cache;
      calls = modify i (λ c. record c { phase = done result s.now }) s.calls;
      log = record { name = name; answer = result; time = s.now } ∷ s.log;
    }

-- The phases of a call that has not returned and that its caller still awaits.
abbrev pub is_pending : Phase → Bool
is_pending asking = true
is_pending waiting = true
is_pending leading = true
is_pending p = false

-- Call `i` is dropped.
abbrev pub drop_call : ℕ → System → System
drop_call i s = record s { calls = modify i (λ c. record c { phase = dropped }) s.calls }

pub data Step (s : System) : System → Type 0 where
  tick : (d : ℕ) → Step s (record s { now = s.now + d })
  arrive :
      (name : Str)
      → Step s (record s { calls = s.calls ++ (record { name = name; phase = asking } ∷ []) })
  looks :
      (i : ℕ) (name : Str)
      → nth i s.calls ≡ some (record { name = name; phase = asking })
      → Step s (look i name s)
  wakes :
      (i : ℕ) (name : Str)
      → nth i s.calls ≡ some (record { name = name; phase = waiting })
      → Step s (record s { calls = modify i (λ c. record c { phase = asking }) s.calls })
  answers :
      (i : ℕ) (name : Str) (a aaaa : Answer)
      → nth i s.calls ≡ some (record { name = name; phase = leading })
      → Step s (publish i name a aaaa s)
  drops :
      (i : ℕ) (name : Str) (p : Phase)
      → nth i s.calls ≡ some (record { name = name; phase = p })
      → is_pending p ≡ true
      → Step s (drop_call i s)

abbrev pub start : System
start = record { cache = λ name. none; now = 0; calls = []; log = [] }

-- The systems that steps lead to.
pub data Reachable : System → Type 0 where
  starts : Reachable start
  next : {s t : System} → Reachable s → Step s t → Reachable t

-- What follows a system, in any number of steps.
pub data Steps (s : System) : System → Type 0 where
  rest : Steps s s
  more : {t u : System} → Steps s t → Step t u → Steps s u
