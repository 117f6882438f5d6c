-- ===== src/Tests/Dns.antt =====
-- A question for a name with its answer, and two calls that ask for the same name.
use jamm_vpn.Base.{
  ℕ, ◌+◌, ◌*◌, ◌^◌, ◌≤◌, ◌<◌, ◌-◌, ◌≡◌, refl, none, some, List, [], ◌∷◌, ◌++◌, arith, length, drop,
  modify, nth,
}
use jamm_vpn.Base.Text.{Str, bytes, split, trim_end_matches}
use jamm_vpn.Base.Octets.{to_be, from_be}
use jamm_vpn.Error.{ok}
use jamm_vpn.Addr.{v4}
use jamm_vpn.Dns.{encode_query, encode_labels, skip_name, decode_response, type_a}
use jamm_vpn.Dns.Owner.{root, pointer}
use jamm_vpn.Dns.Message.{skip_name-encode_query}
use jamm_vpn.Dns.Response.{Record, print_response, addresses, decode_response-print_response}
use jamm_vpn.Dns.Cache.{
  System, Reachable, starts, next, arrive, looks, answers, asking, look, publish, in_flight,
  drop_call, Steps, rest, more, tick, wakes,
}
use jamm_vpn.Dns.Cache.Flight.{leaders, lost, returned, flights, leaders_single}
use jamm_vpn.Dns.Cache.Fresh.{answer_fresh}
use jamm_vpn.Dns.Cache.Stuck.{dropped_leader_sticks}

abbrev host : Str
host = bytes "ya.ru."

abbrev question : List ℕ
question =
    0x12 ∷ 0x34 ∷ 1 ∷ 0 ∷ 0 ∷ 1 ∷ 0 ∷ 0 ∷ 0 ∷ 0 ∷ 0 ∷ 0 ∷ 2 ∷ b'y' ∷ b'a' ∷ 2 ∷ b'r' ∷ b'u' ∷ 0 ∷ 0
    ∷ 1 ∷ 0 ∷ 1 ∷ []

abbrev record_a : Record
record_a = record {
  owner = record { labels = []; last = pointer 12 };
  rtype = type_a;
  class = 1;
  ttl = 60;
  rdata = 5 ∷ 255 ∷ 255 ∷ 242 ∷ [];
}

-- An address of the name without compression, and one with a label before the pointer.
abbrev record_other : Record
record_other = record record_a {
  owner = record { labels = bytes "ya" ∷ bytes "ru" ∷ []; last = root };
  rdata = 1 ∷ 2 ∷ 3 ∷ 4 ∷ [];
}

abbrev record_www : Record
record_www = record record_a {
  owner = record { labels = bytes "www" ∷ []; last = pointer 12 };
  rdata = 5 ∷ 6 ∷ [];
}

abbrev records : List Record
records = record_other ∷ record_www ∷ record_a ∷ []

question_layout : encode_query 0x1234 host type_a ≡ ok question
unfolding encode_query encode_labels split trim_end_matches to_be
question_layout = refl

both_addresses :
    addresses records
    ≡ v4 (2 ^ 24 + 2 * 2 ^ 16 + 3 * 2 ^ 8 + 4)
      ∷ v4 (5 * 2 ^ 24 + 255 * 2 ^ 16 + 255 * 2 ^ 8 + 242)
      ∷ []
unfolding from_be
both_addresses = refl

few_labels : length (split b'.' (trim_end_matches b'.' host)) ≤ 128
unfolding split trim_end_matches
few_labels = omega arith

skip_name-encode_query_example : skip_name (question ++ (1 ∷ [])) 12 ≡ ok (length question - 4)
skip_name-encode_query_example =
    skip_name-encode_query 0x1234 host type_a question (1 ∷ []) question_layout few_labels

decode_response-print_response_example :
    decode_response
      (print_response 0x1234 0x8180 1 0 (drop 12 question) records (0 ∷ []))
      (some 0x1234)
    ≡ ok (addresses records)
decode_response-print_response_example =
    decode_response-print_response 0x1234 host type_a question 0x8180 1 0 records (0 ∷ [])
      (omega arith) question_layout few_labels (omega arith) refl (omega arith) (ground arith)

-- Two calls arrive; the first leads and the second waits.
abbrev arrived : System
arrived = record {
  cache = λ name. none;
  now = 0;
  calls = record { name = host; phase = asking } ∷ record { name = host; phase = asking } ∷ [];
  log = [];
}

abbrev busy : System
busy = look 1 host (look 0 host arrived)

arrived-Reachable : Reachable arrived
arrived-Reachable = next (next starts (arrive host)) (arrive host)

busy-Reachable : Reachable busy
unfolding look
busy-Reachable = next (next arrived-Reachable (looks 0 host refl)) (looks 1 host refl)

leaders_single_example :
    (leaders host busy.calls ≤ 1)
    × (leaders host busy.calls ≤ flights (busy.cache host))
    × (flights (busy.cache host) ≤ leaders host busy.calls + lost host busy.calls)
leaders_single_example = leaders_single busy busy-Reachable host

-- The leader is dropped, then the time goes on and the other call looks again.
abbrev late : System
late = record (drop_call 0 busy) { now = 10 ^ 10 }

abbrev again : System
again = look 1 host (record late { calls = modify 1 (λ c. record c { phase = asking }) late.calls })

late-Steps : Steps (drop_call 0 busy) again
unfolding look
late-Steps = more (more (more rest (tick (10 ^ 10))) (wakes 1 host refl)) (looks 1 host refl)

dropped_leader_sticks_example :
    (again.cache host ≡ some in_flight)
    × (leaders host again.calls ≡ 0)
    × (returned host again.calls ≡ returned host busy.calls)
unfolding look
dropped_leader_sticks_example =
    dropped_leader_sticks busy again 0 host busy-Reachable refl late-Steps

abbrev answered : System
answered = publish 0 host (some (v4 7 ∷ [])) none busy

answer_fresh_example :
    (k : ℕ) × (t : ℕ) × (nth k answered.log
      ≡ some (record { name = host; answer = some (v4 7 ∷ []); time = t }))
    × (t ≤ 0)
    × (0 < t + 300 * 10 ^ 9)
unfolding look publish
answer_fresh_example =
    answer_fresh answered 0 host (some (v4 7 ∷ [])) 0
      (next busy-Reachable (answers 0 host (some (v4 7 ∷ [])) none refl)) refl
