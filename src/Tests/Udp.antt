-- ===== src/Tests/Udp.antt =====
-- An association whose client asks for a name server, while a stranger sends too.
use jamm_vpn.Base.{
  Bool, ◌&&◌, ltb, ℕ, ◌+◌, ◌*◌, ◌^◌, ◌≤◌, ◌≡◌, ◌↔◌, refl, true, none, some, List, [], ◌∷◌, ◌++◌,
  arith, length, drop, All,
}
use jamm_vpn.Base.Octets.{to_be, from_be}
use jamm_vpn.Base.Text.{Str}
use jamm_vpn.Error.{ok, err}
use jamm_vpn.Addr.{IpAddr, v4, Target, socket, domain, ip_eq}
use jamm_vpn.Engine.{Routed, direct, connect}
use jamm_vpn.Udp.{panicked, parse_fields, parse_udp_datagram, encode_udp_datagram}
use jamm_vpn.Udp.Datagram.{parse_udp_datagram-encode_udp_datagram, parse_udp_datagram-panicked}
use jamm_vpn.Udp.Association.{
  Task, flow_queue, Peer, Event, datagram, task_recv, session_recv, start, run, step,
}
use jamm_vpn.Udp.Binding.{IsBounded}
use jamm_vpn.Udp.Client.{run_serves_client, run_ignores_others, without}

abbrev server : Target
server = socket (v4 (8 * 2 ^ 24 + 8 * 2 ^ 16 + 8 * 2 ^ 8 + 8)) 53

abbrev loopback : IpAddr
loopback = v4 (127 * 2 ^ 24 + 1)

abbrev client : Peer
client = (loopback, 5000)

abbrev stranger : Peer
stranger = (loopback, 6000)

-- A channel that is open as long as its task runs.
abbrev has_room : Task → Bool
has_room t = t.running && ltb (length t.queue) flow_queue

has_room-IsBounded : IsBounded has_room
has_room-IsBounded t h = ground (arith, h)

-- A text for each target; the flows of these tests differ in the port.
abbrev display : Target → Str
display (domain host p) = host ++ to_be 2 p
display (socket ip p) = to_be 2 p

abbrev to_server : Routed ℕ
to_server = record {
  decision = connect direct;
  target = server;
  chosen_node = none;
  fallback = none;
  fallback_name = none;
}

-- RSV, FRAG, ATYP 1, the address, port 53, the payload.
abbrev question : List ℕ
question = 0 ∷ 0 ∷ 0 ∷ 1 ∷ 8 ∷ 8 ∷ 8 ∷ 8 ∷ 0 ∷ 53 ∷ 7 ∷ 9 ∷ []

-- It announces a domain name and ends there.
abbrev cut : List ℕ
cut = 0 ∷ 0 ∷ 0 ∷ 3 ∷ []

abbrev first_events : List (Event ℕ)
first_events = datagram client question to_server true ∷ []

abbrev later_events : List (Event ℕ)
later_events =
    datagram stranger question to_server true
    ∷ task_recv 0 true
    ∷ session_recv 0 (1 ∷ 2 ∷ []) true
    ∷ datagram client question to_server true
    ∷ []

question_layout : encode_udp_datagram server (7 ∷ 9 ∷ []) ≡ question
unfolding encode_udp_datagram to_be
question_layout = refl

answer_sent :
    (run has_room display loopback (first_events ++ later_events) start).sent
    ≡ (client, encode_udp_datagram server (1 ∷ 2 ∷ [])) ∷ []
unfolding step parse_fields to_be from_be
answer_sent = refl

bound : (run has_room display loopback first_events start).client_addr ≡ some client
unfolding step parse_fields
bound = refl

parse_udp_datagram-encode_udp_datagram_example :
    (off : ℕ) × (parse_udp_datagram (encode_udp_datagram server (7 ∷ 9 ∷ [])) ≡ ok (0, server, off))
    × (drop off (encode_udp_datagram server (7 ∷ 9 ∷ [])) ≡ 7 ∷ 9 ∷ [])
parse_udp_datagram-encode_udp_datagram_example =
    parse_udp_datagram-encode_udp_datagram server (7 ∷ 9 ∷ []) (omega arith, omega arith)

parse_udp_datagram-panicked_example :
    (parse_udp_datagram cut ≡ err panicked) ↔ ((length cut ≡ 4) × (drop 3 cut ≡ 3 ∷ []))
parse_udp_datagram-panicked_example = parse_udp_datagram-panicked cut

run_serves_client_example :
    let s = run has_room display loopback (first_events ++ later_events) start in
    All (λ d. (s.client_addr ≡ some d.0) × (ip_eq d.0.0 loopback ≡ true)) s.sent
    × All (λ t. (s.client_addr ≡ some t.client) × (length t.queue ≤ flow_queue)) s.tasks
run_serves_client_example =
    run_serves_client has_room has_room-IsBounded display loopback (first_events ++ later_events)

run_ignores_others_example :
    run has_room display loopback later_events (run has_room display loopback first_events start)
    ≡ run has_room display loopback
        (without client later_events)
        (run has_room display loopback first_events start)
run_ignores_others_example =
    run_ignores_others has_room has_room-IsBounded display loopback client first_events later_events
      bound
