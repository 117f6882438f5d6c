-- ===== src/Udp/Association.antt =====
-- crates/net/src/udp.rs: an association, the loop `udp_associate` with the tasks that `spawn_flow`
-- starts. An event is what one round of a `select!` receives, with the answers of the calls that
-- the round makes; a task is its position in the order of starting. `N` stands for the outbounds
-- other than `Direct`, `display` for `Target::to_string`. The relay socket and its address belong
-- to the system and are left out, as is the text of the warning. Whether a channel of tokio takes
-- a payload is a parameter, `accepts`.
use jamm_vpn.Base.{
  nth, modify, ℕ, Bool, true, false, not, ◌&&◌, ◌||◌, Option, none, some, List, [], ◌∷◌, ◌++◌, map,
  ◌==◌, if◌then◌else◌, length, drop,
}
use jamm_vpn.Base.Text.{Str, str_eq}
use jamm_vpn.Base.Maps.{Map, insert, remove}
use jamm_vpn.Error.{ok, err}
use jamm_vpn.Addr.{IpAddr, ip_eq, Target}
use jamm_vpn.Engine.{Outbound, direct, node, connect, block, Routed}
use jamm_vpn.Udp.{panicked, parse_udp_datagram, encode_udp_datagram}

abbrev pub flow_queue : ℕ
flow_queue = 64

-- `SocketAddr` of a client.
abbrev pub Peer : Type 0
Peer = IpAddr × ℕ

unfoldable pub peer_eq : Peer → Peer → Bool
unfolding ip_eq
peer_eq (a, p) (b, q) = ip_eq a b && (p == q)

-- A task of `spawn_flow`: the channel's queue, whether the channel still has its sender, whether the
-- task still runs, and what it gave its session to send.
pub record Task : Type 0 where
  pub client : Peer
  pub client_dst : Target
  pub dst : Target
  pub queue : List (List ℕ)
  pub connected : Bool
  pub running : Bool
  pub delivered : List (List ℕ)

-- `sent`: the datagrams that left the relay socket, the last one first.
pub record Association : Type 0 where
  pub listening : Bool
  pub client_addr : Option Peer
  pub flows : Map Str ℕ
  pub warned_proxy : Bool
  pub tasks : List Task
  pub sent : List (Peer × List ℕ)

pub data Event (N : Type 0) : Type 0 where
  control_read : Bool → Event N
  idle relay_failed : Event N
  datagram : Peer → List ℕ → Routed N → Bool → Event N
  task_recv : ℕ → Bool → Event N
  session_recv : ℕ → List ℕ → Bool → Event N
  session_failed : ℕ → Event N

abbrev pub start : Association
start = record {
  listening = true;
  client_addr = none;
  flows = λ key. none;
  warned_proxy = false;
  tasks = [];
  sent = [];
}

-- The sender of a task's channel goes away.
unfoldable pub hang_up : Task → Task
hang_up t = record t { connected = false }

unfoldable pub enqueue : List ℕ → Task → Task
enqueue p t = record t { queue = t.queue ++ (p ∷ []) }

-- `accepts` is whether the channel of a task takes one more payload.
unfoldable pub try_send : (Task → Bool) → List ℕ → ℕ → List Task → Option (List Task)
unfolding enqueue
try_send accepts p i ts = elim (nth i ts) [
  | none ↦ none
  | some t ↦ if accepts t then some (modify i (enqueue p) ts) else none
]

-- The task of a session that opened, with the first datagram in its queue.
unfoldable pub spawn_flow : Peer → Target → Target → List ℕ → Task
spawn_flow client client_dst dst first = record {
  client = client;
  client_dst = client_dst;
  dst = dst;
  queue = first ∷ [];
  connected = true;
  running = true;
  delivered = [];
}

-- The task's loop breaks.
unfoldable pub finish : Task → Task
finish t = record t { running = false }

-- The arm of `rx.recv()`: the next payload goes to the session, or the channel has no sender.
unfoldable pub take_next : Bool → Task → Task
unfolding finish
take_next accepted t =
    if t.running
    then elim t.queue [
      | [] ↦ if t.connected then t else finish t
      | p ∷ queue ↦
          if accepted
          then record t { queue = queue; delivered = t.delivered ++ (p ∷ []) }
          else finish t
    ]
    else t

-- The arm of `session.recv()`: an answer goes to the client.
unfoldable pub answer : ℕ → List ℕ → Bool → Association → Association
unfolding encode_udp_datagram finish
answer i payload accepted s = elim (nth i s.tasks) [
  | none ↦ s
  | some t ↦
      if t.running
      then (if accepted
          then record s { sent = (t.client, encode_udp_datagram t.client_dst payload) ∷ s.sent }
          else record s { tasks = modify i finish s.tasks })
      else s
]

-- The loop breaks, and drops the senders.
unfoldable pub stop : Association → Association
unfolding hang_up
stop s = record s { listening = false; flows = λ key. none; tasks = map hang_up s.tasks }

unfoldable pub is_direct : {N : Type 0} → Outbound N → Bool
is_direct direct = true
is_direct (node n) = false

module _ {N : Type 0} where
  unfoldable pub open_flow :
      Str → Peer → Target → List ℕ → Routed N → Bool → Association → Association
  unfolding str_eq spawn_flow is_direct
  open_flow key src target payload routed opened s = elim routed.decision [
    | block ↦ s
    | connect outbound ↦
        if opened
        then record s {
          flows = insert str_eq key (length s.tasks) s.flows;
          tasks = s.tasks ++ (spawn_flow src target routed.target payload ∷ []);
        }
        else record s { warned_proxy = s.warned_proxy || not (is_direct outbound) }
  ]

  -- A datagram with FRAG 0, by the flow of its target's text.
  unfoldable pub forward :
      (Task → Bool) → Str → Peer → Target → List ℕ → Routed N → Bool → Association → Association
  unfolding str_eq try_send open_flow hang_up
  forward accepts key src target payload routed opened s = elim (s.flows key) [
    | none ↦ open_flow key src target payload routed opened s
    | some i ↦ elim (try_send accepts payload i s.tasks) [
      | some ts ↦ record s { tasks = ts }
      | none ↦
          open_flow key src target payload routed opened
            (record s { flows = remove str_eq key s.flows; tasks = modify i hang_up s.tasks })
    ]
  ]

  module _ (accepts : Task → Bool) (display : Target → Str) (control_peer_ip : IpAddr) where
    -- A datagram of the client.
    unfoldable pub relay : Peer → List ℕ → Routed N → Bool → Association → Association
    unfolding parse_udp_datagram forward stop
    relay src buf routed opened s = elim (parse_udp_datagram buf) [
      | err panicked ↦ stop s
      | err _ ↦ s
      | ok (frag, target, off) ↦
          if frag == 0
          then forward accepts (display target) src target (drop off buf) routed opened s
          else s
    ]

    unfoldable pub recv_from : Peer → List ℕ → Routed N → Bool → Association → Association
    unfolding relay peer_eq ip_eq
    recv_from src buf routed opened s =
        if not (ip_eq src.0 control_peer_ip) then s else elim s.client_addr [
          | none ↦ relay src buf routed opened (record s { client_addr = some src })
          | some c ↦ if peer_eq c src then relay src buf routed opened s else s
        ]

    -- One round of the association's loop.
    unfoldable pub udp_associate : Event N → Association → Association
    unfolding stop recv_from
    udp_associate (control_read closed) s = if closed then stop s else s
    udp_associate idle s = elim s.client_addr [ none ↦ stop s | some c ↦ s ]
    udp_associate relay_failed s = stop s
    udp_associate (datagram src buf routed opened) s = recv_from src buf routed opened s
    udp_associate _ s = s

    -- A round of the association's loop, if it still runs, or of a task's.
    unfoldable pub step : Event N → Association → Association
    unfolding udp_associate take_next answer finish
    step (task_recv i accepted) s = record s { tasks = modify i (take_next accepted) s.tasks }
    step (session_recv i payload accepted) s = answer i payload accepted s
    step (session_failed i) s = record s { tasks = modify i finish s.tasks }
    step e s = if s.listening then udp_associate e s else s

    abbrev pub run : List (Event N) → Association → Association
    run [] s = s
    run (e ∷ es) s = run es (step e s)
