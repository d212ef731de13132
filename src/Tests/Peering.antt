-- ===== src/Tests/Peering.antt =====
-- Short histories of the peer connection manager, and attempts on a peer.
use gossip_observer.Peers.State.{
  PeerConnManager, ConnManagerMsg, ConnMsgs, new_manager, PeerSpecifier-discrete, run,
}
use gossip_observer.Peers.Eligible.{IsWellFormed, find_peer, first_run, run-eligible}
use gossip_observer.Peers.Monitor.{Turn, MonitorEvent, Loop, Monitor, peer_count_monitor}
use gossip_observer.Peers.Monitor.Started.{IsBusy, peer_count_monitor-each_once}
use gossip_observer.Peers.Monitor.Started as Started
use gossip_observer.Peers.Pending.{pending_times, times_run, run-pending}
use gossip_observer.Peers.Connect.{Clock, try_add_peer, try_connect, sort_specs}
use gossip_observer.Peers.Connect.Order.{only_clearnet, only_tor, sort_specs-clearnet_first}
use gossip_observer.Peers.Connect.Tried.{IsFirstSuccess, try_add_peer_tried}
use gossip_observer.Peers.Connect.Withdrawn.{weave, try_add_peer_withdrawn, try_add_peer_announced}
use gossip_observer.Prelude.{
  ℕ, ◌+◌, ◌≡◌, ◌↔◌, refl, Bool, true, false, List, [], ◌∷◌, ◌++◌, Option, none, some, Result, ok,
  err, arith, map, Any, inl, inr, ◌==◌, if◌then◌else◌,
}
use gossip_observer.Prelude.Map.{contains}
use gossip_observer.Prelude.Text.{Text, Text-discrete, codes}
use gossip_observer.Tests.World.{world}
use gossip_observer.Types.Peers.{PeerSpecifier, PeerConnectionInfo, split}

-- The addresses 3 and 2 are onion addresses.
abbrev peer : ℕ → PeerConnectionInfo world
peer k = record { pubkey = k; addrs = 3 ∷ 10 ∷ 2 ∷ 11 ∷ [] }

abbrev at : ℕ → PeerSpecifier world
at a = record { pubkey = 7; addr = a }

-- Each address is announced one second after the one before.
abbrev clock : Clock world
clock = record { announced = λ n. 1 + n; handled = λ n. 2 + n; removed = λ n. 9 + n }

abbrev history : ConnMsgs world
history =
    (1, ConnManagerMsg.add_eligible_peer (peer 7))
    ∷ (2, ConnManagerMsg.add_eligible_peer (peer 8))
    ∷ (3, ConnManagerMsg.add_eligible_peer (record { pubkey = 7; addrs = [] }))
    ∷ (4, ConnManagerMsg.add_pending_conn (record { peer = at 10; conn_time = 4 }))
    ∷ (5, ConnManagerMsg.rotate_eligible_peers)
    ∷ (9, ConnManagerMsg.sweep_pending_connections 6)
    ∷ []

abbrev manager : PeerConnManager world
manager = run world (new_manager world) history

-- Only the socket 11 answers, or none at all.
abbrev answers : ℕ → PeerSpecifier world → Result (Unit {0}) Text
answers n s = if s.addr == 11 then ok tt else err (codes "no")

abbrev silent : ℕ → PeerSpecifier world → Result (Unit {0}) Text
silent n s = err (codes "no")

sort_specs_test : sort_specs world (split world (peer 7)) ≡ at 10 ∷ at 11 ∷ at 3 ∷ at 2 ∷ []
unfolding sort_specs split gossip_observer.Types.Peers.compare_for_sort
sort_specs_test = refl

tried_test : (try_add_peer world answers clock (peer 7)).tried ≡ at 10 ∷ at 11 ∷ []
unfolding try_add_peer try_connect sort_specs split gossip_observer.Types.Peers.compare_for_sort
tried_test = refl

run-eligible_example :
    IsWellFormed world manager
    × ((k : ℕ) → find_peer world k manager.eligible_peers ≡ first_run world k none history)
run-eligible_example = run-eligible world history

abbrev turn : Turn world
turn = record {
  now = 10;
  waiting = (9, ConnManagerMsg.get_pending_connections) ∷ [];
  between = [];
  is_cancelled = false;
  peer_count = 3;
  target = 4;
}

peer_count_monitor-each_once_example :
    (last : Monitor world) × (peer_count_monitor world
        (Started.start world manager)
        (MonitorEvent.tick 2 4 ∷ MonitorEvent.turn turn ∷ MonitorEvent.turn turn ∷ [])
      ≡ ok last)
    × (last.started ≡ manager.eligible_peers)
    × (last.idle ≡ 0)
    × (last.loop ≡ Loop.inner)
unfolding run gossip_observer.Peers.State.handle_msg gossip_observer.Peers.State.rotate_left
    gossip_observer.Peers.State.add_peer contains gossip_observer.Prelude.Map.add
    gossip_observer.Prelude.ℕ_discrete
peer_count_monitor-each_once_example =
    peer_count_monitor-each_once world manager 2 4 (turn ∷ turn ∷ []) (omega arith) refl
      (busy, (busy, tt))
  where
    busy : IsBusy world turn
    busy = record {
      quiet_before = (tt, tt);
      quiet_between = tt;
      running = refl;
      below = omega arith;
    }

run-pending_example :
    (pending_times world (at 10) manager.pending_conns ≡ times_run world (at 10) [] history)
    × ((contains Text-discrete (7 ∷ []) manager.pending_notifier ≡ true)
        ↔ Any (λ p. world.pubkey_to_string p.peer.pubkey ≡ 7 ∷ []) manager.pending_conns)
run-pending_example = run-pending world history (at 10) (7 ∷ [])

sort_specs-clearnet_first_example :
    sort_specs world (split world (peer 7))
    ≡ only_clearnet world (split world (peer 7)) ++ only_tor world (split world (peer 7))
sort_specs-clearnet_first_example = sort_specs-clearnet_first world (split world (peer 7))

try_add_peer_tried_example :
    let a = try_add_peer world answers clock (peer 7) in
    IsFirstSuccess world answers 0
      (only_clearnet world (split world (peer 7)) ++ only_tor world (split world (peer 7)))
      (a.tried, a.connected)
try_add_peer_tried_example = try_add_peer_tried world answers clock (peer 7)

try_add_peer_withdrawn_example :
    let sent = (try_add_peer world silent clock (peer 7)).sent_after in
    pending_times world
      (at 2)
      (run world manager
        (weave world (((1, ConnManagerMsg.peek_eligible_peer) ∷ []) ∷ []) sent)).pending_conns
    ≡ []
unfolding try_add_peer try_connect sort_specs split gossip_observer.Types.Peers.compare_for_sort
try_add_peer_withdrawn_example =
    try_add_peer_withdrawn world silent clock (peer 7) manager
      (((1, ConnManagerMsg.peek_eligible_peer) ∷ []) ∷ []) (at 2) refl (inr (inr (inl refl)))
      ((tt, tt), tt)

-- A sweep before the attempt expires comes in between.
try_add_peer_announced_example :
    let a = try_add_peer world silent clock (peer 7) in
    Any
      (λ t. t ≡ 3)
      (pending_times world
        (at 3)
        (run world manager (
          weave world
            ([] ∷ ((4, ConnManagerMsg.sweep_pending_connections 5) ∷ []) ∷ [])
            a.sent_before)).pending_conns)
unfolding split
try_add_peer_announced_example =
    try_add_peer_announced world silent clock (peer 7) manager
      ([] ∷ ((4, ConnManagerMsg.sweep_pending_connections 5) ∷ []) ∷ []) (at 10 ∷ at 11 ∷ []) (at 3)
      (at 2 ∷ []) refl (tt, ((omega arith, tt), tt))
