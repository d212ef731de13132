-- ===== src/Tests/Pinging.antt =====
-- The ping task of a collector that connects to its peers.
use gossip_observer.Ping.{CollectorState, Info, Request, Wake, PingEnd, ping, ping_controller}
use gossip_observer.Ping.Progress.{IsConnected, becomes_active, ping_lem, heartbeats}
use gossip_observer.Prelude.{◌≡◌, ◌↔◌, ◌≤◌, ◌<◌, List, [], ◌∷◌, true, arith}

abbrev connected : Info
connected = record { peer_count = 6; eligible_peers = 9; target_count = 5 }

connected-IsConnected : IsConnected connected
connected-IsConnected = record {
  has_peers = omega arith;
  has_connections = omega arith;
  enough = omega arith;
}

abbrev turns : List Wake
turns = Wake.woken connected true ∷ Wake.woken connected true ∷ Wake.woken connected true ∷ []

becomes_active_example :
    ping_controller CollectorState.running turns
    ≡ (heartbeats turns, (CollectorState.active, PingEnd.waiting))
becomes_active_example =
    becomes_active CollectorState.running turns
      (connected-IsConnected, (connected-IsConnected, (connected-IsConnected, tt))) (omega arith)

ping_lem_example :
    (((ping CollectorState.connecting connected true).0 ≡ CollectorState.running)
      ↔ (connected.eligible_peers ≡ 0))
    × (((ping CollectorState.connecting connected true).1 ≡ Request.send_status)
        ↔ (0 < connected.eligible_peers))
    × ((ping CollectorState.connecting connected true).0 ≡ CollectorState.active
        → connected.target_count ≤ connected.peer_count)
ping_lem_example = ping_lem CollectorState.connecting connected
