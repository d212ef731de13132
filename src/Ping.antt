-- ===== src/Ping.antt =====
-- gossip_collector/src/main.rs `ping_controller`: the states of a collector and what it sends to the
-- controller every 90 seconds.
pub mod Progress
use gossip_observer.Prelude.{
  ℕ, Bool, true, false, List, [], ◌∷◌, Option, none, some, ltb, leb, ◌==◌, if◌then◌else◌,
}

pub data CollectorState : Type 0 where
  running received_peers connecting active : CollectorState

-- The fields of `CollectorInfo` that the task reads.
pub record Info : Type 0 where
  pub peer_count : ℕ
  pub eligible_peers : ℕ
  pub target_count : ℕ

pub data Request : Type 0 where
  no_request register send_status : Request

-- What ends a sleep: a cancellation, a failure to read the node's address, or the current values, with
-- whether the controller can be reached.
pub data Wake : Type 0 where
  cancelled no_address : Wake
  woken : Info → Bool → Wake

-- The `match` on the state, in a turn that does not register.
abbrev pub progress : CollectorState → Info → CollectorState
progress CollectorState.running info = CollectorState.received_peers
progress CollectorState.received_peers info =
    if ltb 0 info.peer_count then CollectorState.connecting else CollectorState.received_peers
progress CollectorState.connecting info =
    if leb info.target_count info.peer_count
    then CollectorState.active
    else CollectorState.connecting
progress CollectorState.active info =
    if ltb info.peer_count info.target_count
    then CollectorState.connecting
    else CollectorState.active

-- The end of a turn: without eligible peers the collector starts again, otherwise it sends its
-- heartbeat.
abbrev pub heartbeat : CollectorState → Info → CollectorState × Request
heartbeat state info =
    if info.eligible_peers == 0
    then (CollectorState.running, Request.no_request)
    else (state, Request.send_status)

-- One turn of the loop. The answers to the requests are only logged.
unfoldable pub ping : CollectorState → Info → Bool → CollectorState × Request
ping state info false = (state, Request.no_request)
ping CollectorState.running info true =
    if ltb 0 info.eligible_peers
    then heartbeat (progress CollectorState.running info) info
    else (CollectorState.running, Request.register)
ping CollectorState.received_peers info true =
    heartbeat (progress CollectorState.received_peers info) info
ping CollectorState.connecting info true = heartbeat (progress CollectorState.connecting info) info
ping CollectorState.active info true = heartbeat (progress CollectorState.active info) info

-- How the task ends: it waits for its next turn, or it has returned `Ok(())` or the error of
-- `next_address`.
pub data PingEnd : Type 0 where
  waiting shut_down address_error : PingEnd

-- The requests that are sent, the state at the end, and how the task ends.
unfoldable pub ping_controller :
    CollectorState → List Wake → List Request × (CollectorState × PingEnd)
ping_controller state [] = ([], (state, PingEnd.waiting))
ping_controller state (Wake.cancelled ∷ _) = ([], (state, PingEnd.shut_down))
ping_controller state (Wake.no_address ∷ _) = ([], (state, PingEnd.address_error))
ping_controller state (Wake.woken info reachable ∷ ws) =
    let (next, request) = ping state info reachable in
    let rest = ping_controller next ws in (request ∷ rest.0, rest.1)
