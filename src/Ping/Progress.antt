-- ===== src/Ping/Progress.antt =====
-- How a collector becomes active, and what its state says.
use gossip_observer.Ping.{
  CollectorState, Info, Request, Wake, PingEnd, progress, ping, ping_controller,
}
use gossip_observer.Prelude.{
  ℕ, suc, ◌↔◌, ◌≤◌, ◌<◌, ◌≡◌, refl, true, false, List, [], ◌∷◌, length, arith, All,
}

-- The values of a collector that has eligible peers and enough connections.
pub record IsConnected (info : Info) : Type 0 where
  pub has_peers : 0 < info.eligible_peers
  pub has_connections : 0 < info.peer_count
  pub enough : info.target_count ≤ info.peer_count

-- The controller is reached, with such values.
abbrev pub IsGoodWake : Wake → Type 0
IsGoodWake (Wake.woken info true) = IsConnected info
IsGoodWake _ = ⊥

ping_connected :
    (s : CollectorState) (info : Info)
    → IsConnected info
    → ping s info true ≡ (progress s info, Request.send_status)
unfolding ping
ping_connected CollectorState.running info h = let p = h.has_peers in ground arith
ping_connected CollectorState.received_peers info h = let p = h.has_peers in ground arith
ping_connected CollectorState.connecting info h = let p = h.has_peers in ground arith
ping_connected CollectorState.active info h = let p = h.has_peers in ground arith

progress_connecting :
    (info : Info)
    → IsConnected info
    → (progress CollectorState.received_peers info ≡ CollectorState.connecting)
      × (progress CollectorState.connecting info ≡ CollectorState.active)
      × (progress CollectorState.active info ≡ CollectorState.active)
progress_connecting info h =
    let p = h.has_connections in let q = h.enough in (ground arith, ground arith, ground arith)

-- What a list of turns sends when each is a heartbeat.
abbrev pub heartbeats : List Wake → List Request
heartbeats [] = []
heartbeats (w ∷ ws) = Request.send_status ∷ heartbeats ws

-- How many good turns a state needs to become active.
abbrev pub steps_left : CollectorState → ℕ
steps_left CollectorState.running = 3
steps_left CollectorState.received_peers = 2
steps_left CollectorState.connecting = 1
steps_left CollectorState.active = 0

progress_closer :
    (s : CollectorState) (info : Info)
    → IsConnected info
    → (n : ℕ) → steps_left s ≤ suc n
    → steps_left (progress s info) ≤ n
progress_closer CollectorState.running info h n le = omega arith
progress_closer CollectorState.received_peers info h n le =
    let (e, _, _) = progress_connecting info h in rw (e) (omega arith)
progress_closer CollectorState.connecting info h n le =
    let (_, e, _) = progress_connecting info h in rw (e) (omega arith)
progress_closer CollectorState.active info h n le =
    let (_, _, e) = progress_connecting info h in rw (e) (omega arith)

-- From a state that needs no more turns than there are, when in each turn the controller is reached,
-- peers are eligible and the connections are at least one and at least the target, the task sends
-- nothing but heartbeats, one per turn, and is in the active state at the end. Three turns are enough for
-- every state.
pub becomes_active :
    (s : CollectorState) (ws : List Wake)
    → All IsGoodWake ws
    → steps_left s ≤ length ws
    → ping_controller s ws ≡ (heartbeats ws, (CollectorState.active, PingEnd.waiting))
unfolding ping_controller
becomes_active CollectorState.running [] h le = absurd (omega arith)
becomes_active CollectorState.received_peers [] h le = absurd (omega arith)
becomes_active CollectorState.connecting [] h le = absurd (omega arith)
becomes_active CollectorState.active [] h le = refl
becomes_active s (Wake.woken info true ∷ ws) (h, hs) le =
    rw
      (
        ping_connected s info h,
        becomes_active (progress s info) ws hs (progress_closer s info h (length ws) le),
      )
      refl
becomes_active s (Wake.woken info false ∷ ws) (h, hs) le = absurd h
becomes_active s (Wake.cancelled ∷ ws) (h, hs) le = absurd h
becomes_active s (Wake.no_address ∷ ws) (h, hs) le = absurd h

-- After a turn that reaches the controller, in whichever state it began: the collector is running
-- exactly when it has no eligible peers, it has sent a heartbeat exactly when it has some, and if it
-- is active then its connections reach the target.
pub ping_lem :
    (s : CollectorState) (info : Info)
    → (((ping s info true).0 ≡ CollectorState.running) ↔ (info.eligible_peers ≡ 0))
      × (((ping s info true).1 ≡ Request.send_status) ↔ (0 < info.eligible_peers))
      × ((ping s info true).0 ≡ CollectorState.active → info.target_count ≤ info.peer_count)
unfolding ping
ping_lem CollectorState.running info = (
  (λ e. ground arith, λ e. ground arith),
  (λ e. ground arith, λ e. ground arith),
  λ e. ground arith,
)
ping_lem CollectorState.received_peers info = (
  (λ e. ground arith, λ e. ground arith),
  (λ e. ground arith, λ e. ground arith),
  λ e. ground arith,
)
ping_lem CollectorState.connecting info = (
  (λ e. ground arith, λ e. ground arith),
  (λ e. ground arith, λ e. ground arith),
  λ e. ground arith,
)
ping_lem CollectorState.active info = (
  (λ e. ground arith, λ e. ground arith),
  (λ e. ground arith, λ e. ground arith),
  λ e. ground arith,
)
