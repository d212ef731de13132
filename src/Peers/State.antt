-- ===== src/Peers/State.antt =====
-- The state of `PeerConnManager`, its messages with `handle_msg`, and the loop over the mailbox.
use gossip_observer.Extern.{Extern}
use gossip_observer.Prelude.{
  ℕ, ◌+◌, ◌%◌, ◌^◌, ◌≡◌, ap, true, false, List, [], ◌∷◌, ◌++◌, Option, none, some, filter, dec_lt,
  length,
}
use gossip_observer.Prelude.Map.{contains, add}
use gossip_observer.Prelude.Text.{Text, Text-discrete}
use gossip_observer.Types.Peers.{PeerSpecifier, PeerConnectionInfo}

-- `conn_time` is in nanoseconds.
pub record PendingConnection (x : Extern) : Type 0 where
  pub peer : PeerSpecifier x
  pub conn_time : ℕ

pub data ConnManagerMsg (x : Extern) : Type 0 where
  add_pending_conn : PendingConnection x → ConnManagerMsg x
  remove_pending_conn : PeerSpecifier x → ConnManagerMsg x
  sweep_pending_connections : ℕ → ConnManagerMsg x
  get_pending_connections : ConnManagerMsg x
  peek_eligible_peer : ConnManagerMsg x
  add_eligible_peer : PeerConnectionInfo x → ConnManagerMsg x
  get_eligible_peer_count : ConnManagerMsg x
  rotate_eligible_peers : ConnManagerMsg x
  empty_eligible_peers : ConnManagerMsg x

-- What is sent on the response channel of a message.
pub data ConnReply (x : Extern) : Type 0 where
  nothing : ConnReply x
  pending : List (PendingConnection x) → ConnReply x
  peeked : Option (PeerConnectionInfo x) → ConnReply x
  count : ℕ → ConnReply x

-- `pending_notifier` is the value that the watch channel holds.
pub record PeerConnManager (x : Extern) : Type 0 where
  pub eligible_peers : List (PeerConnectionInfo x)
  pub eligible_peer_pubkeys : List x.PublicKey
  pub pending_conns : List (PendingConnection x)
  pub pending_notifier : List Text

module _ (x : Extern) where
  abbrev pub new_manager : PeerConnManager x
  new_manager = record {
    eligible_peers = [];
    eligible_peer_pubkeys = [];
    pending_conns = [];
    pending_notifier = [];
  }

  unfoldable pub build_pending_filter : List (PendingConnection x) → List Text
  build_pending_filter [] = []
  build_pending_filter (p ∷ ps) =
      add Text-discrete (x.pubkey_to_string p.peer.pubkey) (build_pending_filter ps)

  PeerSpecifier_dec :
      (a b : PeerSpecifier x) → Dec (a.pubkey ≡ b.pubkey) → Dec (a.addr ≡ b.addr) → Dec (a ≡ b)
  PeerSpecifier_dec a b (yes p) (yes q) = yes (λ i. record { pubkey = p i; addr = q i })
  PeerSpecifier_dec a b (no p) q = no (λ e. p (ap (λ s. s.pubkey) e))
  PeerSpecifier_dec a b (yes p) (no q) = no (λ e. q (ap (λ s. s.addr) e))

  -- The derived equality.
  unfoldable pub PeerSpecifier-discrete : Discrete (PeerSpecifier x)
  unfolding PeerSpecifier_dec
  PeerSpecifier-discrete a b =
      PeerSpecifier_dec a b (x.pubkey_discrete a.pubkey b.pubkey) (x.socket_discrete a.addr b.addr)

  -- `retain(|p| p.peer != pending)`.
  unfoldable pub remove_pending :
      PeerSpecifier x → List (PendingConnection x) → List (PendingConnection x)
  remove_pending s [] = []
  remove_pending s (p ∷ ps) = elim (PeerSpecifier-discrete p.peer s) [
    | yes _ ↦ remove_pending s ps
    | no _ ↦ p ∷ remove_pending s ps
  ]

  -- `now - p.conn_time < startup_delay`, a comparison of signed durations.
  unfoldable pub sweep_pending : ℕ → ℕ → List (PendingConnection x) → List (PendingConnection x)
  sweep_pending now delay = filter (λ p. dec_lt now (p.conn_time + delay))

  -- `VecDeque::rotate_left(1)`.
  unfoldable pub rotate_left : List (PeerConnectionInfo x) → List (PeerConnectionInfo x)
  rotate_left [] = []
  rotate_left (p ∷ ps) = ps ++ p ∷ []

  abbrev pub front : List (PeerConnectionInfo x) → Option (PeerConnectionInfo x)
  front [] = none
  front (p ∷ ps) = some p

  -- Stores the pending connections and sends the new filter.
  abbrev pub set_pending : PeerConnManager x → List (PendingConnection x) → PeerConnManager x
  set_pending mgr ps = record mgr { pending_conns = ps; pending_notifier = build_pending_filter ps }

  unfoldable pub add_peer : PeerConnManager x → PeerConnectionInfo x → PeerConnManager x
  add_peer mgr peer = elim (contains x.pubkey_discrete peer.pubkey mgr.eligible_peer_pubkeys) [
    | true ↦ mgr
    | false ↦ record mgr {
      eligible_peer_pubkeys = add x.pubkey_discrete peer.pubkey mgr.eligible_peer_pubkeys;
      eligible_peers = mgr.eligible_peers ++ peer ∷ [];
    }
  ]

  unfoldable pub handle_msg :
      ℕ → PeerConnManager x → ConnManagerMsg x → PeerConnManager x × ConnReply x
  handle_msg now mgr (ConnManagerMsg.add_pending_conn p) =
      (set_pending mgr (mgr.pending_conns ++ p ∷ []), ConnReply.nothing)
  handle_msg now mgr (ConnManagerMsg.remove_pending_conn s) =
      (set_pending mgr (remove_pending s mgr.pending_conns), ConnReply.nothing)
  handle_msg now mgr (ConnManagerMsg.sweep_pending_connections delay) =
      (set_pending mgr (sweep_pending now delay mgr.pending_conns), ConnReply.nothing)
  handle_msg now mgr ConnManagerMsg.get_pending_connections =
      (mgr, ConnReply.pending mgr.pending_conns)
  handle_msg now mgr ConnManagerMsg.peek_eligible_peer =
      (mgr, ConnReply.peeked (front mgr.eligible_peers))
  handle_msg now mgr (ConnManagerMsg.add_eligible_peer peer) =
      (add_peer mgr peer, ConnReply.nothing)
  handle_msg now mgr ConnManagerMsg.get_eligible_peer_count =
      (mgr, ConnReply.count (length mgr.eligible_peers % 2 ^ 32))
  handle_msg now mgr ConnManagerMsg.rotate_eligible_peers =
      (record mgr { eligible_peers = rotate_left mgr.eligible_peers }, ConnReply.nothing)
  handle_msg now mgr ConnManagerMsg.empty_eligible_peers =
      (record mgr { eligible_peers = []; eligible_peer_pubkeys = [] }, ConnReply.nothing)

  -- The messages that the actor receives, each with the time of its handling.
  abbrev pub ConnMsgs : Type 0
  ConnMsgs = List (ℕ × ConnManagerMsg x)

  unfoldable pub run : PeerConnManager x → ConnMsgs → PeerConnManager x
  run mgr [] = mgr
  run mgr ((now, msg) ∷ msgs) = run (handle_msg now mgr msg).0 msgs
