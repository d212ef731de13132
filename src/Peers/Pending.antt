-- ===== src/Peers/Pending.antt =====
-- The pending connections of one peer address, and the filter that the exporter reads.
use gossip_observer.Extern.{Extern}
use gossip_observer.Peers.State.{
  PendingConnection, PeerConnManager, ConnManagerMsg, ConnMsgs, new_manager, build_pending_filter,
  PeerSpecifier-discrete, remove_pending, sweep_pending, add_peer, handle_msg, run,
}
use gossip_observer.Peers.Eligible.{run-eligible}
use gossip_observer.Prelude.{
  ℕ, ◌+◌, ◌≡◌, refl, ap, ◌∙◌, true, List, [], ◌∷◌, ◌++◌, arith, filter, dec_lt, ite, Any, ◌↔◌,
}
use gossip_observer.Prelude.Map.{contains, contains-add}
use gossip_observer.Prelude.Text.{Text, Text-discrete}
use gossip_observer.Types.Peers.{PeerSpecifier}

module _ (x : Extern) where
  -- The times at which attempts on `s` were added, those of them that are pending.
  abbrev pub pending_times : PeerSpecifier x → List (PendingConnection x) → List ℕ
  pending_times s [] = []
  pending_times s (p ∷ ps) =
      ite (PeerSpecifier-discrete x p.peer s) (p.conn_time ∷ pending_times s ps)
        (pending_times s ps)

  -- The specification: what one message does to them.
  abbrev pub times_step : PeerSpecifier x → ℕ → List ℕ → ConnManagerMsg x → List ℕ
  times_step s now ts (ConnManagerMsg.add_pending_conn p) =
      ite (PeerSpecifier-discrete x p.peer s) (ts ++ p.conn_time ∷ []) ts
  times_step s now ts (ConnManagerMsg.remove_pending_conn r) =
      ite (PeerSpecifier-discrete x r s) [] ts
  times_step s now ts (ConnManagerMsg.sweep_pending_connections delay) =
      filter (λ t. dec_lt now (t + delay)) ts
  times_step s now ts _ = ts

  abbrev pub times_run : PeerSpecifier x → List ℕ → ConnMsgs x → List ℕ
  times_run s ts [] = ts
  times_run s ts ((now, msg) ∷ msgs) = times_run s (times_step s now ts msg) msgs

  times-append :
      (s : PeerSpecifier x) (ps : List (PendingConnection x)) (p : PendingConnection x)
      → pending_times s (ps ++ p ∷ [])
        ≡ ite
            (PeerSpecifier-discrete x p.peer s)
            (pending_times s ps ++ p.conn_time ∷ [])
            (pending_times s ps)
  times-append s [] p = refl
  times-append s (q ∷ ps) p = ground (arith, times-append s ps p)

  times-remove :
      (s r : PeerSpecifier x) (ps : List (PendingConnection x))
      → pending_times s (remove_pending x r ps)
        ≡ ite (PeerSpecifier-discrete x r s) [] (pending_times s ps)
  unfolding remove_pending
  times-remove s r [] = ground arith
  times-remove s r (p ∷ ps) = ground (arith, times-remove s r ps)

  times-sweep :
      (s : PeerSpecifier x) (now delay : ℕ) (ps : List (PendingConnection x))
      → pending_times s (sweep_pending x now delay ps)
        ≡ filter (λ t. dec_lt now (t + delay)) (pending_times s ps)
  unfolding sweep_pending
  times-sweep s now delay [] = refl
  times-sweep s now delay (p ∷ ps) = ground (arith, times-sweep s now delay ps)

  add_peer-pending :
      (mgr : PeerConnManager x) (p : _) → (add_peer x mgr p).pending_conns ≡ mgr.pending_conns
  unfolding add_peer
  add_peer-pending mgr p = ground arith

  handle_msg-times :
      (s : PeerSpecifier x) (now : ℕ) (mgr : PeerConnManager x) (msg : ConnManagerMsg x)
      → pending_times s (handle_msg x now mgr msg).0.pending_conns
        ≡ times_step s now (pending_times s mgr.pending_conns) msg
  unfolding handle_msg
  handle_msg-times s now mgr (ConnManagerMsg.add_pending_conn p) =
      times-append s mgr.pending_conns p
  handle_msg-times s now mgr (ConnManagerMsg.remove_pending_conn r) =
      times-remove s r mgr.pending_conns
  handle_msg-times s now mgr (ConnManagerMsg.sweep_pending_connections delay) =
      times-sweep s now delay mgr.pending_conns
  handle_msg-times s now mgr (ConnManagerMsg.add_eligible_peer p) =
      ap (pending_times s) (add_peer-pending mgr p)
  handle_msg-times s now mgr _ = refl

  pub run-times :
      (s : PeerSpecifier x) (msgs : ConnMsgs x) (mgr : PeerConnManager x)
      → pending_times s (run x mgr msgs).pending_conns
        ≡ times_run s (pending_times s mgr.pending_conns) msgs
  unfolding run
  run-times s [] mgr = refl
  run-times s ((now, msg) ∷ msgs) mgr =
      run-times s msgs (handle_msg x now mgr msg).0
      ∙ ap (λ ts. times_run s ts msgs) (handle_msg-times s now mgr msg)

  filter-Any :
      (t : Text) (ps : List (PendingConnection x))
      → (contains Text-discrete t (build_pending_filter x ps) ≡ true)
        ↔ Any (λ p. x.pubkey_to_string p.peer.pubkey ≡ t) ps
  unfolding build_pending_filter contains
  filter-Any t [] = ground arith
  filter-Any t (p ∷ ps) = ground (
    arith,
    filter-Any t ps,
    contains-add Text-discrete t (x.pubkey_to_string p.peer.pubkey) (build_pending_filter x ps),
  )

  -- After any history the pending connections to a peer address are the attempts on it, in order,
  -- that were added, were not removed since, and were younger than the startup delay at every sweep.
  -- The watch channel holds a key's text exactly when a connection to that key is pending.
  pub run-pending :
      (msgs : ConnMsgs x) (s : PeerSpecifier x) (t : Text)
      → let mgr = run x (new_manager x) msgs in
        (pending_times s mgr.pending_conns ≡ times_run s [] msgs)
        × ((contains Text-discrete t mgr.pending_notifier ≡ true)
            ↔ Any (λ p. x.pubkey_to_string p.peer.pubkey ≡ t) mgr.pending_conns)
  run-pending msgs s t =
      let (w, _) = run-eligible x msgs in
      (run-times s msgs (new_manager x), rw w.notified (filter-Any t _))
