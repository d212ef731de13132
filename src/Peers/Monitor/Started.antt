-- ===== src/Peers/Monitor/Started.antt =====
-- The peers that the monitor starts to connect to.
use gossip_observer.Extern.{Extern}
use gossip_observer.Peers.Monitor.{
  Turn, MonitorEvent, Loop, Monitor, count_below_target, inner_turn, monitor_step,
  peer_count_monitor,
}
use gossip_observer.Peers.Rotation.{IsQuiet, run-extends, next_eligible_peer_front}
use gossip_observer.Peers.State.{PeerConnManager, run}
use gossip_observer.Prelude.{
  ℕ, ◌<◌, ◌≡◌, refl, sym, ap, ◌∙◌, true, false, List, [], ◌∷◌, ◌++◌, ok, map, All, length,
  append_assoc, append-nil, arith,
}
use gossip_observer.Types.Peers.{PeerConnectionInfo}

below-true : (n m : ℕ) → n < m → count_below_target n m ≡ true
unfolding count_below_target
below-true n m h = ground arith

module _ (x : Extern) where
  abbrev pub start : PeerConnManager x → Monitor x
  start mgr = record { conn_mgr = mgr; loop = Loop.outer; started = []; idle = 0 }

  -- Nobody rotates or empties the queue, the task is not cancelled, and there are too few peers.
  pub record IsBusy (t : Turn x) : Type 0 where
    pub quiet_before : All (IsQuiet x) t.waiting
    pub quiet_between : All (IsQuiet x) t.between
    pub running : t.is_cancelled ≡ false
    pub below : t.peer_count < t.target

  inner_turn_lem :
      (m : Monitor x) (t : Turn x) (p : PeerConnectionInfo x) (ps : List (PeerConnectionInfo x))
      → IsBusy t
      → m.conn_mgr.eligible_peers ≡ p ∷ ps
      → (next : Monitor x) × (extra : List (PeerConnectionInfo x)) × (inner_turn x t m ≡ ok next)
        × (next.conn_mgr.eligible_peers ≡ ps ++ extra)
        × (next.started ≡ m.started ++ p ∷ [])
        × (next.idle ≡ m.idle)
        × (next.loop ≡ Loop.inner)
  unfolding inner_turn
  inner_turn_lem m t p ps h e =
      let (more, grown) = run-extends x t.waiting m.conn_mgr h.quiet_before in
      let (after, extra, asked, queue) =
        next_eligible_peer_front x t.now (run x m.conn_mgr t.waiting) t.between p (ps ++ more)
          h.quiet_between (grown ∙ ap (λ l. l ++ more) e) in
      (
        record m { conn_mgr = after; loop = Loop.inner; started = m.started ++ p ∷ [] },
        more ++ extra,
        rw (asked, h.running, below-true t.peer_count t.target h.below) refl,
        queue ∙ append_assoc ps more extra,
        refl,
        refl,
        refl,
      )

  turns_in_turn :
      (ts : List (Turn x)) (m : Monitor x) (rest tail : List (PeerConnectionInfo x))
      → length ts ≡ length rest
      → All IsBusy ts
      → m.loop ≡ Loop.inner
      → m.conn_mgr.eligible_peers ≡ rest ++ tail
      → (last : Monitor x) × (peer_count_monitor x m (map MonitorEvent.turn ts) ≡ ok last)
        × (last.started ≡ m.started ++ rest)
        × (last.idle ≡ m.idle)
        × (last.loop ≡ Loop.inner)
  unfolding peer_count_monitor monitor_step
  turns_in_turn [] m [] tail n h l e = (m, refl, sym (append-nil m.started), refl, l)
  turns_in_turn [] m (p ∷ rest) tail n h l e = absurd (omega (arith, n))
  turns_in_turn (t ∷ ts) m [] tail n h l e = absurd (omega (arith, n))
  turns_in_turn (t ∷ ts) m (p ∷ rest) tail n (h, hs) l e =
      let (next, extra, goes, queue, started, idle, loop) =
        inner_turn_lem m t p (rest ++ tail) h e in
      let step : monitor_step x m.loop (MonitorEvent.turn t) m ≡ ok next =
        ap (λ k. monitor_step x k (MonitorEvent.turn t) m) l ∙ goes in
      let (last, runs, started', idle', loop') =
        turns_in_turn ts next rest (tail ++ extra) (omega (arith, n)) hs loop
          (queue ∙ append_assoc rest tail extra) in
      (
        last,
        rw step runs,
        started' ∙ ap (λ k. k ++ rest) started ∙ append_assoc m.started (p ∷ []) rest,
        idle' ∙ idle,
        loop',
      )

  -- When the timer finds too few peers, and for as many turns of the inner loop as there are eligible
  -- peers there still are too few, the task is not cancelled and nobody else rotates or empties the
  -- queue, then the monitor starts one attempt to connect to each eligible peer, in the order of the
  -- queue, never sleeps for want of one, and goes on with the inner loop. New peers may be added
  -- meanwhile.
  pub peer_count_monitor-each_once :
      (mgr : PeerConnManager x) (peer_count target : ℕ) (ts : List (Turn x))
      → peer_count < target
      → length ts ≡ length mgr.eligible_peers
      → All IsBusy ts
      → (last : Monitor x) × (peer_count_monitor x
            (start mgr)
            (MonitorEvent.tick peer_count target ∷ map MonitorEvent.turn ts)
          ≡ ok last)
        × (last.started ≡ mgr.eligible_peers)
        × (last.idle ≡ 0)
        × (last.loop ≡ Loop.inner)
  unfolding peer_count_monitor monitor_step
  peer_count_monitor-each_once mgr peer_count target ts b n h =
      rw (below-true peer_count target b) (
        turns_in_turn ts (record (start mgr) { loop = Loop.inner }) mgr.eligible_peers [] n h refl
          (sym (append-nil _)))
