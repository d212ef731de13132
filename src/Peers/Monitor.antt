-- ===== src/Peers/Monitor.antt =====
-- `peer_count_monitor`: the watchdog that connects to eligible peers while there are too few peers.
pub mod Started
use gossip_observer.Extern.{Extern}
use gossip_observer.Peers.Rotation.{Panic, next_eligible_peer}
use gossip_observer.Peers.State.{PeerConnManager, ConnMsgs, run}
use gossip_observer.Prelude.{
  ℕ, suc, Bool, true, false, List, [], ◌∷◌, ◌++◌, Option, none, some, Result, ok, err, ◌>>=◌, ltb,
}
use gossip_observer.Types.Peers.{PeerConnectionInfo}

-- The loop that runs: the outer one, the inner one, or none.
pub data Loop : Type 0 where
  outer inner shut_down : Loop

unfoldable pub count_below_target : ℕ → ℕ → Bool
count_below_target peer_count target = ltb peer_count target

abbrev pub loop_after : Bool → Bool → Loop
loop_after true below_target = Loop.shut_down
loop_after false true = Loop.inner
loop_after false false = Loop.outer

module _ (x : Extern) where
  -- What a turn of the inner loop meets: the messages that the actor handles while it waits for the
  -- rate limiter, and between the two messages of `next_eligible_peer`; whether the task is cancelled
  -- by then; and then the number of peers and the target.
  pub record Turn : Type 0 where
    pub now : ℕ
    pub waiting : ConnMsgs x
    pub between : ConnMsgs x
    pub is_cancelled : Bool
    pub peer_count : ℕ
    pub target : ℕ

  -- What wakes the outer loop: a cancellation, or the timer with the number of peers and the target;
  -- or the next turn of the inner loop.
  pub data MonitorEvent : Type 0 where
    cancelled : MonitorEvent
    tick : ℕ → ℕ → MonitorEvent
    turn : Turn → MonitorEvent

  -- `started` are the peers for which `try_add_peer` was spawned, the latest last, and `idle` the times
  -- that no peer was eligible.
  pub record Monitor : Type 0 where
    pub conn_mgr : PeerConnManager x
    pub loop : Loop
    pub started : List (PeerConnectionInfo x)
    pub idle : ℕ

  -- Spawns the attempt to connect, or sleeps.
  abbrev pub with_peer : Option (PeerConnectionInfo x) → Monitor → Monitor
  with_peer (some new_peer) m = record m { started = m.started ++ new_peer ∷ [] }
  with_peer none m = record m { idle = suc m.idle }

  unfoldable pub inner_turn : Turn → Monitor → Result Monitor Panic
  inner_turn t m = do
    (new_peer, conn_mgr) ← next_eligible_peer x t.now (run x m.conn_mgr t.waiting) t.between
    ok (
        with_peer new_peer (record m {
          conn_mgr = conn_mgr;
          loop = loop_after t.is_cancelled (count_below_target t.peer_count t.target);
        }))

  -- An event of a loop that does not run changes nothing.
  unfoldable pub monitor_step : Loop → MonitorEvent → Monitor → Result Monitor Panic
  monitor_step Loop.outer MonitorEvent.cancelled m = ok (record m { loop = Loop.shut_down })
  monitor_step Loop.outer (MonitorEvent.tick peer_count target) m =
      ok (record m { loop = loop_after false (count_below_target peer_count target) })
  monitor_step Loop.inner (MonitorEvent.turn t) m = inner_turn t m
  monitor_step _ _ m = ok m

  unfoldable pub peer_count_monitor : Monitor → List MonitorEvent → Result Monitor Panic
  peer_count_monitor m [] = ok m
  peer_count_monitor m (e ∷ es) = do next ← monitor_step m.loop e m; peer_count_monitor next es
