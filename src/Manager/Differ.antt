-- ===== src/Manager/Differ.antt =====
-- `collector_gossip_differ`, the task that compares the collectors' graphs on a schedule and gives
-- the results to the task that writes files.
pub mod Written
use gossip_observer.Extern.{Extern}
use gossip_observer.GraphDiff.{CollectorGossipGraph, GraphDiff, FullGraphDiff}
use gossip_observer.GraphDiff.Compare.{compute_graph_differences}
use gossip_observer.Manager.Handle.{handle_msg, run}
use gossip_observer.Manager.State.{CollectorManager, CollectorManagerMsg, Reply}
use gossip_observer.Prelude.{
  ℕ, Bool, true, false, List, [], ◌∷◌, ◌++◌, Option, none, some, Result, ok, err, ◌>>=◌, ok_or,
}
use gossip_observer.Prelude.Text.{Text, codes}

-- What the task takes from serde_json and chrono: the bytes of a value, and the suffix of a time.
pub record Json (x : Extern) : Type 1 where
  pub Bytes : Type 0
  pub diffs_to_json : List (Text × GraphDiff) → Option Bytes
  pub graph_to_json : CollectorGossipGraph x → Option Bytes
  pub ts_suffix : ℕ → Text

-- Why the task ends.
pub data DifferEnd : Type 0 where
  shut_down schedule_error graphs_error json_error writer_gone : DifferEnd

module _ (x : Extern) (json : Json x) where
  -- A request to write a file.
  pub record WriteRequest : Type 0 where
    pub path : Text
    pub json_bytes : json.Bytes

  -- What ends a sleep: a cancellation, a schedule without a next time, or its time, with the messages
  -- that the actor handled since the last one.
  pub data DifferWake : Type 0 where
    cancelled no_next_time : DifferWake
    woken : List (ℕ × CollectorManagerMsg x) → ℕ → DifferWake

  module _ (base_dir : Text) where
    abbrev pub diff_path : ℕ → Text
    diff_path now = base_dir ++ (codes "/" ++ (codes "collector_diffs-" ++ json.ts_suffix now))

    abbrev pub controller_path : ℕ → Text
    controller_path now =
        base_dir ++ (codes "/" ++ (codes "controller_graph-" ++ json.ts_suffix now))

    abbrev pub graph_path : Text → ℕ → Text
    graph_path uuid now =
        base_dir ++ (codes "/collector-" ++ (uuid ++ (codes "-" ++ json.ts_suffix now)))

    -- The requests that were sent, and why the task ends, if it does.
    abbrev pub Sent : Type 0
    Sent = List WriteRequest × Option DifferEnd

    abbrev pub and_then : Sent → (List WriteRequest → Sent) → Sent
    and_then (sent, none) next = next sent
    and_then (sent, some e) next = (sent, some e)

    -- Whether the writer takes a request, or is gone.
    module _ (takes : List WriteRequest → Bool) where
      abbrev pub send_if : Bool → WriteRequest → List WriteRequest → Sent
      send_if true r sent = (sent ++ r ∷ [], none)
      send_if false r sent = (sent, some DifferEnd.writer_gone)

      -- Serialises and sends, after the requests that were sent before.
      unfoldable pub write : Text → Option json.Bytes → List WriteRequest → Sent
      write path none sent = (sent, some DifferEnd.json_error)
      write path (some json_bytes) sent =
          send_if (takes sent) (record { path = path; json_bytes = json_bytes }) sent

      abbrev pub write_diffs : ℕ → List (Text × GraphDiff) → List WriteRequest → Sent
      write_diffs now [] sent = (sent, none)
      write_diffs now (d ∷ ds) sent = write (diff_path now) (json.diffs_to_json (d ∷ ds)) sent

      unfoldable pub write_graphs :
          ℕ → List (Text × CollectorGossipGraph x) → List WriteRequest → Sent
      write_graphs now [] sent = (sent, none)
      write_graphs now ((uuid, graph) ∷ graphs) sent =
          and_then (write (graph_path uuid now) (json.graph_to_json graph) sent)
            (write_graphs now graphs)

      -- The files of one comparison.
      unfoldable pub write_results : ℕ → FullGraphDiff x → List WriteRequest → Sent
      write_results now results sent = and_then (write_diffs now results.diffs sent) (λ with_diffs.
          and_then
            (write (controller_path now) (json.graph_to_json results.controller_graph) with_diffs)
            (write_graphs now results.graphs))

      -- One turn of the loop, with the answer of the actor to the request for its graphs.
      unfoldable pub differ_turn : ℕ → Reply x → List WriteRequest → Sent
      differ_turn now (Reply.graphs gs) sent =
          write_results now (compute_graph_differences x gs) sent
      differ_turn now _ sent = (sent, some DifferEnd.graphs_error)

      -- The loop, from the controller's actor and what was sent before.
      unfoldable pub collector_gossip_differ :
          CollectorManager x → List WriteRequest → List DifferWake → Sent
      collector_gossip_differ mgr sent [] = (sent, none)
      collector_gossip_differ mgr sent (DifferWake.cancelled ∷ _) = (sent, some DifferEnd.shut_down)
      collector_gossip_differ mgr sent (DifferWake.no_next_time ∷ _) =
          (sent, some DifferEnd.schedule_error)
      collector_gossip_differ mgr sent (DifferWake.woken msgs now ∷ ws) =
          let (after, reply) =
            handle_msg x now (run x mgr msgs) CollectorManagerMsg.dump_collector_graphs in
          and_then (differ_turn now reply sent) (λ sent'. collector_gossip_differ after sent' ws)
