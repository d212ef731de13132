-- ===== src/Manager/Differ/Written.antt =====
-- What the differ writes while all values are serialised and the writer takes its requests.
use gossip_observer.Extern.{Extern}
use gossip_observer.GraphDiff.{CollectorGossipGraph, GraphDiff, FullGraphDiff}
use gossip_observer.GraphDiff.Compare.{compute_graph_differences}
use gossip_observer.Manager.Differ.{
  Json, WriteRequest, DifferWake, diff_path, controller_path, graph_path, write, write_diffs,
  write_graphs, write_results, and_then, differ_turn, collector_gossip_differ,
}
use gossip_observer.Manager.Handle.{Graphs, handle_msg, run}
use gossip_observer.Manager.State.{CollectorManager, CollectorManagerMsg, CollectionConfig, new}
use gossip_observer.Manager.Uploads.{graph_of, graph_run, run-graph_of}
use gossip_observer.Prelude.{
  ℕ, ◌≡◌, refl, sym, ap, ◌∙◌, Bool, true, List, [], ◌∷◌, ◌++◌, none, some, map, append_assoc,
  append-nil,
}
use gossip_observer.Prelude.Map.{lookup}
use gossip_observer.Prelude.Text.{Text}

module _ (x : Extern) (json : Json x) (base_dir : Text)
    (diff_bytes : List (Text × GraphDiff) → json.Bytes)
    (graph_bytes : CollectorGossipGraph x → json.Bytes) where
  abbrev diff_files : ℕ → List (Text × GraphDiff) → List (WriteRequest x json)
  diff_files now [] = []
  diff_files now (d ∷ ds) =
      record { path = diff_path x json base_dir now; json_bytes = diff_bytes (d ∷ ds) } ∷ []

  abbrev graph_file : ℕ → Text × CollectorGossipGraph x → WriteRequest x json
  graph_file now (uuid, graph) = record {
    path = graph_path x json base_dir uuid now;
    json_bytes = graph_bytes graph;
  }

  -- The differences if there are any, the combined graph, and the graph of each collector.
  abbrev pub files : ℕ → FullGraphDiff x → List (WriteRequest x json)
  files now results =
      diff_files now results.diffs
      ++ (record {
        path = controller_path x json base_dir now;
        json_bytes = graph_bytes results.controller_graph;
      }
          ∷ map (graph_file now) results.graphs)

  -- The messages since the last time, and the time.
  abbrev pub Tick : Type 0
  Tick = List (ℕ × CollectorManagerMsg x) × ℕ

  abbrev pub wakes : List Tick → List (DifferWake x json)
  wakes = map (λ t. DifferWake.woken t.0 t.1)

  -- The files of one time after the other: each compares graphs in which each collector has what it
  -- pushed since the time before.
  abbrev pub AreReports : List Tick → List (WriteRequest x json) → Type 0
  AreReports [] l = l ≡ []
  AreReports ((msgs, now) ∷ ts) l =
      (gs : Graphs x) × (rest : List (WriteRequest x json)) × (l
        ≡ files now (compute_graph_differences x gs) ++ rest)
      × ((uuid : Text)
          → graph_of x uuid gs ≡ graph_run x uuid (record { nodes = []; channels = [] }) msgs)
      × AreReports ts rest

  abbrev pub always : List (WriteRequest x json) → Bool
  always _ = true

  module _
      (diffs_lem : (ds : List (Text × GraphDiff)) → json.diffs_to_json ds ≡ some (diff_bytes ds))
      (graph_lem : (g : CollectorGossipGraph x) → json.graph_to_json g ≡ some (graph_bytes g)) where
    write_diffs_lem :
        (now : ℕ) (ds : List (Text × GraphDiff)) (sent : List (WriteRequest x json))
        → write_diffs x json base_dir always now ds sent ≡ (sent ++ diff_files now ds, none)
    unfolding write
    write_diffs_lem now [] sent = ap (λ l. (l, none)) (sym (append-nil sent))
    write_diffs_lem now (d ∷ ds) sent = rw (diffs_lem (d ∷ ds)) refl

    write_graphs_lem :
        (now : ℕ) (gs : Graphs x) (sent : List (WriteRequest x json))
        → write_graphs x json base_dir always now gs sent ≡ (sent ++ map (graph_file now) gs, none)
    unfolding write write_graphs
    write_graphs_lem now [] sent = ap (λ l. (l, none)) (sym (append-nil sent))
    write_graphs_lem now ((uuid, g) ∷ gs) sent = rw (graph_lem g) (
        write_graphs_lem now gs (sent ++ graph_file now (uuid, g) ∷ [])
        ∙ ap (λ l. (l, none))
            (append_assoc sent (graph_file now (uuid, g) ∷ []) (map (graph_file now) gs)))

    write_results_lem :
        (now : ℕ) (results : FullGraphDiff x) (sent : List (WriteRequest x json))
        → write_results x json base_dir always now results sent ≡ (sent ++ files now results, none)
    unfolding write write_results
    write_results_lem now results sent =
        let controller : WriteRequest x json = record {
          path = controller_path x json base_dir now;
          json_bytes = graph_bytes results.controller_graph;
        } in
        let sent' = sent ++ diff_files now results.diffs in
        let graphs = map (graph_file now) results.graphs in
        rw (write_diffs_lem now results.diffs sent, graph_lem results.controller_graph)
          (write_graphs_lem now results.graphs (sent' ++ controller ∷ [])
            ∙ ap (λ l. (l, none))
                (append_assoc sent' (controller ∷ []) graphs
                  ∙ append_assoc sent (diff_files now results.diffs) (controller ∷ graphs)))

    differ_from :
        (ts : List Tick) (mgr : CollectorManager x) (sent : List (WriteRequest x json))
        → ((uuid : Text) → graph_of x uuid mgr.gossip_graphs ≡ record { nodes = []; channels = [] })
        → (l : List (WriteRequest x json)) × (collector_gossip_differ x json base_dir always mgr
              sent
              (wakes ts)
            ≡ (sent ++ l, none))
          × AreReports ts l
    unfolding collector_gossip_differ handle_msg differ_turn lookup
    differ_from [] mgr sent h = ([], ap (λ l. (l, none)) (sym (append-nil sent)), refl)
    differ_from ((msgs, now) ∷ ts) mgr sent h =
        let m1 = run x mgr msgs in
        let gs = m1.gossip_graphs in
        let results = compute_graph_differences x gs in
        let after : CollectorManager x = record m1 { gossip_graphs = [] } in
        let (rest, e, reports) = differ_from ts after (sent ++ files now results) (λ uuid. refl) in
        (
          files now results ++ rest,
          ap
                (λ r.
                  and_then x json base_dir r (λ sent'.
                    collector_gossip_differ x json base_dir always after sent' (wakes ts)))
                (write_results_lem now results sent)
              ∙ e
              ∙ ap (λ l. (l, none)) (append_assoc sent (files now results) rest),
          (
            gs,
            rest,
            refl,
            (λ uuid. run-graph_of x uuid msgs mgr ∙ ap (λ g. graph_run x uuid g msgs) (h uuid)),
            reports,
          ),
        )

    -- While every value is serialised and the writer takes its requests, the task of a new controller
    -- goes on without an error, whatever its actor handles in between. At each time it writes the
    -- differences, if there are any, the combined graph and each collector's graph, of graphs in which
    -- each collector has exactly what it pushed since the time before, or since a dump in between:
    -- nothing is written twice.
    pub collector_gossip_differ-AreReports :
        (cfg : CollectionConfig x) (ts : List Tick)
        → (l : List (WriteRequest x json)) × (collector_gossip_differ x json base_dir always
              (new x cfg)
              []
              (wakes ts)
            ≡ (l, none))
          × AreReports ts l
    unfolding new lookup
    collector_gossip_differ-AreReports cfg ts = differ_from ts (new x cfg) [] (λ uuid. refl)
