-- ===== src/Tests/Differing.antt =====
-- The differ's task at two times, with a push between them.
use gossip_observer.GraphDiff.{CollectorGossipGraph, GraphDiff}
use gossip_observer.Manager.Differ.{Json, WriteRequest, collector_gossip_differ}
use gossip_observer.Manager.Differ.Written.{
  Tick, wakes, AreReports, always, collector_gossip_differ-AreReports,
}
use gossip_observer.Manager.State.{CollectorManagerMsg, new}
use gossip_observer.Prelude.{ℕ, ◌+◌, ◌*◌, ◌≡◌, refl, List, [], ◌∷◌, none, some, length}
use gossip_observer.Prelude.Text.{Text, codes}
use gossip_observer.Tests.Actor.{config}
use gossip_observer.Tests.World.{world}

abbrev diff_bytes : List (Text × GraphDiff) → ℕ
diff_bytes ds = length ds

abbrev graph_bytes : CollectorGossipGraph world → ℕ
graph_bytes g = length g.nodes + 10 * length g.channels

abbrev json : Json world
json = record {
  Bytes = ℕ;
  diffs_to_json = λ ds. some (diff_bytes ds);
  graph_to_json = λ g. some (graph_bytes g);
  ts_suffix = λ t. t ∷ [];
}

abbrev ticks : List (Tick world json (codes "d") diff_bytes graph_bytes)
ticks =
    (
      (
        1,
        CollectorManagerMsg.push_gossip_nodes (codes "a") (record { pubkey = 4; info = none } ∷ []),
      )
          ∷ [],
      2,
    )
    ∷ ([], 3)
    ∷ []

collector_gossip_differ-AreReports_example :
    (l : List (WriteRequest world json)) × (collector_gossip_differ world json
        (codes "d")
        (always world json (codes "d") diff_bytes graph_bytes)
        (new world config)
        []
        (wakes world json (codes "d") diff_bytes graph_bytes ticks)
      ≡ (l, none))
    × AreReports world json (codes "d") diff_bytes graph_bytes ticks l
collector_gossip_differ-AreReports_example =
    collector_gossip_differ-AreReports world json (codes "d") diff_bytes graph_bytes (λ ds. refl)
      (λ g. refl) config ticks
