-- ===== src/GraphDiff/Totals.antt =====
-- Every collector's differences account for the whole combined view.
use gossip_observer.Extern.{Extern}
use gossip_observer.GraphDiff.{CollectorGossipGraph, GraphDiff}
use gossip_observer.GraphDiff.Combine.{Combined, combine}
use gossip_observer.GraphDiff.Combine.Nodes
use gossip_observer.GraphDiff.Combine.Channels
use gossip_observer.GraphDiff.Compare.{
  collector_nodes, collector_channels, compare_nodes, compare_graph, compare_graphs,
  compute_graph_differences, no_diff,
}
use gossip_observer.GraphDiff.Counts.{
  nodes_seen, node_infos_seen, channels_seen, directions_seen, compare_nodes_counts,
  compare_nodes-no_channels, compare_channels_counts,
}
use gossip_observer.GraphDiff.Covered.{node-Covered, channel-Covered}
use gossip_observer.Prelude.{
  ℕ, ◌*◌, ◌^◌, ◌<◌, ◌≡◌, refl, List, [], ◌∷◌, none, some, arith, Any, length, inl, inr, ℕ_discrete,
}
use gossip_observer.Prelude.Map.{lookup, insert, lookup-insert, IsMap, values, All-of_lookup}
use gossip_observer.Prelude.Text.{Text, Text-discrete}
use mathlib.Core.Option.{none-ne-some}

-- All four sums of a comparison with a view of `n` nodes and `c` channels.
abbrev pub Accounts : GraphDiff → ℕ → ℕ → Type 0
Accounts d n c =
    (nodes_seen d ≡ n)
    × (node_infos_seen d ≡ n)
    × (channels_seen d ≡ c)
    × (directions_seen d ≡ 2 * d.known_channels)

length-values {ℓ} : {K V : Type ℓ} (m : List (K × V)) → length (values m) ≡ length m
length-values [] = refl
length-values ((k, v) ∷ m) = omega (arith, length-values m)

module _ (x : Extern) where
  compare_graph-Accounts :
      (gs : List (CollectorGossipGraph x)) (g : CollectorGossipGraph x)
      → Any (λ h. h ≡ g) gs
      → length (combine x gs).nodes < 2 ^ 32
      → 2 * length (combine x gs).channels < 2 ^ 32
      → Accounts
          (compare_graph x (combine x gs) g)
          (length (combine x gs).nodes)
          (length (combine x gs).channels)
  unfolding compare_graph
  compare_graph-Accounts gs g member small small' =
      let c : Combined x = combine x gs in
      let own = collector_nodes x [] g.nodes in
      let after_nodes = compare_nodes x no_diff own c.nodes in
      let covered =
        All-of_lookup x.pubkey_discrete _ c.nodes (Nodes.combine-IsMap x gs)
          (node-Covered x gs g member) in
      let (n, i) = compare_nodes_counts x own c.nodes no_diff 0 covered (omega arith) refl refl in
      let covered' =
        All-of_lookup ℕ_discrete _ c.channels (Channels.combine-IsMap x gs)
          (channel-Covered x gs g member) in
      let (z, z') = compare_nodes-no_channels x own c.nodes no_diff (refl, refl) in
      let (p, q, r, s) =
        compare_channels_counts x (collector_channels x [] g.channels) c.channels after_nodes 0
          covered' (omega arith) z (omega arith) in
      (omega arith, omega arith, omega arith, q)

  compare_graphs_other :
      (c : Combined x) (diffs : List (Text × GraphDiff)) (uuid : Text)
      (gs : List (Text × CollectorGossipGraph x))
      → lookup Text-discrete uuid gs ≡ none
      → lookup Text-discrete uuid (compare_graphs x c diffs gs) ≡ lookup Text-discrete uuid diffs
  unfolding compare_graphs lookup
  compare_graphs_other c diffs uuid [] e = refl
  compare_graphs_other c diffs uuid ((u, g) ∷ gs) e = ground (
    arith,
    compare_graphs_other c (insert Text-discrete u (compare_graph x c g) diffs) uuid gs,
    lookup-insert Text-discrete uuid u (compare_graph x c g) diffs,
  )

  lookup-compare_graphs :
      (c : Combined x) (diffs : List (Text × GraphDiff)) (uuid : Text)
      (gs : List (Text × CollectorGossipGraph x)) (g : CollectorGossipGraph x)
      → IsMap Text-discrete gs
      → lookup Text-discrete uuid gs ≡ some g
      → lookup Text-discrete uuid (compare_graphs x c diffs gs) ≡ some (compare_graph x c g)
  unfolding compare_graphs lookup
  lookup-compare_graphs c diffs uuid [] g h e = cc
  lookup-compare_graphs c diffs uuid ((u, f) ∷ gs) g (fresh, rest) e =
      let m = insert Text-discrete u (compare_graph x c f) diffs in
      ground (
        arith,
        lookup-compare_graphs c m uuid gs g rest,
        compare_graphs_other c m uuid gs,
        lookup-insert Text-discrete uuid u (compare_graph x c f) diffs,
      )

  Any-of_lookup :
      (uuid : Text) (gs : List (Text × CollectorGossipGraph x)) (g : CollectorGossipGraph x)
      → lookup Text-discrete uuid gs ≡ some g
      → Any (λ h. h ≡ g) (values gs)
  unfolding lookup
  Any-of_lookup uuid [] g e = absurd (none-ne-some g e)
  Any-of_lookup uuid ((u, f) ∷ gs) g e = elim (Text-discrete u uuid) [
    | yes p ↦ inl (ground arith)
    | no p ↦ inr (Any-of_lookup uuid gs g (ground arith))
  ]

  -- Each collector that pushed a graph gets differences, and they account for the whole combined
  -- view: every combined node is counted once as known or missing and once as matching, missing or
  -- stale information, every combined channel once as known or missing, and every known channel
  -- twice, once for each direction, as matching, missing or stale. So the two cases that the source
  -- calls impossible, a collector that knows more than the combined view, never arise. The view
  -- must be small enough for the 32-bit counters.
  pub compute_graph_differences-Accounts :
      (graphs : List (Text × CollectorGossipGraph x)) (uuid : Text) (g : CollectorGossipGraph x)
      → IsMap Text-discrete graphs
      → lookup Text-discrete uuid graphs ≡ some g
      → length (compute_graph_differences x graphs).controller_graph.nodes < 2 ^ 32
      → 2 * length (compute_graph_differences x graphs).controller_graph.channels < 2 ^ 32
      → let full = compute_graph_differences x graphs in
        (d : GraphDiff) × (lookup Text-discrete uuid full.diffs ≡ some d)
        × Accounts d (length full.controller_graph.nodes) (length full.controller_graph.channels)
  unfolding compute_graph_differences
  compute_graph_differences-Accounts [] uuid g distinct e small small' =
      absurd (none-ne-some g (unfold lookup in e))
  compute_graph_differences-Accounts (u ∷ gs) uuid g distinct e small small' =
      let c : Combined x = combine x (values (u ∷ gs)) in
      let n = length-values c.nodes in
      let k = length-values c.channels in
      (
        compare_graph x c g,
        lookup-compare_graphs c [] uuid (u ∷ gs) g distinct e,
        rw (n, k)
            (compare_graph-Accounts (values (u ∷ gs)) g (Any-of_lookup uuid (u ∷ gs) g e)
              (omega arith) (omega arith)),
      )
