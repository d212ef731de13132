-- ===== src/GraphDiff/Combine/Nodes.antt =====
-- What the combined view holds for each public key.
use gossip_observer.Extern.{Extern}
use gossip_observer.GraphDiff.{CollectorGossipGraph}
use gossip_observer.GraphDiff.Combine.{
  NodeMap, Combined, combine_node, combine_nodes, combine_graphs, combine,
}
use gossip_observer.Prelude.{
  ℕ, ◌≡◌, ◌≢◌, refl, subst, List, [], ◌∷◌, ◌++◌, Option, none, some, true, false, arith, All, Any,
  All-append, All-impl, Any-append_left, Any-append_right, append_assoc, append-nil, inl, inr,
  Option-cases, Bool-cases, if_pos, if_neg,
}
use gossip_observer.Prelude.Map.{lookup, insert, IsMap, lookup-insert, insert-IsMap}
use gossip_observer.Types.Gossip.{NodeAnnouncementInfo, GossipNodeInfo}
use gossip_observer.Types.Gossip.Node
use gossip_observer.Types.Newest.{NoNewer, NoNewer-refl, NoNewer-trans}

module _ (x : Extern) where
  abbrev pub node_stamp : Option (NodeAnnouncementInfo x) → Option ℕ
  node_stamp none = none
  node_stamp (some info) = some info.last_update

  -- The map holds for `key` a node that is reported, and no report on the key is newer.
  abbrev pub IsNewestNode :
      x.PublicKey → List (GossipNodeInfo x) → Option (GossipNodeInfo x) → Type 0
  IsNewestNode key reports none = All (λ r. r.pubkey ≢ key) reports
  IsNewestNode key reports (some node) =
      Any (λ r. (r.pubkey ≡ key) × (r ≡ node)) reports
      × All (λ r. r.pubkey ≡ key → NoNewer (node_stamp r.info) (node_stamp node.info)) reports

  newer_NoNewer :
      (a b : Option (NodeAnnouncementInfo x))
      → Node.newer_info x a b ≡ true
      → NoNewer (node_stamp b) (node_stamp a)
  newer_NoNewer (some a) (some b) h = ground arith
  newer_NoNewer a none h = tt
  newer_NoNewer none (some b) h = cc

  not_newer_NoNewer :
      (a b : Option (NodeAnnouncementInfo x))
      → Node.newer_info x a b ≡ false
      → NoNewer (node_stamp a) (node_stamp b)
  not_newer_NoNewer (some a) (some b) h = ground arith
  not_newer_NoNewer none b h = tt
  not_newer_NoNewer (some a) none h = cc

  module _ (key : x.PublicKey) (done : List (GossipNodeInfo x)) (n : GossipNodeInfo x) where
    extend_other :
        (r : Option (GossipNodeInfo x))
        → n.pubkey ≢ key
        → IsNewestNode key done r
        → IsNewestNode key (done ++ n ∷ []) r
    extend_other none other h = All-append _ done (n ∷ []) h (other, tt)
    extend_other (some c) other h = (
      Any-append_left _ done (n ∷ []) h.0,
      All-append _ done (n ∷ []) h.1 ((λ e. absurd (other e)), tt),
    )

    extend_first :
        n.pubkey ≡ key → IsNewestNode key done none → IsNewestNode key (done ++ n ∷ []) (some n)
    extend_first e h = (
      Any-append_right _ done (n ∷ []) (inl (e, refl)),
      All-append _ done (n ∷ []) (All-impl _ _ done (λ r ne e'. absurd (ne e')) h)
          ((λ _. NoNewer-refl _), tt),
    )

    extend_newer :
        (c : GossipNodeInfo x)
        → n.pubkey ≡ key
        → NoNewer (node_stamp c.info) (node_stamp n.info)
        → IsNewestNode key done (some c)
        → IsNewestNode key (done ++ n ∷ []) (some n)
    extend_newer c e le h = (
      Any-append_right _ done (n ∷ []) (inl (e, refl)),
      All-append _ done (n ∷ [])
          (All-impl _ _ done (λ r older e'. NoNewer-trans _ (node_stamp c.info) _ (older e') le)
            h.1)
          ((λ _. NoNewer-refl _), tt),
    )

    extend_older :
        (c : GossipNodeInfo x)
        → NoNewer (node_stamp n.info) (node_stamp c.info)
        → IsNewestNode key done (some c)
        → IsNewestNode key (done ++ n ∷ []) (some c)
    extend_older c le h =
        (Any-append_left _ done (n ∷ []) h.0, All-append _ done (n ∷ []) h.1 ((λ _. le), tt))

  -- Every key of the map is settled by the reports so far.
  abbrev Settled : NodeMap x → List (GossipNodeInfo x) → Type 0
  Settled m done = (key : x.PublicKey) → IsNewestNode key done (lookup x.pubkey_discrete key m)

  insert-Settled :
      (m : NodeMap x) (done : List (GossipNodeInfo x)) (n : GossipNodeInfo x)
      → Settled m done
      → IsNewestNode n.pubkey (done ++ n ∷ []) (some n)
      → Settled (insert x.pubkey_discrete n.pubkey n m) (done ++ n ∷ [])
  insert-Settled m done n s here key = elim (x.pubkey_discrete n.pubkey key) [
    | yes p ↦
        rw
          (
            lookup-insert x.pubkey_discrete key n.pubkey n m,
            if_pos (x.pubkey_discrete n.pubkey key) p,
          )
          (subst (λ k. IsNewestNode k (done ++ n ∷ []) (some n)) p here)
    | no p ↦
        rw
          (
            lookup-insert x.pubkey_discrete key n.pubkey n m,
            if_neg (x.pubkey_discrete n.pubkey key) p,
          )
          (extend_other key done n _ p (s key))
  ]

  keep-Settled :
      (m : NodeMap x) (done : List (GossipNodeInfo x)) (n c : GossipNodeInfo x)
      → Settled m done
      → lookup x.pubkey_discrete n.pubkey m ≡ some c
      → NoNewer (node_stamp n.info) (node_stamp c.info)
      → Settled m (done ++ n ∷ [])
  keep-Settled m done n c s e le key = elim (x.pubkey_discrete n.pubkey key) [
    | yes p ↦
        subst (λ k. IsNewestNode k (done ++ n ∷ []) (lookup x.pubkey_discrete k m)) p
          (rw e
            (extend_older n.pubkey done n c le (subst (IsNewestNode n.pubkey done) e (s n.pubkey))))
    | no p ↦ extend_other key done n _ p (s key)
  ]

  combine_node-Settled :
      (m : NodeMap x) (done : List (GossipNodeInfo x)) (n : GossipNodeInfo x)
      → Settled m done
      → Settled (combine_node x m n) (done ++ n ∷ [])
  unfolding Node.is_newer
  combine_node-Settled m done n s = elim (Option-cases (lookup x.pubkey_discrete n.pubkey m)) [
    | inl e ↦
        unfold combine_node in
        rw (e, combine_node)
          (insert-Settled m done n s
            (extend_first n.pubkey done n refl (subst (IsNewestNode n.pubkey done) e (s n.pubkey))))
    | inr (c, e) ↦ elim (Bool-cases (Node.newer_info x n.info c.info)) [
      | inl newer ↦
          unfold combine_node in
          rw (e, newer, combine_node)
            (insert-Settled m done n s (
              extend_newer n.pubkey done n c refl (newer_NoNewer n.info c.info newer)
                (subst (IsNewestNode n.pubkey done) e (s n.pubkey))))
      | inr older ↦
          unfold combine_node in
          rw (e, older, combine_node)
            (keep-Settled m done n c s e (not_newer_NoNewer n.info c.info older))
    ]
  ]

  combine_nodes-Settled :
      (ns : List (GossipNodeInfo x)) (m : NodeMap x) (done : List (GossipNodeInfo x))
      → Settled m done
      → Settled (combine_nodes x m ns) (done ++ ns)
  unfolding combine_nodes
  combine_nodes-Settled [] m done s = rw append-nil s
  combine_nodes-Settled (n ∷ ns) m done s =
      subst (Settled (combine_nodes x (combine_node x m n) ns)) (append_assoc done (n ∷ []) ns) (
        combine_nodes-Settled ns (combine_node x m n) (done ++ n ∷ [])
          (combine_node-Settled m done n s))

  -- All node reports, graph by graph.
  abbrev pub node_reports : List (CollectorGossipGraph x) → List (GossipNodeInfo x)
  node_reports [] = []
  node_reports (g ∷ gs) = g.nodes ++ node_reports gs

  combine_graphs-Settled :
      (gs : List (CollectorGossipGraph x)) (c : Combined x) (done : List (GossipNodeInfo x))
      → Settled c.nodes done
      → Settled (combine_graphs x c gs).nodes (done ++ node_reports gs)
  unfolding combine_graphs
  combine_graphs-Settled [] c done s = rw append-nil s
  combine_graphs-Settled (g ∷ gs) c done s =
      subst (Settled (combine_graphs x c (g ∷ gs)).nodes)
        (append_assoc done g.nodes (node_reports gs))
        (combine_graphs-Settled gs _ (done ++ g.nodes)
          (combine_nodes-Settled g.nodes c.nodes done s))

  -- For every public key, and whatever the order in which the collectors' graphs are visited, the
  -- combined view holds no node exactly when no collector reported the key. Otherwise it holds a
  -- report on that key, and no report on the key has a newer announcement (a report without
  -- announcement counts as the oldest).
  pub combine-IsNewestNode :
      (graphs : List (CollectorGossipGraph x)) (key : x.PublicKey)
      → IsNewestNode key
          (node_reports graphs)
          (lookup x.pubkey_discrete key (combine x graphs).nodes)
  unfolding combine lookup
  combine-IsNewestNode graphs key =
      combine_graphs-Settled graphs (record { nodes = []; channels = [] }) [] (λ k. tt) key

  combine_node-IsMap :
      (m : NodeMap x) (n : GossipNodeInfo x)
      → IsMap x.pubkey_discrete m
      → IsMap x.pubkey_discrete (combine_node x m n)
  unfolding combine_node
  combine_node-IsMap m n h = ground (arith, insert-IsMap x.pubkey_discrete n.pubkey n m h)

  combine_nodes-IsMap :
      (ns : List (GossipNodeInfo x)) (m : NodeMap x)
      → IsMap x.pubkey_discrete m
      → IsMap x.pubkey_discrete (combine_nodes x m ns)
  unfolding combine_nodes
  combine_nodes-IsMap [] m h = h
  combine_nodes-IsMap (n ∷ ns) m h = combine_nodes-IsMap ns _ (combine_node-IsMap m n h)

  combine_graphs-IsMap :
      (gs : List (CollectorGossipGraph x)) (c : Combined x)
      → IsMap x.pubkey_discrete c.nodes
      → IsMap x.pubkey_discrete (combine_graphs x c gs).nodes
  unfolding combine_graphs
  combine_graphs-IsMap [] c h = h
  combine_graphs-IsMap (g ∷ gs) c h =
      combine_graphs-IsMap gs _ (combine_nodes-IsMap g.nodes c.nodes h)

  pub combine-IsMap :
      (gs : List (CollectorGossipGraph x)) → IsMap x.pubkey_discrete (combine x gs).nodes
  unfolding combine
  combine-IsMap gs = combine_graphs-IsMap gs _ tt
