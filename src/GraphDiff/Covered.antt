-- ===== src/GraphDiff/Covered.antt =====
-- A collector whose graph was combined knows nothing that the combined view lacks.
use gossip_observer.Extern.{Extern}
use gossip_observer.GraphDiff.{CollectorGossipGraph}
use gossip_observer.GraphDiff.Combine.{combine}
use gossip_observer.GraphDiff.Combine.Nodes.{
  node_reports, node_stamp, IsNewestNode, combine-IsNewestNode,
}
use gossip_observer.GraphDiff.Combine.Channels.{
  channel_reports, AsNew, IsNewestChannel, combine-IsNewestChannel,
}
use gossip_observer.GraphDiff.Compare.{collector_nodes, collector_channels}
use gossip_observer.GraphDiff.Counts.{Covered, CoveredDirection, CoveredChannel}
use gossip_observer.Prelude.{
  ℕ, ◌≡◌, refl, subst, sym, List, [], ◌∷◌, Option, none, some, arith, Any, All-Any, Any-append_left,
  Any-append_right, ◌⊎◌, inl, inr, ℕ_discrete,
}
use gossip_observer.Prelude.Map.{lookup, insert, lookup-insert}
use gossip_observer.Types.Gossip.{
  NodeAnnouncementInfo, GossipNodeInfo, GossipChannelDirectionInfo, GossipChannelInfo,
}
use gossip_observer.Types.Newest.{NoNewer, stamp}
use mathlib.Core.Option.{none-ne-some}

module _ (x : Extern) where
  -- What a collector is taken to know of a key is one of its own reports.
  collector_nodes_reported :
      (ns : List (GossipNodeInfo x)) (m : List (x.PublicKey × Option (NodeAnnouncementInfo x)))
      (key : x.PublicKey) (v : Option (NodeAnnouncementInfo x))
      → lookup x.pubkey_discrete key (collector_nodes x m ns) ≡ some v
      → Any (λ n. (n.pubkey ≡ key) × (n.info ≡ v)) ns ⊎ (lookup x.pubkey_discrete key m ≡ some v)
  unfolding collector_nodes
  collector_nodes_reported [] m key v e = inr e
  collector_nodes_reported (n ∷ ns) m key v e =
      elim (collector_nodes_reported ns (insert x.pubkey_discrete n.pubkey n.info m) key v e) [
        | inl later ↦ inl (inr later)
        | inr here ↦ ground (arith, lookup-insert x.pubkey_discrete key n.pubkey n.info m)
      ]

  collector_channels_reported :
      (cs : List (GossipChannelInfo x)) (m : List (ℕ × GossipChannelInfo x)) (scid : ℕ)
      (v : GossipChannelInfo x)
      → lookup ℕ_discrete scid (collector_channels x m cs) ≡ some v
      → Any (λ c. (c.scid ≡ scid) × (c ≡ v)) cs ⊎ (lookup ℕ_discrete scid m ≡ some v)
  unfolding collector_channels
  collector_channels_reported [] m scid v e = inr e
  collector_channels_reported (c ∷ cs) m scid v e =
      elim (collector_channels_reported cs (insert ℕ_discrete c.scid c m) scid v e) [
        | inl later ↦ inl (inr later)
        | inr here ↦ ground (arith, lookup-insert ℕ_discrete scid c.scid c m)
      ]

  -- The reports of one graph are among all reports.
  reports_of_member :
      (P : GossipNodeInfo x → Type 0) (gs : List (CollectorGossipGraph x))
      (g : CollectorGossipGraph x)
      → Any (λ h. h ≡ g) gs
      → Any P g.nodes
      → Any P (node_reports x gs)
  reports_of_member P (h ∷ gs) g (inl e) p =
      Any-append_left P h.nodes (node_reports x gs) (subst (λ k. Any P k.nodes) (sym e) p)
  reports_of_member P (h ∷ gs) g (inr m) p =
      Any-append_right P h.nodes (node_reports x gs) (reports_of_member P gs g m p)
  reports_of_member P [] g m p = absurd m

  channel_reports_of_member :
      (P : GossipChannelInfo x → Type 0) (gs : List (CollectorGossipGraph x))
      (g : CollectorGossipGraph x)
      → Any (λ h. h ≡ g) gs
      → Any P g.channels
      → Any P (channel_reports x gs)
  channel_reports_of_member P (h ∷ gs) g (inl e) p =
      Any-append_left P h.channels (channel_reports x gs) (subst (λ k. Any P k.channels) (sym e) p)
  channel_reports_of_member P (h ∷ gs) g (inr m) p =
      Any-append_right P h.channels (channel_reports x gs) (channel_reports_of_member P gs g m p)
  channel_reports_of_member P [] g m p = absurd m

  Covered-of :
      (a : Option (NodeAnnouncementInfo x)) (b : Option (Option (NodeAnnouncementInfo x)))
      → ((v : Option (NodeAnnouncementInfo x))
          → b ≡ some v
          → NoNewer (node_stamp x v) (node_stamp x a))
      → Covered a b
  Covered-of none none f = tt
  Covered-of none (some none) f = tt
  Covered-of none (some (some v)) f = f (some v) refl
  Covered-of (some a) none f = tt
  Covered-of (some a) (some none) f = tt
  Covered-of (some a) (some (some v)) f = tt

  module _ (gs : List (CollectorGossipGraph x)) (g : CollectorGossipGraph x)
      (member : Any (λ h. h ≡ g) gs) where
    pub node-Covered :
        (key : x.PublicKey) (n : GossipNodeInfo x)
        → lookup x.pubkey_discrete key (combine x gs).nodes ≡ some n
        → Covered n.info (lookup x.pubkey_discrete key (collector_nodes x [] g.nodes))
    unfolding lookup
    node-Covered key n e = Covered-of n.info _ λ v known.
        elim (collector_nodes_reported g.nodes [] key v known) [
          | inl own ↦
              let newest = subst (IsNewestNode x key _) e (combine-IsNewestNode x gs key) in
              let (r, older, (same, info)) =
                All-Any _ _ _ newest.1 (reports_of_member _ gs g member own) in
              subst (λ w. NoNewer (node_stamp x w) (node_stamp x n.info)) info (older same)
          | inr no_key ↦ absurd (none-ne-some v no_key)
        ]

    CoveredDirection-of :
        (a b : Option GossipChannelDirectionInfo)
        → NoNewer (stamp b) (stamp a)
        → CoveredDirection a b
    CoveredDirection-of none none h = tt
    CoveredDirection-of none (some b) h = h
    CoveredDirection-of (some a) none h = tt
    CoveredDirection-of (some a) (some b) h = tt

    CoveredChannel-of :
        (a : GossipChannelInfo x) (b : Option (GossipChannelInfo x))
        → ((v : GossipChannelInfo x) → b ≡ some v → AsNew x v a)
        → CoveredChannel x a b
    CoveredChannel-of a none f = tt
    CoveredChannel-of a (some b) f =
        (CoveredDirection-of _ _ (f b refl).one, CoveredDirection-of _ _ (f b refl).two)

    pub channel-Covered :
        (scid : ℕ) (c : GossipChannelInfo x)
        → lookup ℕ_discrete scid (combine x gs).channels ≡ some c
        → CoveredChannel x c (lookup ℕ_discrete scid (collector_channels x [] g.channels))
    unfolding lookup
    channel-Covered scid c e = CoveredChannel-of c _ λ v known.
        elim (collector_channels_reported g.channels [] scid v known) [
          | inl own ↦
              let newest = subst (IsNewestChannel x scid _) e (combine-IsNewestChannel x gs scid) in
              let (r, older, (same, r_is_v)) =
                All-Any _ _ _ newest.newest (channel_reports_of_member _ gs g member own) in
              subst (λ w. AsNew x w c) r_is_v (older same)
          | inr no_key ↦ absurd (none-ne-some v no_key)
        ]
