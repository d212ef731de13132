-- ===== src/Upload/Received.antt =====
-- What the controller holds after a collector has sent its graph.
use gossip_observer.Extern.{Extern, Codecs}
use gossip_observer.GraphDiff.{CollectorGossipGraph}
use gossip_observer.Manager.Handle.{handle_msg}
use gossip_observer.Manager.State.{CollectorManager, CollectorManagerMsg}
use gossip_observer.Manager.Uploads.{graph_of, handle_msg-graph_of}
use gossip_observer.Prelude.{
  ℕ, ◌≡◌, refl, ap, ap₂, sym, ◌∙◌, List, [], ◌∷◌, ◌++◌, Result, ok, map, map-append, ite,
  append_assoc, append-nil, All, All-split, subst, arith,
}
use gossip_observer.Prelude.Text.{Text, Text-discrete}
use gossip_observer.Types.Gossip.{GossipNodeInfo, GossipChannelInfo}
use gossip_observer.Upload.Chunks.{concat, chunks, chunks_lem}
use gossip_observer.Upload.Graph.{
  Status, post_gossip_graph_chunk, post_all, node_chunk, channel_chunk, chunk_size,
  send_gossip_graph,
}
use gossip_observer.Wire.Convert.ChannelRound.{IsU16Delta, try_channel-from_channel}
use gossip_observer.Wire.Convert.Gossip.{from_node, try_node, from_channel, try_channel}
use gossip_observer.Wire.Convert.NodeRound.{without_onion_v2_info, try_node-from_node}
use gossip_observer.Wire.Util.{try_convert_vec-map, try_convert_vec-convert_vec}
use mathlib.Core.Option

All_of {ℓ} : {A : Type ℓ} (P : A → Type 0) (as' : List A) → ((a : A) → P a) → All P as'
All_of P [] h = tt
All_of P (a ∷ as') h = (h a, All_of P as' h)

module _ (x : Extern) (codecs : Codecs x) (now : ℕ) (uuid : Text) where
  abbrev pub grow :
      {u : Text}
      → Dec (uuid ≡ u)
      → CollectorGossipGraph x
      → List (GossipNodeInfo x)
      → List (GossipChannelInfo x)
      → CollectorGossipGraph x
  grow (yes _) g ns cs = record { nodes = g.nodes ++ ns; channels = g.channels ++ cs }
  grow (no _) g ns cs = g

  -- The graph of `u` after the collector `uuid` has sent some nodes and channels.
  abbrev pub grown :
      Text
      → CollectorGossipGraph x
      → List (GossipNodeInfo x)
      → List (GossipChannelInfo x)
      → CollectorGossipGraph x
  grown u = grow (Text-discrete uuid u)

  pub grow-grow :
      {u : Text} (d : Dec (uuid ≡ u)) (g : CollectorGossipGraph x) (ns ms : List (GossipNodeInfo x))
      (cs ds : List (GossipChannelInfo x))
      → grow d (grow d g ns cs) ms ds ≡ grow d g (ns ++ ms) (cs ++ ds)
  grow-grow (yes e) g ns ms cs ds =
      ap₂ (λ a b. record { nodes = a; channels = b }) (append_assoc g.nodes ns ms)
        (append_assoc g.channels cs ds)
  grow-grow (no e) g ns ms cs ds = refl

  pub grow_nothing :
      {u : Text} (d : Dec (uuid ≡ u)) (g : CollectorGossipGraph x) → grow d g [] [] ≡ g
  grow_nothing (yes e) g =
      ap₂ (λ a b. record { nodes = a; channels = b }) (append-nil g.nodes) (append-nil g.channels)
  grow_nothing (no e) g = refl

  grow_nodes :
      {u : Text} (d : Dec (uuid ≡ u)) (g : CollectorGossipGraph x) (ns : List (GossipNodeInfo x))
      → ite d (record g { nodes = g.nodes ++ ns }) g ≡ grow d g ns []
  grow_nodes (yes e) g ns =
      ap (λ l. record { nodes = g.nodes ++ ns; channels = l }) (sym (append-nil g.channels))
  grow_nodes (no e) g ns = refl

  grow_channels :
      {u : Text} (d : Dec (uuid ≡ u)) (g : CollectorGossipGraph x) (cs : List (GossipChannelInfo x))
      → ite d (record g { channels = g.channels ++ cs }) g ≡ grow d g [] cs
  grow_channels (yes e) g cs =
      ap (λ l. record { nodes = l; channels = g.channels ++ cs }) (sym (append-nil g.nodes))
  grow_channels (no e) g cs = refl

  -- The transfer succeeds, and leaves the graphs grown.
  abbrev pub Reaches :
      CollectorManager x
      → Result (CollectorManager x) Status
      → List (GossipNodeInfo x)
      → List (GossipChannelInfo x)
      → Type 0
  Reaches mgr r ns cs =
      (after : CollectorManager x) × (r ≡ ok after)
      × ((u : Text)
          → graph_of x u after.gossip_graphs ≡ grown u (graph_of x u mgr.gossip_graphs) ns cs)

  abbrev pub clean : GossipNodeInfo x → GossipNodeInfo x
  clean node = record node { info = Option.map (without_onion_v2_info x codecs) node.info }

  pub post_nodes-handled :
      (mgr : CollectorManager x) (ns : List (GossipNodeInfo x))
      → post_gossip_graph_chunk x now (node_chunk x uuid ns) mgr
        ≡ ok (handle_msg x now mgr (CollectorManagerMsg.push_gossip_nodes uuid (map clean ns))).0
  unfolding post_gossip_graph_chunk
  post_nodes-handled mgr ns =
      rw
        (try_convert_vec-map (from_node x) clean (try_node x) ns
          (All_of _ ns (try_node-from_node x codecs)))
        refl

  post_nodes :
      (mgr : CollectorManager x) (ns : List (GossipNodeInfo x))
      → Reaches mgr (post_gossip_graph_chunk x now (node_chunk x uuid ns) mgr) (map clean ns) []
  post_nodes mgr ns = (
    (handle_msg x now mgr (CollectorManagerMsg.push_gossip_nodes uuid (map clean ns))).0,
    post_nodes-handled mgr ns,
    λ u.
        handle_msg-graph_of x u now mgr (CollectorManagerMsg.push_gossip_nodes uuid (map clean ns))
        ∙ grow_nodes (Text-discrete uuid u) (graph_of x u mgr.gossip_graphs) (map clean ns),
  )

  abbrev pub HasU16Deltas : GossipChannelInfo x → Type 0
  HasU16Deltas c = IsU16Delta c.one_to_two × IsU16Delta c.two_to_one

  channels_read :
      (cs : List (GossipChannelInfo x))
      → All HasU16Deltas cs
      → All (λ c. try_channel x (from_channel x c) ≡ ok c) cs
  channels_read [] h = tt
  channels_read (c ∷ cs) ((h, k), hs) =
      (try_channel-from_channel x codecs c h k, channels_read cs hs)

  pub post_channels-handled :
      (mgr : CollectorManager x) (cs : List (GossipChannelInfo x))
      → All HasU16Deltas cs
      → post_gossip_graph_chunk x now (channel_chunk x uuid cs) mgr
        ≡ ok (handle_msg x now mgr (CollectorManagerMsg.push_gossip_channels uuid cs)).0
  unfolding post_gossip_graph_chunk
  post_channels-handled mgr cs h =
      rw (try_convert_vec-convert_vec (from_channel x) (try_channel x) cs (channels_read cs h)) refl

  post_channels :
      (mgr : CollectorManager x) (cs : List (GossipChannelInfo x))
      → All HasU16Deltas cs
      → Reaches mgr (post_gossip_graph_chunk x now (channel_chunk x uuid cs) mgr) [] cs
  post_channels mgr cs h = (
    (handle_msg x now mgr (CollectorManagerMsg.push_gossip_channels uuid cs)).0,
    post_channels-handled mgr cs h,
    λ u.
        handle_msg-graph_of x u now mgr (CollectorManagerMsg.push_gossip_channels uuid cs)
        ∙ grow_channels (Text-discrete uuid u) (graph_of x u mgr.gossip_graphs) cs,
  )

  then-Reaches :
      (mgr : CollectorManager x) (mid : CollectorManager x) (r : Result (CollectorManager x) Status)
      (ns ms : List (GossipNodeInfo x)) (cs ds : List (GossipChannelInfo x))
      → ((u : Text)
          → graph_of x u mid.gossip_graphs ≡ grown u (graph_of x u mgr.gossip_graphs) ns cs)
      → Reaches mid r ms ds
      → Reaches mgr r (ns ++ ms) (cs ++ ds)
  then-Reaches mgr mid r ns ms cs ds h (after, e, k) = (
    after,
    e,
    λ u.
        k u
        ∙ ap (λ g. grown u g ms ds) (h u)
        ∙ grow-grow (Text-discrete uuid u) (graph_of x u mgr.gossip_graphs) ns ms cs ds,
  )

  Reaches-as :
      (mgr : CollectorManager x) {r : Result (CollectorManager x) Status}
      {ns ms : List (GossipNodeInfo x)} {cs ds : List (GossipChannelInfo x)}
      → ns ≡ ms
      → cs ≡ ds
      → Reaches mgr r ns cs
      → Reaches mgr r ms ds
  Reaches-as mgr {r} {ns} {ms} {cs} e f h =
      subst (λ l. Reaches mgr r ms l) f (subst (λ l. Reaches mgr r l cs) e h)

  post_all_nodes :
      (css : List (List (GossipNodeInfo x))) (mgr : CollectorManager x)
      → Reaches mgr
          (post_all x (post_gossip_graph_chunk x now) (map (node_chunk x uuid) css) mgr)
          (map clean (concat css))
          []
  unfolding post_all
  post_all_nodes [] mgr = (mgr, refl, λ u. sym (grow_nothing (Text-discrete uuid u) _))
  post_all_nodes (ns ∷ css) mgr =
      let (mid, e, h) = post_nodes mgr ns in
      rw (e, map-append clean ns (concat css))
        (then-Reaches mgr mid _ (map clean ns) (map clean (concat css)) [] [] h
          (post_all_nodes css mid))

  post_all_channels :
      (css : List (List (GossipChannelInfo x))) (mgr : CollectorManager x)
      → All HasU16Deltas (concat css)
      → Reaches mgr
          (post_all x (post_gossip_graph_chunk x now) (map (channel_chunk x uuid) css) mgr)
          []
          (concat css)
  unfolding post_all
  post_all_channels [] mgr d = (mgr, refl, λ u. sym (grow_nothing (Text-discrete uuid u) _))
  post_all_channels (cs ∷ css) mgr d =
      let (d', ds) = All-split HasU16Deltas cs (concat css) d in
      let (mid, e, h) = post_channels mgr cs d' in
      rw e (then-Reaches mgr mid _ [] [] cs (concat css) h (post_all_channels css mid ds))

  -- When a collector sends its graph and no request is lost, the transfer succeeds, and the
  -- controller's graph of that collector has grown by exactly the nodes and channels of that graph,
  -- in order, the nodes without their Onion V2 addresses, however the graph was cut into requests.
  -- The graphs of the other collectors are unchanged. The deltas must fit in 16 bits.
  pub send_gossip_graph_received :
      (ns : List (GossipNodeInfo x)) (cs : List (GossipChannelInfo x)) (mgr : CollectorManager x)
      → All HasU16Deltas cs
      → Reaches mgr
          (send_gossip_graph x (post_gossip_graph_chunk x now) uuid ns cs mgr)
          (map clean ns)
          cs
  unfolding send_gossip_graph
  send_gossip_graph_received ns cs mgr d =
      let (whole_ns, _) = chunks_lem (chunk_size x) ns (omega arith) in
      let (whole_cs, _) = chunks_lem (chunk_size x) cs (omega arith) in
      let (mid, e, h) = post_all_nodes (chunks (chunk_size x) ns) mgr in
      let sent =
        post_all_channels (chunks (chunk_size x) cs) mid
          (subst (All HasU16Deltas) (sym whole_cs) d) in
      rw e (
        Reaches-as mgr
          (append-nil (map clean (concat (chunks (chunk_size x) ns))) ∙ ap (map clean) whole_ns)
          whole_cs (then-Reaches mgr mid _ _ [] [] _ h sent))
