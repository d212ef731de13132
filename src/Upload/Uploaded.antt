-- ===== src/Upload/Uploaded.antt =====
-- What the controller holds after a collector's scheduled uploads.
use gossip_observer.Extern.{Extern, Codecs}
use gossip_observer.Manager.Handle.{run}
use gossip_observer.Manager.State.{CollectorManager, CollectorManagerMsg}
use gossip_observer.Prelude.{
  ℕ, ◌≡◌, refl, ap, ap₂, subst, ◌∙◌, sym, true, false, List, [], ◌∷◌, ◌++◌, Option, none, some, All,
  map, map-append, All-append, All-split, arith,
}
use gossip_observer.Prelude.Text.{Text}
use gossip_observer.Types.Gossip.{GossipNodeInfo, GossipChannelInfo}
use gossip_observer.Upload.Chunks.{concat, chunks, chunks_lem}
use gossip_observer.Upload.Delivered.{
  mail, run-append, post_all-append, Pushes, post_all-mail, map-pairs,
}
use gossip_observer.Upload.Readable.{
  read_nodes, read_channels, collect_nodes-read, collect_channels-read,
}
use gossip_observer.Upload.Graph.{
  GossipGraphChunk, post_all, node_chunk, channel_chunk, send_gossip_graph,
}
use gossip_observer.Upload.Received.{clean, HasU16Deltas, post_nodes-handled, post_channels-handled}
use gossip_observer.Wire.Convert.ChannelRound.{IsU16Delta}
use gossip_observer.Wire.Convert.Gossip.{LdkChannelInfo, channel_of_graph, direction_of_update}
use mathlib.Core.Option
use gossip_observer.Upload.Schedule.{
  NetworkGraph, Wake, Fate, Link, UploadEnd, push_channel, collect_nodes, collect_channels, request,
  controller_of, upload_turn, upload_gossip_graph,
}

module _ (x : Extern) where
  -- The deltas of a channel fit in 16 bits, which is their type in lightning.
  abbrev pub IsU16Channel : Option (LdkChannelInfo x) → Type 0
  IsU16Channel none = Unit
  IsU16Channel (some c) =
      IsU16Delta (Option.map direction_of_update c.one_to_two)
      × IsU16Delta (Option.map direction_of_update c.two_to_one)

  abbrev pub IsU16Graph : NetworkGraph x → Type 0
  IsU16Graph graph = (scid : ℕ) → IsU16Channel (graph.channel scid)

  module _ (codecs : Codecs x) (uuid : Text) where
    abbrev HasDeltas : List (GossipChannelInfo x) → Type 0
    HasDeltas = All (HasU16Deltas x codecs 0 uuid)

    push_channel-HasDeltas :
        (scid : ℕ) (o : Option (LdkChannelInfo x)) (l : List (GossipChannelInfo x))
        → IsU16Channel o
        → HasDeltas l
        → HasDeltas (push_channel x scid o l)
    unfolding channel_of_graph
    push_channel-HasDeltas scid none l h hs = hs
    push_channel-HasDeltas scid (some c) l h hs =
        at_keys (x.as_pubkey c.node_one) (x.as_pubkey c.node_two) refl refl
      where
        at_keys :
            (one two : Option x.PublicKey)
            → x.as_pubkey c.node_one ≡ one
            → x.as_pubkey c.node_two ≡ two
            → HasDeltas (push_channel x scid (some c) l)
        at_keys none two e f = rw (e) hs
        at_keys (some one) none e f = rw (e, f) hs
        at_keys (some one) (some two) e f = rw (e, f) (h, hs)

    collect-HasDeltas :
        (graph : NetworkGraph x) (scids : List ℕ)
        → IsU16Graph graph
        → HasDeltas (collect_channels x graph scids)
    unfolding collect_channels
    collect-HasDeltas graph [] h = tt
    collect-HasDeltas graph (scid ∷ scids) h =
        push_channel-HasDeltas scid (graph.channel scid) (collect_channels x graph scids) (h scid)
          (collect-HasDeltas graph scids h)

    abbrev pub IsScheduled : Wake x → Type 0
    IsScheduled (Wake.woken others graph reachable fates) = IsU16Graph graph
    IsScheduled _ = ⊥

    -- The pushes of a graph: its nodes without Onion V2 addresses and then its channels, in
    -- chunks of 1024.
    abbrev pub node_push : List (GossipNodeInfo x) → CollectorManagerMsg x
    node_push ns = CollectorManagerMsg.push_gossip_nodes uuid (map (clean x codecs 0 uuid) ns)

    abbrev pub channel_push : List (GossipChannelInfo x) → CollectorManagerMsg x
    channel_push cs = CollectorManagerMsg.push_gossip_channels uuid cs

    abbrev pub node_pushes : NetworkGraph x → List (CollectorManagerMsg x)
    node_pushes graph = map node_push (chunks 1024 (collect_nodes x graph graph.list_nodes))

    abbrev pub channel_pushes : NetworkGraph x → List (CollectorManagerMsg x)
    channel_pushes graph =
        map channel_push (chunks 1024 (collect_channels x graph graph.list_channels))

    abbrev pub mailbox : List (Wake x) → List (ℕ × CollectorManagerMsg x)
    mailbox [] = []
    mailbox (Wake.woken others graph false fates ∷ ws) = others ++ mailbox ws
    mailbox (Wake.woken others graph true fates ∷ ws) =
        others ++ (mail x fates 0 (node_pushes graph ++ channel_pushes graph) ++ mailbox ws)
    mailbox (_ ∷ ws) = mailbox ws

    nodes-Pushes :
        (css : List (List (GossipNodeInfo x)))
        → All (Pushes x) (map (λ ns. (node_chunk x uuid ns, node_push ns)) css)
    nodes-Pushes [] = tt
    nodes-Pushes (ns ∷ css) =
        (λ now mgr. post_nodes-handled x codecs now uuid mgr ns, nodes-Pushes css)

    channels-Pushes :
        (css : List (List (GossipChannelInfo x)))
        → HasDeltas (concat css)
        → All (Pushes x) (map (λ cs. (channel_chunk x uuid cs, channel_push cs)) css)
    channels-Pushes [] h = tt
    channels-Pushes (cs ∷ css) h =
        let (d, ds) = All-split (HasU16Deltas x codecs 0 uuid) cs (concat css) h in
        (λ now mgr. post_channels-handled x codecs now uuid mgr cs d, channels-Pushes css ds)

    pairs : NetworkGraph x → List (GossipGraphChunk × CollectorManagerMsg x)
    pairs graph =
        map (λ ns. (node_chunk x uuid ns, node_push ns))
          (chunks 1024 (collect_nodes x graph graph.list_nodes))
        ++ map (λ cs. (channel_chunk x uuid cs, channel_push cs))
            (chunks 1024 (collect_channels x graph graph.list_channels))

    upload_turn-mail :
        (graph : NetworkGraph x) (fates : ℕ → Fate x) (mgr : CollectorManager x)
        → IsU16Graph graph
        → upload_turn x uuid graph fates mgr
          ≡ run x mgr (mail x fates 0 (node_pushes graph ++ channel_pushes graph))
    unfolding upload_turn send_gossip_graph pairs
    upload_turn-mail graph fates mgr h =
        let ns = chunks 1024 (collect_nodes x graph graph.list_nodes) in
        let cs = chunks 1024 (collect_channels x graph graph.list_channels) in
        let link : Link x = record { mgr = mgr; sent = 0 } in
        let (p, q) = map-pairs x (node_chunk x uuid) node_push ns in
        let (p', q') = map-pairs x (channel_chunk x uuid) channel_push cs in
        let (whole, _) =
          chunks_lem 1024 (collect_channels x graph graph.list_channels) (omega arith) in
        ap (controller_of x) (
          sym (
            post_all-append x (request x fates) (map (node_chunk x uuid) ns)
              (map (channel_chunk x uuid) cs) link)
          ∙ ap (λ l. post_all x (request x fates) l link)
              (sym (map-append (λ r. r.0) _ _ ∙ ap₂ (λ a b. a ++ b) p p')))
        ∙ post_all-mail x fates (pairs graph) 0 mgr (
            All-append (Pushes x) _ _ (nodes-Pushes ns) (
              channels-Pushes cs
                (subst HasDeltas (sym whole) (collect-HasDeltas graph graph.list_channels h))))
        ∙ ap (λ l. run x mgr (mail x fates 0 l))
            (map-append (λ r. r.1) _ _ ∙ ap₂ (λ a b. a ++ b) q q')

    -- The nodes and the channels of the pushes.
    abbrev pub pushed_nodes : List (CollectorManagerMsg x) → List (GossipNodeInfo x)
    pushed_nodes [] = []
    pushed_nodes (CollectorManagerMsg.push_gossip_nodes u ns ∷ msgs) = ns ++ pushed_nodes msgs
    pushed_nodes (_ ∷ msgs) = pushed_nodes msgs

    abbrev pub pushed_channels : List (CollectorManagerMsg x) → List (GossipChannelInfo x)
    pushed_channels [] = []
    pushed_channels (CollectorManagerMsg.push_gossip_channels u cs ∷ msgs) =
        cs ++ pushed_channels msgs
    pushed_channels (_ ∷ msgs) = pushed_channels msgs

    nodes_whole :
        (css : List (List (GossipNodeInfo x)))
        → pushed_nodes (map node_push css) ≡ map (clean x codecs 0 uuid) (concat css)
    nodes_whole [] = refl
    nodes_whole (ns ∷ css) =
        ap (λ l. map (clean x codecs 0 uuid) ns ++ l) (nodes_whole css)
        ∙ sym (map-append (clean x codecs 0 uuid) ns (concat css))

    channels_whole :
        (css : List (List (GossipChannelInfo x)))
        → pushed_channels (map channel_push css) ≡ concat css
    channels_whole [] = refl
    channels_whole (cs ∷ css) = ap (λ l. cs ++ l) (channels_whole css)

    turns :
        (mgr : CollectorManager x) (ws : List (Wake x))
        → All IsScheduled ws
        → upload_gossip_graph x uuid mgr ws ≡ (run x mgr (mailbox ws), UploadEnd.waiting)
    unfolding upload_gossip_graph run
    turns mgr [] h = refl
    turns mgr (Wake.cancelled ∷ ws) (h, hs) = absurd h
    turns mgr (Wake.no_next_time ∷ ws) (h, hs) = absurd h
    turns mgr (Wake.woken others graph false fates ∷ ws) (h, hs) =
        turns (run x mgr others) ws hs
        ∙ ap (λ m. (m, UploadEnd.waiting)) (sym (run-append x others (mailbox ws) mgr))
    turns mgr (Wake.woken others graph true fates ∷ ws) (h, hs) =
        let mid = run x mgr others in
        let pushes = mail x fates 0 (node_pushes graph ++ channel_pushes graph) in
        turns (upload_turn x uuid graph fates mid) ws hs
        ∙ ap (λ m. (run x m (mailbox ws), UploadEnd.waiting)) (upload_turn-mail graph fates mid h)
        ∙ ap (λ m. (m, UploadEnd.waiting))
            (sym (
              run-append x others (pushes ++ mailbox ws) mgr
              ∙ run-append x pushes (mailbox ws) mid))

    -- In turns that are woken, the task goes on waiting, and leaves the controller as if its actor
    -- had handled this mailbox: what others sent, in its place, and for each turn that reaches the
    -- controller the pushes of the graph's nodes and then of its channels, in chunks of 1024, up to
    -- the first request that is lost, which is left out, or the first whose answer is lost,
    -- which was handled. All pushes of a turn together are exactly the nodes and channels that could
    -- be read from the graph, in order, the nodes without their Onion V2 addresses. The deltas of
    -- the channels fit in 16 bits.
    pub upload_gossip_graph_received :
        (mgr : CollectorManager x) (ws : List (Wake x)) (graph : NetworkGraph x)
        → All IsScheduled ws
        → (upload_gossip_graph x uuid mgr ws ≡ (run x mgr (mailbox ws), UploadEnd.waiting))
          × (pushed_nodes (node_pushes graph) ≡ map (clean x codecs 0 uuid) (read_nodes x graph))
          × (pushed_channels (channel_pushes graph) ≡ read_channels x graph)
    upload_gossip_graph_received mgr ws graph h = (
      turns mgr ws h,
      nodes_whole (chunks 1024 (collect_nodes x graph graph.list_nodes))
          ∙ ap (map (clean x codecs 0 uuid)) (
              (chunks_lem 1024 (collect_nodes x graph graph.list_nodes) (omega arith)).0
              ∙ collect_nodes-read x graph graph.list_nodes),
      channels_whole (chunks 1024 (collect_channels x graph graph.list_channels))
          ∙ (chunks_lem 1024 (collect_channels x graph graph.list_channels) (omega arith)).0
          ∙ collect_channels-read x graph graph.list_channels,
    )
