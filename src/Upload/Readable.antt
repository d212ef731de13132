-- ===== src/Upload/Readable.antt =====
-- What the loops of `upload_gossip_graph` over a graph collect.
use gossip_observer.Extern.{Extern}
use gossip_observer.Prelude.{
  ℕ, ◌≡◌, refl, ap, ◌∙◌, List, [], ◌∷◌, Option, none, some, map, Result, ok, err, somes, cons_some,
}
use gossip_observer.Types.Gossip.{GossipNodeInfo, GossipChannelInfo}
use gossip_observer.Upload.Schedule.{
  NetworkGraph, push_ok, push_channel, collect_nodes, collect_channels,
}
use gossip_observer.Wire.Convert.Gossip.{LdkChannelInfo, node_of_graph, channel_of_graph}
use gossip_observer.Wire.Util.{ConvertError}

module _ (x : Extern) where
  abbrev pub readable {ℓ} : {A : Type ℓ} → Result A ConvertError → Option A
  readable (ok a) = some a
  readable (err _) = none

  -- The nodes and the channels of a graph that can be read.
  abbrev pub read_nodes : NetworkGraph x → List (GossipNodeInfo x)
  read_nodes graph =
      somes (map (λ id. readable (node_of_graph x id (graph.announcement id))) graph.list_nodes)

  abbrev pub read_channel : ℕ → Option (LdkChannelInfo x) → Option (GossipChannelInfo x)
  read_channel scid none = none
  read_channel scid (some c) = readable (channel_of_graph x scid c)

  abbrev pub read_channels : NetworkGraph x → List (GossipChannelInfo x)
  read_channels graph =
      somes (map (λ scid. read_channel scid (graph.channel scid)) graph.list_channels)

  push_ok-readable :
      {A : Type 0} (r : Result A ConvertError) (l : List A) → push_ok r l ≡ cons_some (readable r) l
  push_ok-readable (ok a) l = refl
  push_ok-readable (err e) l = refl

  push_channel-read :
      (scid : ℕ) (o : Option (LdkChannelInfo x)) (l : List (GossipChannelInfo x))
      → push_channel x scid o l ≡ cons_some (read_channel scid o) l
  push_channel-read scid none l = refl
  push_channel-read scid (some c) l = push_ok-readable (channel_of_graph x scid c) l

  pub collect_nodes-read :
      (graph : NetworkGraph x) (ids : List x.NodeId)
      → collect_nodes x graph ids
        ≡ somes (map (λ id. readable (node_of_graph x id (graph.announcement id))) ids)
  unfolding collect_nodes
  collect_nodes-read graph [] = refl
  collect_nodes-read graph (id ∷ ids) =
      push_ok-readable (node_of_graph x id (graph.announcement id)) (collect_nodes x graph ids)
      ∙ ap (cons_some (readable (node_of_graph x id (graph.announcement id))))
          (collect_nodes-read graph ids)

  pub collect_channels-read :
      (graph : NetworkGraph x) (scids : List ℕ)
      → collect_channels x graph scids
        ≡ somes (map (λ scid. read_channel scid (graph.channel scid)) scids)
  unfolding collect_channels
  collect_channels-read graph [] = refl
  collect_channels-read graph (scid ∷ scids) =
      push_channel-read scid (graph.channel scid) (collect_channels x graph scids)
      ∙ ap (cons_some (read_channel scid (graph.channel scid))) (collect_channels-read graph scids)
