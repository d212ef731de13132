-- ===== src/Upload/Graph.antt =====
-- observer_common/src/controller_client.rs `send_gossip_graph`, and observer_controller/src/
-- grpc_server.rs `post_gossip_graph_chunk`, which gives each chunk to the collector manager.
use gossip_observer.Extern.{Extern}
use gossip_observer.Manager.Handle.{handle_msg}
use gossip_observer.Manager.State.{CollectorManager, CollectorManagerMsg}
use gossip_observer.Prelude.{ℕ, List, [], ◌∷◌, Option, none, some, Result, ok, err, ◌>>=◌, map}
use gossip_observer.Prelude.Text.{Text}
use gossip_observer.Types.Gossip.{GossipNodeInfo, GossipChannelInfo}
use gossip_observer.Upload.Chunks.{chunks}
use gossip_observer.Wire.Common
use gossip_observer.Wire.Convert.Gossip.{from_node, try_node, from_channel, try_channel}
use gossip_observer.Wire.Util.{try_convert_vec, convert_vec, ConvertError}

-- `gossip_graph_chunk::Data`.
pub data Data : Type 0 where
  nodes : List Common.GossipNodeInfo → Data
  channels : List Common.GossipChannelInfo → Data

pub record GossipGraphChunk : Type 0 where
  pub collector_uuid : Text
  pub content : Option Data

-- `tonic::Status`, as the handler makes it.
pub data Status : Type 0 where
  data_is_required : Status
  invalid_argument : ConvertError → Status

abbrev pub as_argument {ℓ} : {A : Type ℓ} → Result A ConvertError → Result A Status
as_argument (ok a) = ok a
as_argument (err e) = err (Status.invalid_argument e)

module _ (x : Extern) where
  -- The handler. The actor handles the message at `now`.
  unfoldable pub post_gossip_graph_chunk :
      ℕ → GossipGraphChunk → CollectorManager x → Result (CollectorManager x) Status
  post_gossip_graph_chunk now chunk mgr = elim chunk.content [
    | none ↦ err Status.data_is_required
    | some (Data.nodes batch) ↦ do
      ns ← as_argument (try_convert_vec (try_node x) batch)
      ok (handle_msg x now mgr (CollectorManagerMsg.push_gossip_nodes chunk.collector_uuid ns)).0
    | some (Data.channels batch) ↦ do
      cs ← as_argument (try_convert_vec (try_channel x) batch)
      ok (handle_msg x now mgr (CollectorManagerMsg.push_gossip_channels chunk.collector_uuid cs)).0
  ]

  -- One request after the other; the first error ends the transfer.
  unfoldable pub post_all :
      {S E : Type 0} → (GossipGraphChunk → S → Result S E) → List GossipGraphChunk → S → Result S E
  post_all post [] s = ok s
  post_all post (c ∷ cs) s = do next ← post c s; post_all post cs next

  abbrev pub chunk_size : ℕ
  chunk_size = 1024

  abbrev pub node_chunk : Text → List (GossipNodeInfo x) → GossipGraphChunk
  node_chunk uuid chunk = record {
    collector_uuid = uuid;
    content = some (Data.nodes (convert_vec (from_node x) chunk));
  }

  abbrev pub channel_chunk : Text → List (GossipChannelInfo x) → GossipGraphChunk
  channel_chunk uuid chunk = record {
    collector_uuid = uuid;
    content = some (Data.channels (convert_vec (from_channel x) chunk));
  }

  unfoldable pub send_gossip_graph :
      {S E : Type 0}
      → (GossipGraphChunk → S → Result S E)
      → Text
      → List (GossipNodeInfo x)
      → List (GossipChannelInfo x)
      → S
      → Result S E
  send_gossip_graph post uuid ns cs s = do
    after ← post_all post (map (node_chunk uuid) (chunks chunk_size ns)) s
    post_all post (map (channel_chunk uuid) (chunks chunk_size cs)) after
