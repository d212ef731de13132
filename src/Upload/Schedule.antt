-- ===== src/Upload/Schedule.antt =====
-- gossip_collector/src/main.rs `upload_gossip_graph`: on a schedule, a collector reads its graph and
-- sends it to the controller.
use gossip_observer.Extern.{Extern}
use gossip_observer.Manager.State.{CollectorManager, CollectorManagerMsg}
use gossip_observer.Manager.Handle.{run}
use gossip_observer.Prelude.{
  ℕ, suc, Bool, true, false, List, [], ◌∷◌, Option, none, some, Result, ok, err,
}
use gossip_observer.Prelude.Text.{Text}
use gossip_observer.Types.Gossip.{GossipNodeInfo, GossipChannelInfo}
use gossip_observer.Upload.Graph.{
  Status, GossipGraphChunk, post_gossip_graph_chunk, send_gossip_graph,
}
use gossip_observer.Wire.Convert.Gossip.{
  LdkNodeAnnouncementInfo, LdkChannelInfo, node_of_graph, channel_of_graph,
}
use gossip_observer.Wire.Util.{ConvertError}

-- lightning's `NetworkGraph`, as it is read: its ids, the announcement of a node, and a channel.
pub record NetworkGraph (x : Extern) : Type 0 where
  pub list_nodes : List x.NodeId
  pub list_channels : List ℕ
  pub announcement : x.NodeId → Option (LdkNodeAnnouncementInfo x)
  pub channel : ℕ → Option (LdkChannelInfo x)

-- A request is answered, is lost on its way, or is handled but its answer is lost.
pub data Outcome : Type 0 where
  answered lost unanswered : Outcome

-- What happens to a request: the messages of others that the controller's actor handles before it,
-- its outcome, and when the actor handles it.
pub record Fate (x : Extern) : Type 0 where
  pub others : List (ℕ × CollectorManagerMsg x)
  pub outcome : Outcome
  pub now : ℕ

-- What ends a sleep: a cancellation, a schedule without a next time, or its time has come. Then it
-- says what the actor has handled since the last turn, the graph, whether the controller can be
-- reached, and what happens to each of the requests.
pub data Wake (x : Extern) : Type 0 where
  cancelled no_next_time : Wake x
  woken : List (ℕ × CollectorManagerMsg x) → NetworkGraph x → Bool → (ℕ → Fate x) → Wake x

-- The controller, and how many requests of the turn it has answered.
pub record Link (x : Extern) : Type 0 where
  pub mgr : CollectorManager x
  pub sent : ℕ

-- How the task ends: it waits for its next time, or it has returned.
pub data UploadEnd : Type 0 where
  waiting shut_down schedule_error : UploadEnd

abbrev pub push_ok {ℓ} : {A : Type ℓ} → Result A ConvertError → List A → List A
push_ok (ok a) l = a ∷ l
push_ok (err _) l = l

module _ (x : Extern) where
  -- The two loops over the ids. What cannot be read is skipped.
  unfoldable pub collect_nodes : NetworkGraph x → List x.NodeId → List (GossipNodeInfo x)
  collect_nodes graph [] = []
  collect_nodes graph (id ∷ ids) =
      push_ok (node_of_graph x id (graph.announcement id)) (collect_nodes graph ids)

  abbrev pub push_channel :
      ℕ → Option (LdkChannelInfo x) → List (GossipChannelInfo x) → List (GossipChannelInfo x)
  push_channel scid none l = l
  push_channel scid (some c) l = push_ok (channel_of_graph x scid c) l

  unfoldable pub collect_channels : NetworkGraph x → List ℕ → List (GossipChannelInfo x)
  collect_channels graph [] = []
  collect_channels graph (scid ∷ scids) =
      push_channel scid (graph.channel scid) (collect_channels graph scids)

  -- The controller after a handler.
  abbrev pub kept : CollectorManager x → Result (CollectorManager x) Status → CollectorManager x
  kept mgr (ok after) = after
  kept mgr (err _) = mgr

  -- What the collector learns of a request, on an error with the controller that it does not see.
  abbrev pub answer :
      Outcome
      → ℕ
      → CollectorManager x
      → Result (CollectorManager x) Status
      → Result (Link x) (CollectorManager x)
  answer Outcome.answered sent mgr (ok after) = ok (record { mgr = after; sent = sent })
  answer Outcome.answered sent mgr (err _) = err mgr
  answer Outcome.lost sent mgr r = err mgr
  answer Outcome.unanswered sent mgr r = err (kept mgr r)

  -- One request to the controller.
  abbrev pub request :
      (ℕ → Fate x) → GossipGraphChunk → Link x → Result (Link x) (CollectorManager x)
  request fates chunk link =
      let fate = fates link.sent in
      let mgr = run x link.mgr fate.others in
      answer fate.outcome (suc link.sent) mgr (post_gossip_graph_chunk x fate.now chunk mgr)

  -- The controller after a transfer. A transfer that failed is logged, and no more.
  abbrev pub controller_of : Result (Link x) (CollectorManager x) → CollectorManager x
  controller_of (ok link) = link.mgr
  controller_of (err mgr) = mgr

  module _ (uuid : Text) where
    -- One upload.
    unfoldable pub upload_turn :
        NetworkGraph x → (ℕ → Fate x) → CollectorManager x → CollectorManager x
    upload_turn graph fates mgr = controller_of (
        send_gossip_graph x (request fates) uuid (collect_nodes graph graph.list_nodes)
          (collect_channels graph graph.list_channels) (record { mgr = mgr; sent = 0 }))

    unfoldable pub upload_gossip_graph :
        CollectorManager x → List (Wake x) → CollectorManager x × UploadEnd
    upload_gossip_graph mgr [] = (mgr, UploadEnd.waiting)
    upload_gossip_graph mgr (Wake.cancelled ∷ _) = (mgr, UploadEnd.shut_down)
    upload_gossip_graph mgr (Wake.no_next_time ∷ _) = (mgr, UploadEnd.schedule_error)
    upload_gossip_graph mgr (Wake.woken others graph false fates ∷ ws) =
        upload_gossip_graph (run x mgr others) ws
    upload_gossip_graph mgr (Wake.woken others graph true fates ∷ ws) =
        upload_gossip_graph (upload_turn graph fates (run x mgr others)) ws
