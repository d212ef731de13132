-- ===== src/Types/Gossip.antt =====
-- `GossipNodeInfo`, `NodeAnnouncementInfo`, `GossipChannelDirectionInfo`, `GossipChannelInfo` and
-- their comparisons and merges.
pub mod Node
pub mod Direction
pub mod Channel
use gossip_observer.Extern.{Extern}
use gossip_observer.Prelude.{ℕ, List, Option}
use gossip_observer.Prelude.Text.{Text}

pub record NodeAnnouncementInfo (x : Extern) : Type 0 where
  pub last_update : ℕ
  pub alias : Text
  pub addresses : List x.SocketAddress

pub record GossipNodeInfo (x : Extern) : Type 0 where
  pub pubkey : x.PublicKey
  pub info : Option (NodeAnnouncementInfo x)

pub record GossipChannelDirectionInfo : Type 0 where
  pub htlc_min_msat : ℕ
  pub htlc_max_msat : ℕ
  pub fees_base_msat : ℕ
  pub fees_proportional_millionths : ℕ
  pub cltv_expiry_delta : ℕ
  pub last_update : ℕ

pub record GossipChannelInfo (x : Extern) : Type 0 where
  pub scid : ℕ
  pub node_one : x.PublicKey
  pub node_two : x.PublicKey
  pub last_update : Option ℕ
  pub capacity_sats : Option ℕ
  pub one_to_two : Option GossipChannelDirectionInfo
  pub two_to_one : Option GossipChannelDirectionInfo
