-- ===== src/Wire/Rpc.antt =====
-- observer_common/src/gen/collectorrpc.rs and controllerrpc.rs: the messages that are converted.
use gossip_observer.Prelude.{ℕ, Bool, List, Option}
use gossip_observer.Prelude.Text.{Text}
use gossip_observer.Wire.Common.{Pubkey, SocketAddress, NodeAlias, CollectorInfo}

pub record NodeConfigResponse : Type 0 where
  pub listen_addrs : List SocketAddress
  pub node_alias : Option NodeAlias
  pub node_id : Option Pubkey

pub record PeerDetails : Type 0 where
  pub pubkey : Option Pubkey
  pub socket_addr : Option SocketAddress
  pub is_persisted : Bool
  pub is_connected : Bool

-- `timestamp` is in seconds.
pub record CollectorHeartbeat : Type 0 where
  pub timestamp : ℕ
  pub info : Option CollectorInfo

pub record StatusResponse : Type 0 where
  pub total_target_peer_count : ℕ
  pub current_peer_count : ℕ
  pub online_collector_count : ℕ
  pub offline_collector_count : ℕ
  pub offline_collectors : List Text
  pub statuses : List CollectorHeartbeat
