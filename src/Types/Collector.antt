-- ===== src/Types/Collector.antt =====
-- The records about collectors and their node: `Balances`, `CollectorInfo`, `CollectorHeartbeat`,
-- `OpenChannelCommand`, `ManagerStatus`, `LdkNodeConfig` and ldk-node's `PeerDetails`.
use gossip_observer.Extern.{Extern}
use gossip_observer.Prelude.{ℕ, Bool, List, Option}
use gossip_observer.Prelude.Text.{Text}
use gossip_observer.Types.Peers.{PeerConnectionInfo}

-- lightning's `NodeAlias([u8; 32])`.
pub record NodeAlias : Type 0 where
  pub bytes : List ℕ

pub record LdkNodeConfig (x : Extern) : Type 0 where
  pub listening_addresses : Option (List x.SocketAddress)
  pub node_alias : Option NodeAlias
  pub node_id : x.PublicKey

-- The four fields of ldk-node's record that are carried over.
pub record PeerDetails (x : Extern) : Type 0 where
  pub node_id : x.PublicKey
  pub address : x.SocketAddress
  pub is_persisted : Bool
  pub is_connected : Bool

pub record Balances : Type 0 where
  pub total_onchain : ℕ
  pub spendable_onchain : ℕ
  pub total_lightning_balance : ℕ

pub record CollectorInfo (x : Extern) : Type 0 where
  pub uuid : Text
  pub pubkey : x.PublicKey
  pub listen_addrs : List x.SocketAddress
  pub onchain_addr : x.Address
  pub balances : Balances
  pub peer_count : ℕ
  pub target_count : ℕ
  pub eligible_peers : ℕ
  pub grpc_socket : Text

-- Timestamps are nanoseconds since the epoch.
pub record CollectorHeartbeat (x : Extern) : Type 0 where
  pub info : CollectorInfo x
  pub timestamp : ℕ

pub record OpenChannelCommand (x : Extern) : Type 0 where
  pub peer : PeerConnectionInfo x
  pub capacity_sats : ℕ
  pub push_amount_msat : Option ℕ

pub record ManagerStatus (x : Extern) : Type 0 where
  pub total_target_peer_count : ℕ
  pub current_peer_count : ℕ
  pub online_collector_count : ℕ
  pub offline_collector_count : ℕ
  pub offline_collectors : List Text
  pub statuses : List (CollectorHeartbeat x)
