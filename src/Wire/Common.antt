-- ===== src/Wire/Common.antt =====
-- observer_common/src/gen/common.rs: the messages as structs.
use gossip_observer.Prelude.{ℕ, List, Option}
use gossip_observer.Prelude.Text.{Text}

pub record Pubkey : Type 0 where
  pub pubkey : Text

pub record SocketAddress : Type 0 where
  pub address : Text

pub record NodeAlias : Type 0 where
  pub alias : List ℕ

pub record OnchainAddress : Type 0 where
  pub address : Text

pub record PeerConnectionInfo : Type 0 where
  pub pubkey : Option Pubkey
  pub socket_addrs : List SocketAddress

pub record BalancesResponse : Type 0 where
  pub total_onchain : ℕ
  pub spendable_onchain : ℕ
  pub total_lightning_balance : ℕ

pub record CollectorInfo : Type 0 where
  pub uuid : Text
  pub pubkey : Option Pubkey
  pub listen_addrs : List SocketAddress
  pub onchain_addr : Option OnchainAddress
  pub balances : Option BalancesResponse
  pub peer_count : ℕ
  pub target_count : ℕ
  pub eligible_peers : ℕ
  pub grpc_socket : Text

pub record OpenChannelRequest : Type 0 where
  pub peer : Option PeerConnectionInfo
  pub capacity : ℕ
  pub push_amount_msat : Option ℕ

pub record NodeAnnouncementInfo : Type 0 where
  pub last_update : ℕ
  pub alias : Text
  pub addresses : List SocketAddress

pub record GossipNodeInfo : Type 0 where
  pub pubkey : Option Pubkey
  pub info : Option NodeAnnouncementInfo

pub record GossipChannelDirectionInfo : Type 0 where
  pub htlc_min_msat : ℕ
  pub htlc_max_msat : ℕ
  pub fees_base_msat : ℕ
  pub fees_proportional_millionths : ℕ
  pub cltv_expiry_delta : ℕ
  pub last_update : ℕ

pub record GossipChannelInfo : Type 0 where
  pub scid : ℕ
  pub node_one : Option Pubkey
  pub node_two : Option Pubkey
  pub last_update : Option ℕ
  pub capacity_sats : Option ℕ
  pub one_to_two : Option GossipChannelDirectionInfo
  pub two_to_one : Option GossipChannelDirectionInfo
