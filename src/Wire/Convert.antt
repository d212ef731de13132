-- ===== src/Wire/Convert.antt =====
-- observer_common/src/types.rs: the conversions between its records and the messages, with those of
-- the string wrappers of util.rs.
pub mod Gossip
pub mod Rounds
pub mod NodeRound
pub mod ChannelRound
use gossip_observer.Extern.{Extern}
use gossip_observer.Prelude.{
  ℕ, ◌/◌, ◌^◌, ◌%◌, ◌==◌, List, [], ◌∷◌, Option, none, some, Result, ok, err, ◌>>=◌, ok_or, length,
  if◌then◌else◌,
}
use gossip_observer.Prelude.Text.{Text, codes}
use gossip_observer.Types.Collector.{
  NodeAlias, LdkNodeConfig, PeerDetails, Balances, CollectorInfo, CollectorHeartbeat,
  OpenChannelCommand, ManagerStatus,
}
use gossip_observer.Types.Peers.{PeerConnectionInfo}
use gossip_observer.Wire.Common
use gossip_observer.Wire.Rpc
use gossip_observer.Wire.Util.{
  ConvertError, try_convert_vec, convert_vec, convert_option, convert_required_field,
}
use mathlib.Core.Option

abbrev pub or_nothing {ℓ} : {A : Type ℓ} → Option (List A) → List A
or_nothing none = []
or_nothing (some as') = as'

abbrev pub from_node_alias : NodeAlias → Common.NodeAlias
from_node_alias alias = record { alias = alias.bytes }

-- A slice converts to `[u8; 32]` if it has that length.
unfoldable pub try_node_alias : Common.NodeAlias → Result NodeAlias ConvertError
try_node_alias alias =
    if length alias.alias == 32
    then ok (record { bytes = alias.alias })
    else err ConvertError.invalid

abbrev pub from_balances : Balances → Common.BalancesResponse
from_balances b = record {
  total_onchain = b.total_onchain;
  spendable_onchain = b.spendable_onchain;
  total_lightning_balance = b.total_lightning_balance;
}

abbrev pub to_balances : Common.BalancesResponse → Balances
to_balances b = record {
  total_onchain = b.total_onchain;
  spendable_onchain = b.spendable_onchain;
  total_lightning_balance = b.total_lightning_balance;
}

module _ (x : Extern) where
  abbrev pub from_pubkey : x.PublicKey → Common.Pubkey
  from_pubkey k = record { pubkey = x.pubkey_to_string k }

  abbrev pub try_pubkey : Common.Pubkey → Result x.PublicKey ConvertError
  try_pubkey k = ok_or (x.parse_pubkey k.pubkey) ConvertError.invalid

  abbrev pub from_socket : x.SocketAddress → Common.SocketAddress
  from_socket a = record { address = x.socket_to_string a }

  abbrev pub try_socket : Common.SocketAddress → Result x.SocketAddress ConvertError
  try_socket a = ok_or (x.parse_socket a.address) ConvertError.invalid

  abbrev pub from_address : x.Address → Common.OnchainAddress
  from_address a = record { address = x.address_to_string a }

  abbrev pub try_address : Common.OnchainAddress → Result x.Address ConvertError
  try_address a = ok_or (x.parse_address a.address) ConvertError.invalid

  unfoldable pub from_peer : PeerConnectionInfo x → Common.PeerConnectionInfo
  from_peer info = record {
    pubkey = some (from_pubkey info.pubkey);
    socket_addrs = convert_vec from_socket info.addrs;
  }

  unfoldable pub try_peer : Common.PeerConnectionInfo → Result (PeerConnectionInfo x) ConvertError
  try_peer info = do
    pubkey ← convert_required_field try_pubkey info.pubkey (codes "pubkey")
    addrs ← try_convert_vec try_socket info.socket_addrs
    ok (record { pubkey = pubkey; addrs = addrs })

  -- `TryFrom<EligiblePeersRequest>`, on the `peers` of the request.
  unfoldable pub try_eligible_peers :
      List Common.PeerConnectionInfo → Result (List (PeerConnectionInfo x)) ConvertError
  try_eligible_peers = try_convert_vec try_peer

  unfoldable pub from_peer_details : PeerDetails x → Rpc.PeerDetails
  from_peer_details peer = record {
    pubkey = some (from_pubkey peer.node_id);
    socket_addr = some (from_socket peer.address);
    is_persisted = peer.is_persisted;
    is_connected = peer.is_connected;
  }

  unfoldable pub try_peer_details : Rpc.PeerDetails → Result (PeerDetails x) ConvertError
  try_peer_details peer = do
    node_id ← convert_required_field try_pubkey peer.pubkey (codes "pubkey")
    address ← convert_required_field try_socket peer.socket_addr (codes "socket_addr")
    ok (record {
      node_id = node_id;
      address = address;
      is_persisted = peer.is_persisted;
      is_connected = peer.is_connected;
    })

  unfoldable pub from_node_config : LdkNodeConfig x → Rpc.NodeConfigResponse
  from_node_config config = record {
    listen_addrs = convert_vec from_socket (or_nothing config.listening_addresses);
    node_alias = Option.map from_node_alias config.node_alias;
    node_id = some (from_pubkey config.node_id);
  }

  -- An empty list of addresses is read as no list.
  unfoldable pub try_listen_addrs :
      List Common.SocketAddress → Result (Option (List x.SocketAddress)) ConvertError
  try_listen_addrs [] = ok none
  try_listen_addrs (a ∷ as') = do addrs ← try_convert_vec try_socket (a ∷ as'); ok (some addrs)

  unfoldable pub try_node_config : Rpc.NodeConfigResponse → Result (LdkNodeConfig x) ConvertError
  try_node_config resp = do
    listening_addresses ← try_listen_addrs resp.listen_addrs
    node_alias ← convert_option try_node_alias resp.node_alias
    node_id ← convert_required_field try_pubkey resp.node_id (codes "node_id")
    ok (record {
      listening_addresses = listening_addresses;
      node_alias = node_alias;
      node_id = node_id;
    })

  unfoldable pub from_collector : CollectorInfo x → Common.CollectorInfo
  from_collector info = record {
    uuid = info.uuid;
    pubkey = some (from_pubkey info.pubkey);
    listen_addrs = convert_vec from_socket info.listen_addrs;
    onchain_addr = some (from_address info.onchain_addr);
    balances = some (from_balances info.balances);
    peer_count = info.peer_count;
    target_count = info.target_count;
    eligible_peers = info.eligible_peers;
    grpc_socket = info.grpc_socket;
  }

  unfoldable pub try_collector : Common.CollectorInfo → Result (CollectorInfo x) ConvertError
  try_collector info = do
    pubkey ← convert_required_field try_pubkey info.pubkey (codes "pubkey")
    onchain_addr ← convert_required_field try_address info.onchain_addr (codes "onchain_addr")
    balances ← convert_required_field (λ b. ok (to_balances b)) info.balances (codes "balances")
    listen_addrs ← try_convert_vec try_socket info.listen_addrs
    ok (record {
      uuid = info.uuid;
      pubkey = pubkey;
      listen_addrs = listen_addrs;
      onchain_addr = onchain_addr;
      balances = balances;
      peer_count = info.peer_count;
      target_count = info.target_count;
      eligible_peers = info.eligible_peers;
      grpc_socket = info.grpc_socket;
    })

  -- `timestamp.timestamp() as u64`: whole seconds.
  unfoldable pub from_heartbeat : CollectorHeartbeat x → Rpc.CollectorHeartbeat
  from_heartbeat hb = record {
    timestamp = hb.timestamp / 10 ^ 9 % 2 ^ 64;
    info = some (from_collector hb.info);
  }

  unfoldable pub from_status : ManagerStatus x → Rpc.StatusResponse
  from_status status = record {
    total_target_peer_count = status.total_target_peer_count;
    current_peer_count = status.current_peer_count;
    online_collector_count = status.online_collector_count;
    offline_collector_count = status.offline_collector_count;
    offline_collectors = status.offline_collectors;
    statuses = convert_vec from_heartbeat status.statuses;
  }

  unfoldable pub from_open_channel : OpenChannelCommand x → Common.OpenChannelRequest
  from_open_channel cmd = record {
    peer = some (from_peer cmd.peer);
    capacity = cmd.capacity_sats;
    push_amount_msat = cmd.push_amount_msat;
  }

  unfoldable pub try_open_channel :
      Common.OpenChannelRequest → Result (OpenChannelCommand x) ConvertError
  try_open_channel req = do
    peer ← convert_required_field try_peer req.peer (codes "peer")
    ok (record {
      peer = peer;
      capacity_sats = req.capacity;
      push_amount_msat = req.push_amount_msat;
    })
