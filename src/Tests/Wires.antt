-- ===== src/Tests/Wires.antt =====
-- Round trips and reads of concrete records.
use gossip_observer.Prelude.{zero, suc, ℕ, ◌≡◌, refl, true, false, List, [], ◌∷◌, none, some, ok}
use gossip_observer.Prelude.Text.{codes}
use gossip_observer.Tests.World.{world, world_codecs}
use gossip_observer.Types.Collector.{LdkNodeConfig, PeerDetails, CollectorInfo, OpenChannelCommand}
use gossip_observer.Types.Gossip.{GossipNodeInfo, GossipChannelInfo}
use gossip_observer.Types.Peers.{PeerConnectionInfo}
use gossip_observer.Wire.Convert.{from_collector, try_collector}
use gossip_observer.Wire.Convert.Gossip.{
  from_node, try_node, LdkChannelInfo, LdkNodeAnnouncementInfo, ChannelUpdateInfo,
  direction_of_update,
}
use gossip_observer.Wire.Convert.NodeRound.{without_onion_v2_info, try_node-from_node}
use gossip_observer.Wire.Convert.Rounds.{try_collector-from_collector}
use mathlib.Core.Option

abbrev peer : PeerConnectionInfo world
peer = record { pubkey = 7; addrs = 3 ∷ 10 ∷ [] }

abbrev command : OpenChannelCommand world
command = record { peer = peer; capacity_sats = 100000; push_amount_msat = none }

abbrev details : PeerDetails world
details = record { node_id = 7; address = 10; is_persisted = true; is_connected = false }

abbrev collector : CollectorInfo world
collector = record {
  uuid = codes "a";
  pubkey = 1;
  listen_addrs = 3 ∷ 4 ∷ [];
  onchain_addr = 1;
  balances = record { total_onchain = 5; spendable_onchain = 4; total_lightning_balance = 3 };
  peer_count = 3;
  target_count = 10;
  eligible_peers = 5;
  grpc_socket = codes "s";
}

abbrev alias_bytes : ℕ → List ℕ
alias_bytes zero = []
alias_bytes (suc n) = 65 ∷ alias_bytes n

abbrev config : LdkNodeConfig world
config = record {
  listening_addresses = some [];
  node_alias = some (record { bytes = alias_bytes 32 });
  node_id = 7;
}

abbrev node : GossipNodeInfo world
node = record {
  pubkey = 1;
  info = some (record { last_update = 5; alias = codes "n"; addresses = 2 ∷ 10 ∷ [] });
}

abbrev update : ℕ → ChannelUpdateInfo
update time = record {
  htlc_minimum_msat = 1;
  htlc_maximum_msat = 2;
  base_msat = 3;
  proportional_millionths = 4;
  cltv_expiry_delta = 65535;
  last_update = time;
}

abbrev channel : GossipChannelInfo world
channel = record {
  scid = 9;
  node_one = 1;
  node_two = 2;
  last_update = some 8;
  capacity_sats = none;
  one_to_two = some (direction_of_update (update 8));
  two_to_one = none;
}

abbrev announcement : LdkNodeAnnouncementInfo world
announcement = record { last_update = 5; alias = codes "n"; addresses = 10 ∷ 2 ∷ 10 ∷ [] }

abbrev graph_channel : LdkChannelInfo world
graph_channel = record {
  node_one = 1;
  node_two = 2;
  capacity_sats = some 7;
  one_to_two = some (update 8);
  two_to_one = some (update 9);
}

try_collector-from_collector_example :
    try_collector world (from_collector world collector) ≡ ok collector
try_collector-from_collector_example =
    try_collector-from_collector world world_codecs collector refl (refl, (refl, tt))

try_node-from_node_example :
    try_node world (from_node world node)
    ≡ ok (record node { info = Option.map (without_onion_v2_info world world_codecs) node.info })
try_node-from_node_example = try_node-from_node world world_codecs node
