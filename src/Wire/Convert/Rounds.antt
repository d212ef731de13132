-- ===== src/Wire/Convert/Rounds.antt =====
-- Round trips of the requests and answers: what is sent is read back.
use gossip_observer.Extern.{Extern, Codecs}
use gossip_observer.Prelude.{
  ◌≡◌, refl, true, false, List, [], ◌∷◌, Option, none, some, ok, All, All-impl, length,
}
use gossip_observer.Types.Collector.{
  NodeAlias, LdkNodeConfig, PeerDetails, CollectorInfo, OpenChannelCommand,
}
use gossip_observer.Types.Peers.{PeerConnectionInfo}
use gossip_observer.Wire.Convert.{
  from_node_alias, try_node_alias, from_socket, try_socket, from_peer, try_peer, from_peer_details,
  try_peer_details, from_node_config, try_node_config, try_listen_addrs, from_collector,
  try_collector, from_open_channel, try_open_channel, try_eligible_peers, or_nothing,
}
use mathlib.Core.Option
use gossip_observer.Wire.Util.{
  try_convert_vec, convert_vec, convert_option, convert_required_field, try_convert_vec-convert_vec,
}

module _ (x : Extern) (codecs : Codecs x) where
  abbrev pub NoOnionV2 : List x.SocketAddress → Type 0
  NoOnionV2 = All (λ a. x.is_onion_v2 a ≡ false)

  try_socket-from_socket :
      (a : x.SocketAddress) → x.is_onion_v2 a ≡ false → try_socket x (from_socket x a) ≡ ok a
  try_socket-from_socket a h = rw (codecs.socket_round a h) refl

  sockets_round :
      (addrs : List x.SocketAddress)
      → NoOnionV2 addrs
      → try_convert_vec (try_socket x) (convert_vec (from_socket x) addrs) ≡ ok addrs
  sockets_round addrs h =
      try_convert_vec-convert_vec (from_socket x) (try_socket x) addrs
        (All-impl _ _ addrs try_socket-from_socket h)

  try_peer-from_peer :
      (p : PeerConnectionInfo x) → NoOnionV2 p.addrs → try_peer x (from_peer x p) ≡ ok p
  unfolding try_peer from_peer convert_required_field
  try_peer-from_peer p h = rw (codecs.pubkey_round p.pubkey, sockets_round p.addrs h) refl

  -- A list of peers that a controller sends is what the collector reads, if no address is an
  -- Onion V2 address.
  pub try_eligible_peers-from_peer :
      (ps : List (PeerConnectionInfo x))
      → All (λ p. NoOnionV2 p.addrs) ps
      → try_eligible_peers x (convert_vec (from_peer x) ps) ≡ ok ps
  unfolding try_eligible_peers
  try_eligible_peers-from_peer ps h =
      try_convert_vec-convert_vec (from_peer x) (try_peer x) ps
        (All-impl _ _ ps try_peer-from_peer h)

  -- An open channel command that is sent is the command that is read, if no address of its peer is
  -- an Onion V2 address.
  pub try_open_channel-from_open_channel :
      (cmd : OpenChannelCommand x)
      → NoOnionV2 cmd.peer.addrs
      → try_open_channel x (from_open_channel x cmd) ≡ ok cmd
  unfolding try_open_channel from_open_channel convert_required_field
  try_open_channel-from_open_channel cmd h = rw (try_peer-from_peer cmd.peer h) refl

  -- The details of a connected peer that are sent are the details that are read, if its address is
  -- no Onion V2 address.
  pub try_peer_details-from_peer_details :
      (p : PeerDetails x)
      → x.is_onion_v2 p.address ≡ false
      → try_peer_details x (from_peer_details x p) ≡ ok p
  unfolding try_peer_details from_peer_details convert_required_field
  try_peer_details-from_peer_details p h =
      rw (codecs.pubkey_round p.node_id, codecs.socket_round p.address h) refl

  -- A report that a collector sends is the report that the controller reads, if its on-chain address
  -- is a mainnet address and none of its listening addresses is an Onion V2 address.
  pub try_collector-from_collector :
      (info : CollectorInfo x)
      → x.is_mainnet info.onchain_addr ≡ true
      → NoOnionV2 info.listen_addrs
      → try_collector x (from_collector x info) ≡ ok info
  unfolding try_collector from_collector convert_required_field
  try_collector-from_collector info m h =
      rw
        (
          codecs.pubkey_round info.pubkey,
          codecs.address_round info.onchain_addr m,
          sockets_round info.listen_addrs h,
        )
        refl

  -- Whether an empty list was given or none is not sent.
  abbrev pub non_empty : Option (List x.SocketAddress) → Option (List x.SocketAddress)
  non_empty (some (a ∷ as')) = some (a ∷ as')
  non_empty _ = none

  listen_addrs_round :
      (o : Option (List x.SocketAddress))
      → NoOnionV2 (or_nothing o)
      → try_listen_addrs x (convert_vec (from_socket x) (or_nothing o)) ≡ ok (non_empty o)
  unfolding try_listen_addrs convert_vec
  listen_addrs_round none h = refl
  listen_addrs_round (some []) h = refl
  listen_addrs_round (some (a ∷ as')) h = rw (sockets_round (a ∷ as') h) refl

  abbrev pub IsAlias : Option NodeAlias → Type 0
  IsAlias none = Unit
  IsAlias (some alias) = length alias.bytes ≡ 32

  alias_round :
      (o : Option NodeAlias)
      → IsAlias o
      → convert_option try_node_alias (Option.map from_node_alias o) ≡ ok o
  unfolding convert_option try_node_alias
  alias_round none h = refl
  alias_round (some alias) h = rw h refl

  -- A node's configuration that is sent is read back, but an empty list of listening addresses is
  -- read as none. Its alias must have 32 bytes, as the type `NodeAlias` has, and no listening
  -- address may be an Onion V2 address.
  pub try_node_config-from_node_config :
      (config : LdkNodeConfig x)
      → IsAlias config.node_alias
      → NoOnionV2 (or_nothing config.listening_addresses)
      → try_node_config x (from_node_config x config)
        ≡ ok (record config { listening_addresses = non_empty config.listening_addresses })
  unfolding try_node_config from_node_config convert_required_field
  try_node_config-from_node_config config a h =
      rw
        (
          listen_addrs_round config.listening_addresses h,
          alias_round config.node_alias a,
          codecs.pubkey_round config.node_id,
        )
        refl
