-- ===== src/Channels.antt =====
-- How the controller has a collector open a channel and update its channels: the handlers of
-- observer_controller/src/grpc_server.rs and gossip_collector/src/grpc_server.rs, and `open_channel`
-- of gossip_collector/src/node_manager.rs.
pub mod Forwarded
use gossip_observer.Extern.{Extern}
use gossip_observer.Manager.Handle.{handle_msg}
use gossip_observer.Manager.State.{CollectorManager, CollectorManagerMsg, Reply}
use gossip_observer.Prelude.{
  ℕ, suc, Bool, true, false, List, [], ◌∷◌, ◌++◌, Option, none, some, Result, ok, err, ◌>>=◌, ok_or,
  last?,
}
use gossip_observer.Prelude.Bytes.{Bytes, le_bytes}
use gossip_observer.Prelude.Text.{Text}
use gossip_observer.Types.Collector.{CollectorHeartbeat, OpenChannelCommand}
use gossip_observer.Wire.Common
use gossip_observer.Wire.Util.{ConvertError}
use gossip_observer.Wire.Convert.{from_open_channel, try_open_channel}

-- A channel of ldk-node, as it is read.
pub record ChannelDetails (x : Extern) : Type 0 where
  pub user_channel_id : ℕ
  pub counterparty_node_id : x.PublicKey
  pub short_channel_id : Option ℕ
  pub is_usable : Bool

-- ldk-node: `open_announced_channel` gives the id of the channel, or `none` if it fails.
pub record LdkNode (x : Extern) : Type 1 where
  pub Node : Type 0
  pub ChannelConfig : Type 0
  pub open_announced_channel : x.PublicKey → x.SocketAddress → ℕ → Option ℕ → Node → Node × Option ℕ
  pub list_channels : Node → List (ChannelDetails x)
  pub update_channel_config : ℕ → x.PublicKey → ChannelConfig → Node → Node × Bool

pub data ChannelError : Type 0 where
  unreadable missing_addr node_failed update_failed : ChannelError
  manager_failed not_found unavailable request_required invalid_request : ChannelError
  collector_failed : ChannelError → ChannelError

-- The answer of a call of the collector, as the controller's client sees it.
abbrev pub from_collector {ℓ} : {A : Type ℓ} → Result A ChannelError → Result A ChannelError
from_collector (ok a) = ok a
from_collector (err e) = err (ChannelError.collector_failed e)

module _ (x : Extern) (ldk : LdkNode x) where
  -- What ldk-node answers, as the id of the channel in bytes: a `u128`.
  abbrev pub opened : ldk.Node × Option ℕ → ldk.Node × Result Bytes ChannelError
  opened (node, some id) = (node, ok (le_bytes 16 id))
  opened (node, none) = (node, err ChannelError.node_failed)

  -- The last address of the peer is the one that is used.
  abbrev pub open_at :
      OpenChannelCommand x
      → Option x.SocketAddress
      → ldk.Node
      → ldk.Node × Result Bytes ChannelError
  open_at cmd none node = (node, err ChannelError.missing_addr)
  open_at cmd (some addr) node =
      opened (
        ldk.open_announced_channel cmd.peer.pubkey addr cmd.capacity_sats cmd.push_amount_msat node)

  abbrev pub open_read :
      Result (OpenChannelCommand x) ConvertError → ldk.Node → ldk.Node × Result Bytes ChannelError
  open_read (err _) node = (node, err ChannelError.unreadable)
  open_read (ok cmd) node = open_at cmd (last? cmd.peer.addrs) node

  -- The collector's handler.
  unfoldable pub open_channel :
      Common.OpenChannelRequest → ldk.Node → ldk.Node × Result Bytes ChannelError
  open_channel request node = open_read (try_open_channel x request) node

  -- A channel with a short id that is usable.
  abbrev pub usable_scid : Option ℕ → Bool → Option ℕ
  usable_scid (some scid) true = some scid
  usable_scid _ _ = none

  module _ (random_channel_cfg : ℕ → ldk.ChannelConfig) where
    -- The loop over the channels: the ids of the updated ones, before those of the rest.
    unfoldable pub update_all :
        ℕ → List (ChannelDetails x) → ldk.Node → ldk.Node × Result (List ℕ) ChannelError
    update_all n [] node = (node, ok [])
    update_all n (chan ∷ chans) node = elim (usable_scid chan.short_channel_id chan.is_usable) [
      | none ↦ update_all n chans node
      | some scid ↦
          let (after, accepted) =
            ldk.update_channel_config chan.user_channel_id chan.counterparty_node_id
              (random_channel_cfg n) node in
          elim accepted [
            | true ↦
                let (last, scids) = update_all (suc n) chans after in
                (last, scids >>= (λ l. ok (scid ∷ l)))
            | false ↦ (after, err ChannelError.update_failed)
          ]
    ]

    -- The collector's handler.
    unfoldable pub update_channel_config : ldk.Node → ldk.Node × Result (List ℕ) ChannelError
    update_channel_config node = update_all 0 (ldk.list_channels node) node

  -- The controller's look-up of a collector and its connection to it. `reachable` says whether a
  -- connection to a socket succeeds.
  module _ (reachable : Text → Bool) where
    abbrev pub found : Reply x → Result (CollectorHeartbeat x) ChannelError
    found (Reply.collector (some hb)) = ok hb
    found (Reply.collector none) = err ChannelError.not_found
    found _ = err ChannelError.manager_failed

    abbrev pub connected : Bool → Result (Unit {0}) ChannelError
    connected true = ok tt
    connected false = err ChannelError.unavailable

    unfoldable pub build_collector_client :
        ℕ → CollectorManager x → Text → Result (Unit {0}) ChannelError
    build_collector_client now mgr collector_uuid = do
      collector ←
          found (handle_msg x now mgr (CollectorManagerMsg.get_collector_by_uuid collector_uuid)).1
      connected (reachable collector.info.grpc_socket)

    abbrev pub invalid_if :
        Result (OpenChannelCommand x) ConvertError → Result (OpenChannelCommand x) ChannelError
    invalid_if (ok cmd) = ok cmd
    invalid_if (err _) = err ChannelError.invalid_request

    -- What the controller forwards to the collector.
    unfoldable pub forwarded_command :
        ℕ
        → CollectorManager x
        → Text
        → Option Common.OpenChannelRequest
        → Result (OpenChannelCommand x) ChannelError
    forwarded_command now mgr collector_uuid request = do
      _ ← build_collector_client now mgr collector_uuid
      inner_req ← ok_or request ChannelError.request_required
      invalid_if (try_open_channel x inner_req)

    abbrev pub call_open :
        Result (OpenChannelCommand x) ChannelError → ldk.Node → ldk.Node × Result Bytes ChannelError
    call_open (err e) node = (node, err e)
    call_open (ok cmd) node =
        let (after, channel_id) = open_channel (from_open_channel x cmd) node in
        (after, from_collector channel_id)

    -- The controller's handler of `open_channel`, with the node of the collector that is asked.
    unfoldable pub open_collector_channel :
        ℕ
        → CollectorManager x
        → Text
        → Option Common.OpenChannelRequest
        → ldk.Node
        → ldk.Node × Result Bytes ChannelError
    open_collector_channel now mgr collector_uuid request node =
        call_open (forwarded_command now mgr collector_uuid request) node

    module _ (random_channel_cfg : ℕ → ldk.ChannelConfig) where
      abbrev pub call_update :
          Result (Unit {0}) ChannelError → ldk.Node → ldk.Node × Result (List ℕ) ChannelError
      call_update (err e) node = (node, err e)
      call_update (ok _) node =
          let (after, scids) = update_channel_config random_channel_cfg node in
          (after, from_collector scids)

      -- The controller's handler of `update_channels`.
      unfoldable pub update_channels :
          ℕ → CollectorManager x → Text → ldk.Node → ldk.Node × Result (List ℕ) ChannelError
      update_channels now mgr collector_uuid node =
          call_update (build_collector_client now mgr collector_uuid) node
