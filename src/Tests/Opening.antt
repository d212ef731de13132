-- ===== src/Tests/Opening.antt =====
-- A channel that is opened and channels that are updated, on a node that records its calls.
use gossip_observer.Channels.{ChannelDetails, LdkNode, open_collector_channel, update_channels}
use gossip_observer.Channels.Forwarded.{
  IsAnswer, usable, updated, scids, open_collector_channel-IsAnswer, update_channels_lem,
}
use gossip_observer.Manager.Handle.{run}
use gossip_observer.Manager.Registry.{log_run}
use gossip_observer.Manager.State.{new}
use gossip_observer.Prelude.{
  ℕ, ◌^◌, ◌<◌, subst, ◌≡◌, refl, Bool, true, false, List, [], ◌∷◌, Option, none, some, ok, last?,
  arith,
}
use gossip_observer.Prelude.Text.{Text, codes, Text-discrete}
use gossip_observer.Tests.Actor.{collector, config, history}
use gossip_observer.Tests.World.{world, world_codecs}
use gossip_observer.Types.Collector.{CollectorHeartbeat, OpenChannelCommand}
use gossip_observer.Wire.Convert.{from_open_channel}

abbrev channels : List (ChannelDetails world)
channels =
    record {
      user_channel_id = 1;
      counterparty_node_id = 5;
      short_channel_id = some 800;
      is_usable = true;
    }
    ∷ record {
      user_channel_id = 2;
      counterparty_node_id = 6;
      short_channel_id = none;
      is_usable = true;
    }
    ∷ record {
      user_channel_id = 3;
      counterparty_node_id = 7;
      short_channel_id = some 802;
      is_usable = false;
    }
    ∷ []

-- The node is the list of its calls.
abbrev ldk : LdkNode world
ldk = record {
  Node = List ℕ;
  ChannelConfig = ℕ;
  open_announced_channel = λ k a c p node. (a ∷ node, some 77);
  list_channels = λ node. channels;
  update_channel_config = λ id k c node. (id ∷ node, true);
}

abbrev heartbeat : CollectorHeartbeat world
heartbeat = record { info = collector (codes "a"); timestamp = 9 }

abbrev reachable : Text → Bool
reachable t = true

registered_test : last? (log_run world (codes "a") [] history) ≡ some heartbeat
unfolding Text-discrete gossip_observer.Prelude.dec_lt
registered_test = refl

abbrev command : OpenChannelCommand world
command = record {
  peer = record { pubkey = 5; addrs = 8 ∷ 9 ∷ [] };
  capacity_sats = 100000;
  push_amount_msat = none;
}

abbrev IsSmall : Option ℕ → Type 0
IsSmall none = Unit
IsSmall (some n) = n < 2 ^ 128

open_collector_channel-IsAnswer_example :
    let r =
      open_collector_channel world ldk reachable 20
        (run world (new world config) history)
        (codes "a")
        (some (from_open_channel world command))
        [] in
    (r.0 ≡ 9 ∷ [])
    × IsAnswer world world_codecs ldk reachable config history 20
        (codes "a")
        heartbeat
        registered_test
        refl
        (some 77)
        r.1
open_collector_channel-IsAnswer_example =
    open_collector_channel-IsAnswer world world_codecs ldk reachable config history 20 (codes "a")
      heartbeat registered_test refl command (8 ∷ []) 9 [] (refl, (refl, tt)) refl
      (λ id e. subst IsSmall e (omega arith))

update_channels_lem_example :
    let cs =
      usable world world_codecs ldk reachable config history 20
        (codes "a")
        heartbeat
        registered_test
        refl
        (λ n. n)
        channels in
    update_channels world ldk reachable
      (λ n. n)
      20
      (run world (new world config) history)
      (codes "a")
      []
    ≡ (
      updated world world_codecs ldk reachable config history 20
          (codes "a")
          heartbeat
          registered_test
          refl
          (λ n. n)
          0
          cs
          [],
      ok (
          scids world world_codecs ldk reachable config history 20
            (codes "a")
            heartbeat
            registered_test
            refl
            (λ n. n)
            cs),
    )
update_channels_lem_example =
    update_channels_lem world world_codecs ldk reachable config history 20 (codes "a") heartbeat
      registered_test refl (λ n. n) (λ id k c node. refl) []
