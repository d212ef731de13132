-- ===== src/Tests/Registering.antt =====
-- A controller with two small files, and a collector that registers there and reports.
use gossip_observer.Communities.{NodeInfoRecord, NodeCommunitiesRecord}
use gossip_observer.Communities.Sampling.{Floats, ℤ, pos}
use gossip_observer.Manager.State.{CollectorManagerMsg, CollectionConfig}
use gossip_observer.Peers.State.{new_manager}
use gossip_observer.Prelude.{
  ℕ, ◌+◌, ◌-◌, ◌*◌, ◌/◌, Bool, List, [], ◌∷◌, Option, none, some, ltb, leb,
}
use gossip_observer.Prelude.Text.{Text, codes}
use gossip_observer.Register.{Collector}
use gossip_observer.Tests.World.{world}
use gossip_observer.Types.Collector.{CollectorInfo}

-- Whole numbers in place of floats.
abbrev floats : Floats ℕ
floats = record {
  of_usize = λ n. n;
  div = λ a b. a * 100 / b;
  mul = λ a b. a * b;
  add = λ a b. a + b;
  sub = λ a b. a - b;
  sqrt = λ a. a;
  round = λ a. a;
  to_u32 = λ a. a;
  ge = λ a b. leb b a;
  lt = λ a b. ltb a b;
  one = 1;
  undersample_threshold = 8;
  oversample_threshold = 2;
}

abbrev infos : List NodeInfoRecord
infos =
    record {
      pubkey = codes "K";
      net_type = codes "c";
      sockets = codes "\"x,y\"";
      alias = codes "al";
    }
    ∷ []

abbrev nodes : List NodeCommunitiesRecord
nodes =
    record { pubkey = codes "K"; level_0 = 3; level_1 = 0; level_2 = 0 }
    ∷ record { pubkey = codes "L"; level_0 = 4; level_1 = 0; level_2 = 0 }
    ∷ []

abbrev table : List (Text × Option ℤ)
table = (codes "a", some (pos 3)) ∷ (codes "b", some (pos 9)) ∷ []

-- `configure` on these files.
abbrev configured : CollectionConfig world
configured = record {
  collector_mapping = (codes "a", 3) ∷ (codes "b", 9) ∷ [];
  community_members =
      (
        3,
        record {
          pubkey = codes "K";
          net_type = some (codes "c");
          sockets = some (codes "\"x,y\"");
          alias = some (codes "al");
        }
            ∷ [],
      )
      ∷ (4, record { pubkey = codes "L"; net_type = none; sockets = none; alias = none } ∷ [])
      ∷ [];
  community_stats =
      (3, record { size = 1; proportion = 50; expected = 500; stddev = 0; connection_count = 500 })
      ∷ (
        4,
        record { size = 1; proportion = 50; expected = 500; stddev = 0; connection_count = 500 },
      )
      ∷ [];
}

abbrev collector : CollectorInfo world
collector = record {
  uuid = codes "a";
  pubkey = 1;
  listen_addrs = [];
  onchain_addr = 1;
  balances = record { total_onchain = 0; spendable_onchain = 0; total_lightning_balance = 0 };
  peer_count = 3;
  target_count = 10;
  eligible_peers = 5;
  grpc_socket = codes "s";
}

abbrev history : List (ℕ × CollectorManagerMsg world)
history = (5, CollectorManagerMsg.add_collector collector) ∷ []

abbrev listening : Collector world
listening = record { conn_manager = new_manager world; target_peer_count = 0 }
