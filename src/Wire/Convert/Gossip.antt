-- ===== src/Wire/Convert/Gossip.antt =====
-- The conversions of the gossip records: from what lightning's graph holds, to messages and back.
use gossip_observer.Extern.{Extern}
use gossip_observer.Prelude.{
  ℕ, ◌^◌, ◌%◌, max, List, [], ◌∷◌, Option, none, some, Result, ok, ◌>>=◌, ok_or,
}
use gossip_observer.Prelude.Map.{remove}
use gossip_observer.Prelude.Text.{Text, codes}
use gossip_observer.Types.Gossip.{
  NodeAnnouncementInfo, GossipNodeInfo, GossipChannelDirectionInfo, GossipChannelInfo,
}
use gossip_observer.Wire.Common
use gossip_observer.Wire.Convert.{from_pubkey, try_pubkey, from_socket, try_socket}
use gossip_observer.Wire.Util.{ConvertError, try_convert_vec_permissive, convert_required_field}
use mathlib.Core.Option

-- `ChannelUpdateInfo`, as far as it is read.
pub record ChannelUpdateInfo : Type 0 where
  pub htlc_minimum_msat : ℕ
  pub htlc_maximum_msat : ℕ
  pub base_msat : ℕ
  pub proportional_millionths : ℕ
  pub cltv_expiry_delta : ℕ
  pub last_update : ℕ

-- lightning's `ChannelInfo` and `NodeAnnouncementInfo`, as far as they are read.
pub record LdkChannelInfo (x : Extern) : Type 0 where
  pub node_one : x.NodeId
  pub node_two : x.NodeId
  pub capacity_sats : Option ℕ
  pub one_to_two : Option ChannelUpdateInfo
  pub two_to_one : Option ChannelUpdateInfo

pub record LdkNodeAnnouncementInfo (x : Extern) : Type 0 where
  pub last_update : ℕ
  pub alias : Text
  pub addresses : List x.SocketAddress

abbrev pub direction_of_update : ChannelUpdateInfo → GossipChannelDirectionInfo
direction_of_update info = record {
  htlc_min_msat = info.htlc_minimum_msat;
  htlc_max_msat = info.htlc_maximum_msat;
  fees_base_msat = info.base_msat;
  fees_proportional_millionths = info.proportional_millionths;
  cltv_expiry_delta = info.cltv_expiry_delta;
  last_update = info.last_update;
}

abbrev pub from_direction : GossipChannelDirectionInfo → Common.GossipChannelDirectionInfo
from_direction info = record {
  htlc_min_msat = info.htlc_min_msat;
  htlc_max_msat = info.htlc_max_msat;
  fees_base_msat = info.fees_base_msat;
  fees_proportional_millionths = info.fees_proportional_millionths;
  cltv_expiry_delta = info.cltv_expiry_delta;
  last_update = info.last_update;
}

-- `cltv_expiry_delta as u16`.
abbrev pub to_direction : Common.GossipChannelDirectionInfo → GossipChannelDirectionInfo
to_direction info = record {
  htlc_min_msat = info.htlc_min_msat;
  htlc_max_msat = info.htlc_max_msat;
  fees_base_msat = info.fees_base_msat;
  fees_proportional_millionths = info.fees_proportional_millionths;
  cltv_expiry_delta = info.cltv_expiry_delta % 2 ^ 16;
  last_update = info.last_update;
}

abbrev pub last_of :
    Option GossipChannelDirectionInfo → Option GossipChannelDirectionInfo → Option ℕ
last_of (some one_to_two) (some two_to_one) =
    some (max one_to_two.last_update two_to_one.last_update)
last_of (some i) none = some i.last_update
last_of none (some i) = some i.last_update
last_of none none = none

-- Itertools' `unique`: the first of equal elements stays.
unfoldable pub unique {ℓ} : {A : Type ℓ} → Discrete A → List A → List A
unfolding remove
unique dec [] = []
unique dec (a ∷ as') = a ∷ remove dec a (unique dec as')

module _ (x : Extern) where
  unfoldable pub node_of_graph :
      x.NodeId → Option (LdkNodeAnnouncementInfo x) → Result (GossipNodeInfo x) ConvertError
  node_of_graph node_id ann_info = do
    pubkey ← ok_or (x.as_pubkey node_id) ConvertError.invalid
    let info =
        Option.map
          (λ (i : LdkNodeAnnouncementInfo x). record {
            last_update = i.last_update;
            alias = i.alias;
            addresses = unique x.socket_discrete i.addresses;
          })
          ann_info
    ok (record { pubkey = pubkey; info = info })

  unfoldable pub channel_of_graph : ℕ → LdkChannelInfo x → Result (GossipChannelInfo x) ConvertError
  channel_of_graph scid info = do
    node_one ← ok_or (x.as_pubkey info.node_one) ConvertError.invalid
    node_two ← ok_or (x.as_pubkey info.node_two) ConvertError.invalid
    let one_to_two = Option.map direction_of_update info.one_to_two
    let two_to_one = Option.map direction_of_update info.two_to_one
    ok (record {
      scid = scid;
      node_one = node_one;
      node_two = node_two;
      last_update = last_of one_to_two two_to_one;
      capacity_sats = info.capacity_sats;
      one_to_two = one_to_two;
      two_to_one = two_to_one;
    })

  unfoldable pub from_announcement : NodeAnnouncementInfo x → Common.NodeAnnouncementInfo
  from_announcement info = record {
    last_update = info.last_update;
    alias = info.alias;
    addresses = try_convert_vec_permissive (λ a. ok (from_socket x a)) info.addresses;
  }

  unfoldable pub to_announcement : Common.NodeAnnouncementInfo → NodeAnnouncementInfo x
  to_announcement info = record {
    last_update = info.last_update;
    alias = info.alias;
    addresses = try_convert_vec_permissive (try_socket x) info.addresses;
  }

  unfoldable pub from_node : GossipNodeInfo x → Common.GossipNodeInfo
  from_node info = record {
    pubkey = some (from_pubkey x info.pubkey);
    info = Option.map from_announcement info.info;
  }

  unfoldable pub try_node : Common.GossipNodeInfo → Result (GossipNodeInfo x) ConvertError
  try_node info = do
    pubkey ← convert_required_field (try_pubkey x) info.pubkey (codes "pubkey")
    ok (record { pubkey = pubkey; info = Option.map to_announcement info.info })

  unfoldable pub from_channel : GossipChannelInfo x → Common.GossipChannelInfo
  from_channel info = record {
    scid = info.scid;
    node_one = some (from_pubkey x info.node_one);
    node_two = some (from_pubkey x info.node_two);
    last_update = info.last_update;
    capacity_sats = info.capacity_sats;
    one_to_two = Option.map from_direction info.one_to_two;
    two_to_one = Option.map from_direction info.two_to_one;
  }

  unfoldable pub try_channel : Common.GossipChannelInfo → Result (GossipChannelInfo x) ConvertError
  try_channel info = do
    node_one ← convert_required_field (try_pubkey x) info.node_one (codes "node_one")
    node_two ← convert_required_field (try_pubkey x) info.node_two (codes "node_two")
    ok (record {
      scid = info.scid;
      node_one = node_one;
      node_two = node_two;
      last_update = info.last_update;
      capacity_sats = info.capacity_sats;
      one_to_two = Option.map to_direction info.one_to_two;
      two_to_one = Option.map to_direction info.two_to_one;
    })
