-- ===== src/Wire/Convert/ChannelRound.antt =====
-- Round trips of the channels of a gossip graph.
use gossip_observer.Extern.{Extern, Codecs}
use gossip_observer.Prelude.{
  ◌⊎◌, inl, inr, ℕ, ◌^◌, ◌<◌, ◌≡◌, refl, ap, Option, none, some, ok, arith,
}
use gossip_observer.Types.Gossip.{GossipChannelDirectionInfo, GossipChannelInfo}
use gossip_observer.Types.Newest.{NoNewer, stamp}
use gossip_observer.Wire.Convert.Gossip.{
  from_direction, to_direction, from_channel, try_channel, direction_of_update, last_of,
  channel_of_graph, LdkChannelInfo,
}
use gossip_observer.Wire.Util.{convert_required_field}
use mathlib.Core.Option

-- The delta fits in the `u16` of a channel update.
abbrev pub IsU16Delta : Option GossipChannelDirectionInfo → Type 0
IsU16Delta none = Unit
IsU16Delta (some d) = d.cltv_expiry_delta < 2 ^ 16

direction_round :
    (o : Option GossipChannelDirectionInfo)
    → IsU16Delta o
    → Option.map to_direction (Option.map from_direction o) ≡ o
direction_round none h = refl
direction_round (some d) h = ap (λ n. some (record d { cltv_expiry_delta = n })) (omega (arith, h))

module _ (x : Extern) (codecs : Codecs x) where
  -- A channel that a collector sends from its graph is the channel that the controller reads. The
  -- deltas must fit in 16 bits, as those of channel updates do.
  pub try_channel-from_channel :
      (c : GossipChannelInfo x)
      → IsU16Delta c.one_to_two
      → IsU16Delta c.two_to_one
      → try_channel x (from_channel x c) ≡ ok c
  unfolding try_channel from_channel convert_required_field
  try_channel-from_channel c h k =
      rw
        (
          codecs.pubkey_round c.node_one,
          codecs.pubkey_round c.node_two,
          direction_round c.one_to_two h,
          direction_round c.two_to_one k,
        )
        refl

last_of_newest :
    (a b : Option GossipChannelDirectionInfo)
    → ((last_of a b ≡ stamp a) ⊎ (last_of a b ≡ stamp b))
      × NoNewer (stamp a) (last_of a b)
      × NoNewer (stamp b) (last_of a b)
last_of_newest none none = (inl refl, tt, tt)
last_of_newest none (some b) = (inr refl, tt, omega arith)
last_of_newest (some a) none = (inl refl, omega arith, tt)
last_of_newest (some a) (some b) = ground arith

module _ (x : Extern) where
  -- A channel of lightning's graph whose two node ids are valid keys is read. It has those keys and
  -- the capacity and updates of the graph. Its time is that of one of its directions, absent if both
  -- are, and neither direction is newer.
  pub channel_of_graph_lem :
      (scid : ℕ) (info : LdkChannelInfo x) (one two : x.PublicKey)
      → x.as_pubkey info.node_one ≡ some one
      → x.as_pubkey info.node_two ≡ some two
      → (time : Option ℕ) × (channel_of_graph x scid info
          ≡ ok (record {
            scid = scid;
            node_one = one;
            node_two = two;
            last_update = time;
            capacity_sats = info.capacity_sats;
            one_to_two = Option.map direction_of_update info.one_to_two;
            two_to_one = Option.map direction_of_update info.two_to_one;
          }))
        × (let a = stamp (Option.map direction_of_update info.one_to_two) in
            let b = stamp (Option.map direction_of_update info.two_to_one) in
            ((time ≡ a) ⊎ (time ≡ b)) × NoNewer a time × NoNewer b time)
  unfolding channel_of_graph
  channel_of_graph_lem scid info one two e f = (
    _,
    rw (e, f) refl,
    last_of_newest (Option.map direction_of_update info.one_to_two)
        (Option.map direction_of_update info.two_to_one),
  )
