-- ===== src/GraphDiff/Combine/Channels.antt =====
-- What the combined view holds for each short channel id.
use gossip_observer.Extern.{Extern}
use gossip_observer.GraphDiff.{CollectorGossipGraph}
use gossip_observer.GraphDiff.Combine.{
  ChannelMap, Combined, combine_channel, combine_channels, combine_graphs, combine,
}
use gossip_observer.Prelude.{
  ℕ, ◌≡◌, ◌≢◌, refl, subst, sym, List, [], ◌∷◌, ◌++◌, Option, none, some, All, Any, All-append,
  All-impl, Any-append_left, Any-append_right, append_assoc, append-nil, ◌⊎◌, inl, inr,
  Option-cases, if_pos, if_neg, ℕ_discrete,
}
use gossip_observer.Prelude.Map.{lookup, insert, IsMap, lookup-insert, insert-IsMap}
use gossip_observer.Types.Gossip.{GossipChannelInfo}
use gossip_observer.Types.Gossip.Channel
use gossip_observer.Types.Newest.{
  NoNewer, NoNewer-refl, NoNewer-trans, stamp, merge_direction_newest, newer_timestamp_newest,
}

module _ (x : Extern) where
  -- `c` is at least as new as `r` in its timestamp and in both directions.
  pub record AsNew (r c : GossipChannelInfo x) : Type 0 where
    pub update : NoNewer r.last_update c.last_update
    pub one : NoNewer (stamp r.one_to_two) (stamp c.one_to_two)
    pub two : NoNewer (stamp r.two_to_one) (stamp c.two_to_one)

  AsNew-refl : (c : GossipChannelInfo x) → AsNew c c
  AsNew-refl c = record { update = NoNewer-refl _; one = NoNewer-refl _; two = NoNewer-refl _ }

  AsNew-trans : (a b c : GossipChannelInfo x) → AsNew a b → AsNew b c → AsNew a c
  AsNew-trans a b c h k = record {
    update = NoNewer-trans _ _ _ h.update k.update;
    one = NoNewer-trans _ _ _ h.one k.one;
    two = NoNewer-trans _ _ _ h.two k.two;
  }

  -- Each part of `c` stands in a report on `scid`, and every such report is no newer.
  pub record IsMerge (scid : ℕ) (reports : List (GossipChannelInfo x)) (c : GossipChannelInfo x)
      : Type 0 where
    pub same_scid : c.scid ≡ scid
    pub reported_update : Any (λ r. (r.scid ≡ scid) × (r.last_update ≡ c.last_update)) reports
    pub reported_one : Any (λ r. (r.scid ≡ scid) × (r.one_to_two ≡ c.one_to_two)) reports
    pub reported_two : Any (λ r. (r.scid ≡ scid) × (r.two_to_one ≡ c.two_to_one)) reports
    pub newest : All (λ r. r.scid ≡ scid → AsNew r c) reports

  abbrev pub IsNewestChannel :
      ℕ → List (GossipChannelInfo x) → Option (GossipChannelInfo x) → Type 0
  IsNewestChannel scid reports none = All (λ r. r.scid ≢ scid) reports
  IsNewestChannel scid reports (some c) = IsMerge scid reports c

  merge-AsNew :
      (a b : GossipChannelInfo x)
      → AsNew a (Channel.merge_to_newest x a b) × AsNew b (Channel.merge_to_newest x a b)
  unfolding Channel.merge_to_newest
  merge-AsNew a b =
      let (_, u, u') = newer_timestamp_newest a.last_update b.last_update in
      let (_, o, o') = merge_direction_newest a.one_to_two b.one_to_two in
      let (_, t, t') = merge_direction_newest a.two_to_one b.two_to_one in
      (record { update = u; one = o; two = t }, record { update = u'; one = o'; two = t' })

  module _ (scid : ℕ) (done : List (GossipChannelInfo x)) (n : GossipChannelInfo x) where
    extend_other :
        (r : Option (GossipChannelInfo x))
        → n.scid ≢ scid
        → IsNewestChannel scid done r
        → IsNewestChannel scid (done ++ n ∷ []) r
    extend_other none other h = All-append _ done (n ∷ []) h (other, tt)
    extend_other (some c) other h = record {
      same_scid = h.same_scid;
      reported_update = Any-append_left _ done (n ∷ []) h.reported_update;
      reported_one = Any-append_left _ done (n ∷ []) h.reported_one;
      reported_two = Any-append_left _ done (n ∷ []) h.reported_two;
      newest = All-append _ done (n ∷ []) h.newest ((λ e. absurd (other e)), tt);
    }

    extend_first :
        n.scid ≡ scid
        → IsNewestChannel scid done none
        → IsNewestChannel scid (done ++ n ∷ []) (some n)
    extend_first e h = record {
      same_scid = e;
      reported_update = Any-append_right _ done (n ∷ []) (inl (e, refl));
      reported_one = Any-append_right _ done (n ∷ []) (inl (e, refl));
      reported_two = Any-append_right _ done (n ∷ []) (inl (e, refl));
      newest =
          All-append _ done (n ∷ []) (All-impl _ _ done (λ r ne e'. absurd (ne e')) h)
            ((λ _. AsNew-refl n), tt);
    }

    -- A part that is taken from one of two is reported if it was, or by the new report.
    reported :
        {B : Type 0} (f : GossipChannelInfo x → B) (a b : B)
        → n.scid ≡ scid
        → (b ≡ a) ⊎ (b ≡ f n)
        → Any (λ r. (r.scid ≡ scid) × (f r ≡ a)) done
        → Any (λ r. (r.scid ≡ scid) × (f r ≡ b)) (done ++ n ∷ [])
    reported f a b e (inl old) h =
        Any-append_left _ done (n ∷ [])
          (subst (λ c. Any (λ r. (r.scid ≡ scid) × (f r ≡ c)) done) (sym old) h)
    reported f a b e (inr new) h = Any-append_right _ done (n ∷ []) (inl (e, sym new))

    extend-IsMerge :
        (c : GossipChannelInfo x)
        → n.scid ≡ scid
        → IsMerge scid done c
        → IsMerge scid (done ++ n ∷ []) (Channel.merge_to_newest x c n)
    unfolding Channel.merge_to_newest
    extend-IsMerge c e h =
        let (u, _, _) = newer_timestamp_newest c.last_update n.last_update in
        let (o, _, _) = merge_direction_newest c.one_to_two n.one_to_two in
        let (t, _, _) = merge_direction_newest c.two_to_one n.two_to_one in
        let (old, new) = merge-AsNew c n in
        record {
          same_scid = h.same_scid;
          reported_update = reported (λ r. r.last_update) _ _ e u h.reported_update;
          reported_one = reported (λ r. r.one_to_two) _ _ e o h.reported_one;
          reported_two = reported (λ r. r.two_to_one) _ _ e t h.reported_two;
          newest =
              All-append _ done (n ∷ [])
                (All-impl _ _ done (λ r older e'. AsNew-trans r c _ (older e') old) h.newest)
                ((λ _. new), tt);
        }

  abbrev Settled : ChannelMap x → List (GossipChannelInfo x) → Type 0
  Settled m done = (scid : ℕ) → IsNewestChannel scid done (lookup ℕ_discrete scid m)

  insert-Settled :
      (m : ChannelMap x) (done : List (GossipChannelInfo x)) (n c : GossipChannelInfo x)
      → Settled m done
      → IsNewestChannel n.scid (done ++ n ∷ []) (some c)
      → Settled (insert ℕ_discrete n.scid c m) (done ++ n ∷ [])
  insert-Settled m done n c s here key = elim (ℕ_discrete n.scid key) [
    | yes p ↦
        rw (lookup-insert ℕ_discrete key n.scid c m, if_pos (ℕ_discrete n.scid key) p)
          (subst (λ k. IsNewestChannel k (done ++ n ∷ []) (some c)) p here)
    | no p ↦
        rw (lookup-insert ℕ_discrete key n.scid c m, if_neg (ℕ_discrete n.scid key) p)
          (extend_other key done n _ p (s key))
  ]

  combine_channel-Settled :
      (m : ChannelMap x) (done : List (GossipChannelInfo x)) (n : GossipChannelInfo x)
      → Settled m done
      → Settled (combine_channel x m n) (done ++ n ∷ [])
  combine_channel-Settled m done n s = elim (Option-cases (lookup ℕ_discrete n.scid m)) [
    | inl e ↦
        unfold combine_channel in
        rw (e, combine_channel)
          (insert-Settled m done n n s
            (extend_first n.scid done n refl (subst (IsNewestChannel n.scid done) e (s n.scid))))
    | inr (c, e) ↦
        unfold combine_channel in
        rw (e, combine_channel)
          (insert-Settled m done n _ s (
            extend-IsMerge n.scid done n c refl (subst (IsNewestChannel n.scid done) e (s n.scid))))
  ]

  combine_channels-Settled :
      (ns : List (GossipChannelInfo x)) (m : ChannelMap x) (done : List (GossipChannelInfo x))
      → Settled m done
      → Settled (combine_channels x m ns) (done ++ ns)
  unfolding combine_channels
  combine_channels-Settled [] m done s = rw append-nil s
  combine_channels-Settled (n ∷ ns) m done s =
      subst (Settled (combine_channels x (combine_channel x m n) ns))
        (append_assoc done (n ∷ []) ns)
        (combine_channels-Settled ns (combine_channel x m n) (done ++ n ∷ [])
          (combine_channel-Settled m done n s))

  -- All channel reports, graph by graph.
  abbrev pub channel_reports : List (CollectorGossipGraph x) → List (GossipChannelInfo x)
  channel_reports [] = []
  channel_reports (g ∷ gs) = g.channels ++ channel_reports gs

  combine_graphs-Settled :
      (gs : List (CollectorGossipGraph x)) (c : Combined x) (done : List (GossipChannelInfo x))
      → Settled c.channels done
      → Settled (combine_graphs x c gs).channels (done ++ channel_reports gs)
  unfolding combine_graphs
  combine_graphs-Settled [] c done s = rw append-nil s
  combine_graphs-Settled (g ∷ gs) c done s =
      subst (Settled (combine_graphs x c (g ∷ gs)).channels)
        (append_assoc done g.channels (channel_reports gs))
        (combine_graphs-Settled gs _ (done ++ g.channels)
          (combine_channels-Settled g.channels c.channels done s))

  -- For every short channel id, and whatever the order in which the collectors' graphs are visited,
  -- the combined view holds no channel exactly when no collector reported the id. Otherwise its
  -- timestamp and each of its two directions are taken from reports on that id, perhaps different
  -- ones, and no report on the id has a newer timestamp or a newer value of either direction.
  pub combine-IsNewestChannel :
      (graphs : List (CollectorGossipGraph x)) (scid : ℕ)
      → IsNewestChannel scid
          (channel_reports graphs)
          (lookup ℕ_discrete scid (combine x graphs).channels)
  unfolding combine lookup
  combine-IsNewestChannel graphs scid =
      combine_graphs-Settled graphs (record { nodes = []; channels = [] }) [] (λ k. tt) scid

  combine_channel-IsMap :
      (m : ChannelMap x) (n : GossipChannelInfo x)
      → IsMap ℕ_discrete m
      → IsMap ℕ_discrete (combine_channel x m n)
  unfolding combine_channel
  combine_channel-IsMap m n h = elim (Option-cases (lookup ℕ_discrete n.scid m)) [
    | inl e ↦ rw (e, combine_channel) (insert-IsMap ℕ_discrete n.scid n m h)
    | inr (c, e) ↦ rw (e, combine_channel) (insert-IsMap ℕ_discrete n.scid _ m h)
  ]

  combine_channels-IsMap :
      (ns : List (GossipChannelInfo x)) (m : ChannelMap x)
      → IsMap ℕ_discrete m
      → IsMap ℕ_discrete (combine_channels x m ns)
  unfolding combine_channels
  combine_channels-IsMap [] m h = h
  combine_channels-IsMap (n ∷ ns) m h = combine_channels-IsMap ns _ (combine_channel-IsMap m n h)

  combine_graphs-IsMap :
      (gs : List (CollectorGossipGraph x)) (c : Combined x)
      → IsMap ℕ_discrete c.channels
      → IsMap ℕ_discrete (combine_graphs x c gs).channels
  unfolding combine_graphs
  combine_graphs-IsMap [] c h = h
  combine_graphs-IsMap (g ∷ gs) c h =
      combine_graphs-IsMap gs _ (combine_channels-IsMap g.channels c.channels h)

  pub combine-IsMap :
      (gs : List (CollectorGossipGraph x)) → IsMap ℕ_discrete (combine x gs).channels
  unfolding combine
  combine-IsMap gs = combine_graphs-IsMap gs _ tt
