-- ===== src/Types/Gossip/Node.antt =====
-- The comparisons of node records: `GossipNodeInfo::is_newer`, `NodeAnnouncementInfo::same_info`.
use gossip_observer.Extern.{Extern}
use gossip_observer.Prelude.{
  Bool, true, false, ◌&&◌, List, [], ◌∷◌, Option, none, some, decide, ltb,
}
use gossip_observer.Prelude.Text.{Text-discrete}
use gossip_observer.Types.Gossip.{NodeAnnouncementInfo, GossipNodeInfo}

module _ {ℓ} {A : Type ℓ} (dec : Discrete A) where
  -- `==` of two vectors.
  unfoldable pub same_list : List A → List A → Bool
  same_list [] [] = true
  same_list [] (b ∷ bs) = false
  same_list (a ∷ r) [] = false
  same_list (a ∷ r) (b ∷ bs) = decide (dec a b) && same_list r bs

module _ (x : Extern) where
  abbrev pub newer_info : Option (NodeAnnouncementInfo x) → Option (NodeAnnouncementInfo x) → Bool
  newer_info (some own) (some other) = ltb other.last_update own.last_update
  newer_info (some own) none = true
  newer_info none (some other) = false
  newer_info none none = false

  unfoldable pub is_newer : GossipNodeInfo x → GossipNodeInfo x → Bool
  is_newer own other = newer_info own.info other.info

  -- Ignores the receipt timestamp.
  unfoldable pub same_info : NodeAnnouncementInfo x → NodeAnnouncementInfo x → Bool
  unfolding same_list
  same_info own other =
      same_list x.socket_discrete own.addresses other.addresses
      && decide (Text-discrete own.alias other.alias)
