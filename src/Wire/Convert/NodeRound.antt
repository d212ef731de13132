-- ===== src/Wire/Convert/NodeRound.antt =====
-- Round trips of the nodes of a gossip graph.
use gossip_observer.Extern.{Extern, Codecs}
use gossip_observer.Prelude.{
  ◌≡◌, refl, ap, ◌∙◌, false, List, [], ◌∷◌, Option, none, some, ok, Bool-cases, inl, inr, arith,
  if◌then◌else◌, if_pos, if_neg, sym,
}
use gossip_observer.Prelude.Map.{contains, remove, contains-remove}
use gossip_observer.Types.Gossip.{NodeAnnouncementInfo, GossipNodeInfo}
use gossip_observer.Wire.Convert.{from_socket, try_socket}
use gossip_observer.Wire.Convert.Gossip.{
  from_announcement, to_announcement, from_node, try_node, unique, node_of_graph,
  LdkNodeAnnouncementInfo,
}
use gossip_observer.Wire.Util.{try_convert_vec_permissive, convert_required_field}
use mathlib.Core.Option

module _ (x : Extern) (codecs : Codecs x) where
  -- Without the Onion V2 addresses.
  abbrev pub without_onion_v2 : List x.SocketAddress → List x.SocketAddress
  without_onion_v2 [] = []
  without_onion_v2 (a ∷ as') =
      if x.is_onion_v2 a then without_onion_v2 as' else a ∷ without_onion_v2 as'

  abbrev pub without_onion_v2_info : NodeAnnouncementInfo x → NodeAnnouncementInfo x
  without_onion_v2_info info = record info { addresses = without_onion_v2 info.addresses }

  addresses_round :
      (as' : List x.SocketAddress)
      → try_convert_vec_permissive
          (try_socket x)
          (try_convert_vec_permissive (λ a. ok (from_socket x a)) as')
        ≡ without_onion_v2 as'
  unfolding try_convert_vec_permissive
  addresses_round [] = refl
  addresses_round (a ∷ as') = elim (Bool-cases (x.is_onion_v2 a)) [
    | inl e ↦ rw (try_convert_vec_permissive, codecs.onion_v2_lost a e, e) (addresses_round as')
    | inr e ↦
        rw (try_convert_vec_permissive, codecs.socket_round a e, e)
          (ap (λ l. a ∷ l) (addresses_round as'))
  ]

  announcement_round :
      (o : Option (NodeAnnouncementInfo x))
      → Option.map (to_announcement x) (Option.map (from_announcement x) o)
        ≡ Option.map without_onion_v2_info o
  unfolding to_announcement from_announcement
  announcement_round none = refl
  announcement_round (some info) =
      ap (λ l. some (record info { addresses = l })) (addresses_round info.addresses)

  -- A node that a collector sends from its graph is read by the controller as the same node without
  -- its Onion V2 addresses. It is never refused, whatever addresses it has.
  pub try_node-from_node :
      (node : GossipNodeInfo x)
      → try_node x (from_node x node)
        ≡ ok (record node { info = Option.map without_onion_v2_info node.info })
  unfolding try_node from_node convert_required_field
  try_node-from_node node = rw (codecs.pubkey_round node.pubkey, announcement_round node.info) refl

-- No element stands twice.
abbrev pub NoRepeat {ℓ} : {A : Type ℓ} → Discrete A → List A → Type 0
NoRepeat dec [] = Unit
NoRepeat dec (a ∷ as') = (contains dec a as' ≡ false) × NoRepeat dec as'

module _ {ℓ} {A : Type ℓ} (dec : Discrete A) where
  remove-NoRepeat : (a : A) (as' : List A) → NoRepeat dec as' → NoRepeat dec (remove dec a as')
  unfolding remove
  remove-NoRepeat a [] h = tt
  remove-NoRepeat a (b ∷ as') (h, hs) = elim (dec b a) [
    | yes e ↦ rw (if_pos (dec b a) e) (remove-NoRepeat a as' hs)
    | no e ↦ rw (if_neg (dec b a) e) (
      contains-remove dec b a as' ∙ if_neg (dec a b) (λ q. e (sym q)) _ _ ∙ h,
      remove-NoRepeat a as' hs,
    )
  ]

  unique-NoRepeat : (as' : List A) → NoRepeat dec (unique dec as')
  unfolding unique
  unique-NoRepeat [] = tt
  unique-NoRepeat (a ∷ as') = (
    contains-remove dec a a (unique dec as') ∙ if_pos (dec a a) refl _ _,
    remove-NoRepeat a (unique dec as') (unique-NoRepeat as'),
  )

  contains-unique : (a : A) (as' : List A) → contains dec a (unique dec as') ≡ contains dec a as'
  unfolding unique contains
  contains-unique a [] = refl
  contains-unique a (b ∷ as') =
      ground (arith, contains-remove dec a b (unique dec as'), contains-unique a as')

module _ (x : Extern) where
  -- A node that is read from lightning's graph, if its id is a valid key, has that key and keeps
  -- the announcement's time and alias. Its addresses are those of the announcement, each once.
  pub node_of_graph_lem :
      (id : x.NodeId) (key : x.PublicKey) (ann : LdkNodeAnnouncementInfo x)
      → x.as_pubkey id ≡ some key
      → (addrs : List x.SocketAddress) × (node_of_graph x id (some ann)
          ≡ ok (record {
            pubkey = key;
            info =
                some
                  (record { last_update = ann.last_update; alias = ann.alias; addresses = addrs });
          }))
        × NoRepeat x.socket_discrete addrs
        × ((a : x.SocketAddress)
            → contains x.socket_discrete a addrs ≡ contains x.socket_discrete a ann.addresses)
  unfolding node_of_graph
  node_of_graph_lem id key ann e = (
    unique x.socket_discrete ann.addresses,
    rw e refl,
    unique-NoRepeat x.socket_discrete ann.addresses,
    λ a. contains-unique x.socket_discrete a ann.addresses,
  )
