-- ===== src/Communities/Members.antt =====
-- Which nodes a community holds, and that every node is in exactly one.
use gossip_observer.Communities.{
  NodeInfoRecord, NodeCommunitiesRecord, NodeDetails, Communities, index_nodes, with_details,
  annotate, extended, add_member, group, annotated_communities,
}
use gossip_observer.Manager.State.{NodeAnnotatedRecord}
use gossip_observer.Prelude.{
  ℕ, suc, ◌+◌, ◌≡◌, refl, ap, ap₂, ◌∙◌, List, [], ◌∷◌, ◌++◌, Option, none, some, ℕ_discrete, map,
  filter, append_assoc, arith, length, length-append, ite,
}
use gossip_observer.Prelude.Map.{lookup, insert, lookup-insert, or_else, IsMap, insert-IsMap}
use gossip_observer.Prelude.Text.{Text, Text-discrete}

-- The details in the last record of a key.
abbrev pub details_of : Text → List NodeInfoRecord → Option NodeDetails
details_of key [] = none
details_of key (r ∷ rs) =
    or_else (details_of key rs)
      (ite (Text-discrete r.pubkey key) (some (r.net_type, r.sockets, r.alias)) none)

abbrev pub annotated : List NodeInfoRecord → NodeCommunitiesRecord → NodeAnnotatedRecord
annotated infos node = with_details node.pubkey (details_of node.pubkey infos)

abbrev pub in_community : ℕ → List NodeCommunitiesRecord → List NodeCommunitiesRecord
in_community c = filter (λ n. ℕ_discrete n.level_0 c)

-- A map has no entry for an empty community.
abbrev pub unless_empty {ℓ} : {A : Type ℓ} → List A → Option (List A)
unless_empty [] = none
unless_empty (a ∷ as') = some (a ∷ as')

abbrev or_empty {ℓ} : {A : Type ℓ} → Option (List A) → List A
or_empty none = []
or_empty (some as') = as'

or_else-ite :
    {P : Type 0} (o : Option NodeDetails) (d : Dec P) (v : NodeDetails) (z : Option NodeDetails)
    → or_else o (ite d (some v) z) ≡ or_else (or_else o (ite d (some v) none)) z
or_else-ite (some u) d v z = refl
or_else-ite none (yes p) v z = refl
or_else-ite none (no p) v z = refl

lookup-index_nodes :
    (key : Text) (m : List (Text × NodeDetails)) (rs : List NodeInfoRecord)
    → lookup Text-discrete key (index_nodes m rs)
      ≡ or_else (details_of key rs) (lookup Text-discrete key m)
unfolding index_nodes
lookup-index_nodes key m [] = refl
lookup-index_nodes key m (r ∷ rs) =
    let later = insert Text-discrete r.pubkey (r.net_type, r.sockets, r.alias) m in
    lookup-index_nodes key later rs
    ∙ ap (or_else (details_of key rs))
        (lookup-insert Text-discrete key r.pubkey (r.net_type, r.sockets, r.alias) m)
    ∙ or_else-ite (details_of key rs) (Text-discrete r.pubkey key) (r.net_type, r.sockets, r.alias)
        (lookup Text-discrete key m)

-- What a lookup gives after more members.
abbrev grown :
    Option (List NodeAnnotatedRecord) → List NodeAnnotatedRecord → Option (List NodeAnnotatedRecord)
grown o [] = o
grown o (r ∷ rs) = some (or_empty o ++ (r ∷ rs))

lookup-add_member :
    (c j : ℕ) (r : NodeAnnotatedRecord) (m : Communities)
    → lookup ℕ_discrete c (add_member j r m)
      ≡ ite (ℕ_discrete j c) (some (extended (lookup ℕ_discrete c m) r)) (lookup ℕ_discrete c m)
unfolding add_member
lookup-add_member c j r m =
    lookup-insert ℕ_discrete c j (extended (lookup ℕ_discrete j m) r) m ∙ at_key (ℕ_discrete j c)
  where
    at_key :
        (d : Dec (j ≡ c))
        → ite d (some (extended (lookup ℕ_discrete j m) r)) (lookup ℕ_discrete c m)
          ≡ ite d (some (extended (lookup ℕ_discrete c m) r)) (lookup ℕ_discrete c m)
    at_key (yes p) = ap (λ i. some (extended (lookup ℕ_discrete i m) r)) p
    at_key (no p) = refl

grown_one :
    (o : Option (List NodeAnnotatedRecord)) (r : NodeAnnotatedRecord)
    (rs : List NodeAnnotatedRecord)
    → grown (some (extended o r)) rs ≡ grown o (r ∷ rs)
grown_one none r [] = refl
grown_one none r (s ∷ rs) = refl
grown_one (some m) r [] = refl
grown_one (some m) r (s ∷ rs) = ap some (append_assoc m (r ∷ []) (s ∷ rs))

grown-filter :
    {P : Type 0} (d : Dec P) (o : Option (List NodeAnnotatedRecord))
    (f : NodeCommunitiesRecord → NodeAnnotatedRecord) (n : NodeCommunitiesRecord)
    (ns : List NodeCommunitiesRecord)
    → grown (ite d (some (extended o (f n))) o) (map f ns) ≡ grown o (map f (ite d (n ∷ ns) ns))
grown-filter (yes p) o f n ns = grown_one o (f n) (map f ns)
grown-filter (no p) o f n ns = refl

lookup-group :
    (details : List (Text × NodeDetails)) (c : ℕ) (m : Communities)
    (nodes : List NodeCommunitiesRecord)
    → lookup ℕ_discrete c (group details m nodes)
      ≡ grown (lookup ℕ_discrete c m) (map (annotate details) (in_community c nodes))
unfolding group
lookup-group details c m [] = refl
lookup-group details c m (n ∷ ns) =
    lookup-group details c (add_member n.level_0 (annotate details n) m) ns
    ∙ ap (λ o. grown o (map (annotate details) (in_community c ns)))
        (lookup-add_member c n.level_0 (annotate details n) m)
    ∙ grown-filter (ℕ_discrete n.level_0 c) (lookup ℕ_discrete c m) (annotate details) n
        (in_community c ns)

or_else-none : (o : Option NodeDetails) → or_else o none ≡ o
or_else-none none = refl
or_else-none (some v) = refl

index_nodes_lem :
    (key : Text) (infos : List NodeInfoRecord)
    → lookup Text-discrete key (index_nodes [] infos) ≡ details_of key infos
unfolding lookup
index_nodes_lem key infos = lookup-index_nodes key [] infos ∙ or_else-none (details_of key infos)

annotate_all :
    (infos : List NodeInfoRecord) (nodes : List NodeCommunitiesRecord)
    → map (annotate (index_nodes [] infos)) nodes ≡ map (annotated infos) nodes
unfolding annotate
annotate_all infos [] = refl
annotate_all infos (n ∷ ns) =
    ap₂ ◌∷◌ (ap (with_details n.pubkey) (index_nodes_lem n.pubkey infos)) (annotate_all infos ns)

grown-none : (rs : List NodeAnnotatedRecord) → grown none rs ≡ unless_empty rs
grown-none [] = refl
grown-none (r ∷ rs) = refl

-- The community of a number holds the nodes whose first level is that number, in the order of the
-- file, each with the details in the last record of its key, if there is one. A community without
-- nodes is absent.
pub annotated_communities_lem :
    (infos : List NodeInfoRecord) (nodes : List NodeCommunitiesRecord) (c : ℕ)
    → lookup ℕ_discrete c (annotated_communities infos nodes)
      ≡ unless_empty (map (annotated infos) (in_community c nodes))
unfolding annotated_communities lookup
annotated_communities_lem infos nodes c =
    lookup-group (index_nodes [] infos) c [] nodes
    ∙ grown-none (map (annotate (index_nodes [] infos)) (in_community c nodes))
    ∙ ap unless_empty (annotate_all infos (in_community c nodes))

-- The number of records in all communities.
abbrev pub total_members : Communities → ℕ
total_members [] = 0
total_members ((c, members) ∷ m) = length members + total_members m

total-insert :
    (c : ℕ) (r : NodeAnnotatedRecord) (m : Communities)
    → total_members (add_member c r m) ≡ suc (total_members m)
unfolding add_member insert lookup
total-insert c r [] = omega arith
total-insert c r ((j, ms) ∷ m) = at_head (total-insert c r m) (ℕ_discrete j c)
  where
    at_head :
        total_members (add_member c r m) ≡ suc (total_members m)
        → (d : Dec (j ≡ c))
        → let members = extended (ite d (some ms) (lookup ℕ_discrete c m)) r in
          total_members (ite d ((c, members) ∷ m) ((j, ms) ∷ insert ℕ_discrete c members m))
          ≡ suc (length ms + total_members m)
    at_head ih (yes p) = omega (arith, length-append ms (r ∷ []))
    at_head ih (no p) = omega (arith, ih)

total-group :
    (details : List (Text × NodeDetails)) (m : Communities) (nodes : List NodeCommunitiesRecord)
    → total_members (group details m nodes) ≡ length nodes + total_members m
unfolding group
total-group details m [] = omega arith
total-group details m (n ∷ ns) = omega (
  arith,
  total-group details (add_member n.level_0 (annotate details n) m) ns,
  total-insert n.level_0 (annotate details n) m,
)

group-IsMap :
    (details : List (Text × NodeDetails)) (m : Communities) (nodes : List NodeCommunitiesRecord)
    → IsMap ℕ_discrete m
    → IsMap ℕ_discrete (group details m nodes)
unfolding group add_member
group-IsMap details m [] h = h
group-IsMap details m (n ∷ ns) h =
    group-IsMap details (add_member n.level_0 (annotate details n) m) ns (
      insert-IsMap ℕ_discrete n.level_0
        (extended (lookup ℕ_discrete n.level_0 m) (annotate details n)) m h)

-- No community stands twice, and together the communities have as many records as the file has
-- nodes.
pub annotated_communities_partition :
    (infos : List NodeInfoRecord) (nodes : List NodeCommunitiesRecord)
    → IsMap ℕ_discrete (annotated_communities infos nodes)
      × (total_members (annotated_communities infos nodes) ≡ length nodes)
unfolding annotated_communities
annotated_communities_partition infos nodes = (
  group-IsMap (index_nodes [] infos) [] nodes tt,
  omega (arith, total-group (index_nodes [] infos) [] nodes),
)
