-- ===== src/Communities.antt =====
-- observer_controller/src/main.rs `async_main`: how the controller groups the nodes of its two CSV
-- files into communities, and what it is configured with. The records are those of
-- observer_controller/src/csv_reader.rs.
pub mod Members
pub mod Sampling
pub mod Served
use gossip_observer.Manager.State.{NodeAnnotatedRecord}
use gossip_observer.Prelude.{ℕ, List, [], ◌∷◌, ◌++◌, Option, none, some, ℕ_discrete}
use gossip_observer.Prelude.Map.{lookup, insert}
use gossip_observer.Prelude.Text.{Text, Text-discrete}

pub record NodeInfoRecord : Type 0 where
  pub pubkey : Text
  pub net_type : Text
  pub sockets : Text
  pub alias : Text

pub record NodeCommunitiesRecord : Type 0 where
  pub pubkey : Text
  pub level_0 : ℕ
  pub level_1 : ℕ
  pub level_2 : ℕ

-- The values of `node_info_map`: the network type, the sockets and the alias.
abbrev pub NodeDetails : Type 0
NodeDetails = Text × Text × Text

-- The loop that fills `node_info_map`.
unfoldable pub index_nodes :
    List (Text × NodeDetails) → List NodeInfoRecord → List (Text × NodeDetails)
index_nodes m [] = m
index_nodes m (node ∷ nodes) =
    index_nodes (insert Text-discrete node.pubkey (node.net_type, node.sockets, node.alias) m) nodes

-- A record with the details that were found.
abbrev pub with_details : Text → Option NodeDetails → NodeAnnotatedRecord
with_details key none = record { pubkey = key; net_type = none; sockets = none; alias = none }
with_details key (some (net_type, sockets, alias)) = record {
  pubkey = key;
  net_type = some net_type;
  sockets = some sockets;
  alias = some alias;
}

unfoldable pub annotate : List (Text × NodeDetails) → NodeCommunitiesRecord → NodeAnnotatedRecord
annotate m node = with_details node.pubkey (lookup Text-discrete node.pubkey m)

abbrev pub Communities : Type 0
Communities = List (ℕ × List NodeAnnotatedRecord)

abbrev pub extended :
    Option (List NodeAnnotatedRecord) → NodeAnnotatedRecord → List NodeAnnotatedRecord
extended (some members) node_info = members ++ node_info ∷ []
extended none node_info = node_info ∷ []

-- The `entry` of a community: push onto an occupied one, fill a vacant one.
unfoldable pub add_member : ℕ → NodeAnnotatedRecord → Communities → Communities
add_member community node_info m =
    insert ℕ_discrete community (extended (lookup ℕ_discrete community m) node_info) m

-- The loop over the second file.
unfoldable pub group :
    List (Text × NodeDetails) → Communities → List NodeCommunitiesRecord → Communities
group details m [] = m
group details m (node ∷ nodes) =
    group details (add_member node.level_0 (annotate details node) m) nodes

unfoldable pub annotated_communities :
    List NodeInfoRecord → List NodeCommunitiesRecord → Communities
annotated_communities node_info node_communities =
    group (index_nodes [] node_info) [] node_communities
