-- ===== src/Extern.antt =====
-- What the repository takes from the crates bitcoin, lightning and chrono, as parameters: public
-- keys, socket addresses and on-chain addresses with their print and parse functions. Their texts
-- are lists of code points. `Codecs` states what the code relies on.
use gossip_observer.Prelude.{Bool, true, false, Option, none, some, ◌≡◌}
use gossip_observer.Prelude.Text.{Text}

pub record Extern : Type 1 where
  pub PublicKey : Type 0
  pub pubkey_discrete : Discrete PublicKey
  pub pubkey_to_string : PublicKey → Text
  pub parse_pubkey : Text → Option PublicKey
  pub SocketAddress : Type 0
  pub socket_discrete : Discrete SocketAddress
  pub socket_to_string : SocketAddress → Text
  pub parse_socket : Text → Option SocketAddress
  -- The variants `SocketAddress::OnionV2` and `SocketAddress::OnionV3`.
  pub is_onion_v2 : SocketAddress → Bool
  pub is_onion_v3 : SocketAddress → Bool
  pub Address : Type 0
  pub address_to_string : Address → Text
  -- `Address::from_str` followed by `require_network(Network::Bitcoin)`.
  pub parse_address : Text → Option Address
  pub is_mainnet : Address → Bool
  -- `lightning::routing::gossip::NodeId` with `as_pubkey`.
  pub NodeId : Type 0
  pub as_pubkey : NodeId → Option PublicKey
  -- `f64`.
  pub F64 : Type 0

-- A print is parsed back; an Onion V2 address has a print that no parser accepts any more.
pub record Codecs (x : Extern) : Type 0 where
  pub pubkey_round : (k : x.PublicKey) → x.parse_pubkey (x.pubkey_to_string k) ≡ some k
  pub socket_round :
      (a : x.SocketAddress)
      → x.is_onion_v2 a ≡ false
      → x.parse_socket (x.socket_to_string a) ≡ some a
  pub onion_v2_lost :
      (a : x.SocketAddress) → x.is_onion_v2 a ≡ true → x.parse_socket (x.socket_to_string a) ≡ none
  pub address_round :
      (a : x.Address) → x.is_mainnet a ≡ true → x.parse_address (x.address_to_string a) ≡ some a
