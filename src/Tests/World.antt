-- ===== src/Tests/World.antt =====
-- A concrete instance of what the code takes from its crates. Keys, sockets and addresses are
-- numbers, printed as one code point. The sockets 2 and 3 are onion addresses, the address 0 is not
-- a mainnet address.
use gossip_observer.Extern.{Extern, Codecs}
use gossip_observer.Prelude.{
  ℕ, refl, [], ◌∷◌, Option, none, some, ltb, ◌==◌, ℕ_discrete, if◌then◌else◌,
}
use gossip_observer.Prelude.Text.{Text}

abbrev parse_number : Text → Option ℕ
parse_number (n ∷ []) = some n
parse_number _ = none

abbrev parse_world_socket : Text → Option ℕ
parse_world_socket (n ∷ []) = if n == 2 then none else some n
parse_world_socket _ = none

abbrev parse_world_address : Text → Option ℕ
parse_world_address (n ∷ []) = if ltb 0 n then some n else none
parse_world_address _ = none

abbrev pub world : Extern
world = record {
  PublicKey = ℕ;
  pubkey_discrete = ℕ_discrete;
  pubkey_to_string = λ k. k ∷ [];
  parse_pubkey = parse_number;
  SocketAddress = ℕ;
  socket_discrete = ℕ_discrete;
  socket_to_string = λ a. a ∷ [];
  parse_socket = parse_world_socket;
  is_onion_v2 = λ a. a == 2;
  is_onion_v3 = λ a. a == 3;
  Address = ℕ;
  address_to_string = λ a. a ∷ [];
  parse_address = parse_world_address;
  is_mainnet = λ a. ltb 0 a;
  NodeId = ℕ;
  as_pubkey = λ n. if ltb n 100 then some n else none;
  F64 = ℕ;
}

pub world_codecs : Codecs world
world_codecs = record {
  pubkey_round = λ k. refl;
  socket_round = λ a h. rw h refl;
  onion_v2_lost = λ a h. rw h refl;
  address_round = λ a h. rw h refl;
}
