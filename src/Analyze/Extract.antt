-- ===== src/Analyze/Extract.antt =====
-- `extract_peer_specs_from_mempool_space_info` and the `ExtractAddrsNodeInfo` command, which sorts
-- the addresses of nodes for three writers.
use gossip_observer.Extern.{Extern}
use gossip_observer.Communities.Sampling.{ℤ}
use gossip_observer.Prelude.{
  Bool, true, false, List, [], ◌∷◌, ◌++◌, Option, none, some, Result, ok, err, ◌>>=◌, ok_or,
}
use gossip_observer.Prelude.Split.{split_on}
use gossip_observer.Prelude.Text.{Text}
use gossip_observer.Reach as Reachable
use gossip_observer.Types.Peers.{PeerSpecifier}

-- The fields of a JSON value that are read, where they are strings, and a number for `updated_at`.
pub record MempoolInfo : Type 0 where
  pub public_key : Option Text
  pub sockets : Option Text
  pub updated_at : Option ℤ

pub data ExtractError : Type 0 where
  no_pubkey bad_pubkey no_addresses : ExtractError

-- `view` shows an address to `maybe_reachable`.
module _ (x : Extern) (view : x.SocketAddress → Reachable.SocketAddress) where
  -- A text that is no address, with its key.
  pub record Invalid : Type 0 where
    pub pubkey : x.PublicKey
    pub addr : Text

  pub record ParsedPeerSpecifiers : Type 0 where
    pub valid : List (PeerSpecifier x)
    pub invalid : List Invalid
    pub last_seen : Option ℤ

  abbrev pub add_addr :
      x.PublicKey → Text → Option x.SocketAddress → ParsedPeerSpecifiers → ParsedPeerSpecifiers
  add_addr pubkey t none p = record p {
    invalid = p.invalid ++ record { pubkey = pubkey; addr = t } ∷ [];
  }
  add_addr pubkey t (some addr) p = record p {
    valid = p.valid ++ record { pubkey = pubkey; addr = addr } ∷ [];
  }

  -- The loop over the addresses.
  unfoldable pub parse_addrs : x.PublicKey → ParsedPeerSpecifiers → List Text → ParsedPeerSpecifiers
  parse_addrs pubkey p [] = p
  parse_addrs pubkey p (t ∷ ts) = parse_addrs pubkey (add_addr pubkey t (x.parse_socket t) p) ts

  -- An empty field has no addresses.
  abbrev pub possible_addrs : Text → List Text
  possible_addrs [] = []
  possible_addrs (c ∷ t) = split_on b',' (c ∷ t)

  unfoldable pub extract_peer_specs : MempoolInfo → Result ParsedPeerSpecifiers ExtractError
  extract_peer_specs info = do
    key ← ok_or info.public_key ExtractError.no_pubkey
    pubkey ← ok_or (x.parse_pubkey key) ExtractError.bad_pubkey
    addrs_field ← ok_or info.sockets ExtractError.no_addresses
    ok (
        parse_addrs pubkey (record { valid = []; invalid = []; last_seen = info.updated_at })
          (possible_addrs addrs_field))

  -- What is sent to the three writers.
  pub record Sent : Type 0 where
    pub reachable : List (PeerSpecifier x)
    pub unreachable : List (PeerSpecifier x)
    pub mystery : List Invalid

  abbrev pub add_spec : PeerSpecifier x → Bool → Sent → Sent
  add_spec peer true sent = record sent { reachable = sent.reachable ++ peer ∷ [] }
  add_spec peer false sent = record sent { unreachable = sent.unreachable ++ peer ∷ [] }

  unfoldable pub send_valid : List (PeerSpecifier x) → Sent → Sent
  send_valid [] sent = sent
  send_valid (peer ∷ peers) sent =
      send_valid peers (add_spec peer (Reachable.maybe_reachable (view peer.addr)) sent)

  abbrev pub send_info : ParsedPeerSpecifiers → Sent → Sent
  send_info p sent = send_valid p.valid (record sent { mystery = sent.mystery ++ p.invalid })

  -- How the command ends.
  pub data CommandEnd : Type 0 where
    finished panicked : CommandEnd
    failed : ExtractError → CommandEnd

  -- The loop over the nodes: what was sent, and how it ended.
  unfoldable pub send_infos : List MempoolInfo → Sent → Sent × CommandEnd
  send_infos [] sent = (sent, CommandEnd.finished)
  send_infos (info ∷ infos) sent = elim (extract_peer_specs info) [
    | ok p ↦ send_infos infos (send_info p sent)
    | err e ↦ (sent, CommandEnd.failed e)
  ]

  abbrev pub nothing_sent : Sent
  nothing_sent = record { reachable = []; unreachable = []; mystery = [] }

  -- The command on the values that it read, when its three files are created and no writer ends
  -- before it. It prints the first value, so it panics if there is none. It does not wait for the
  -- tasks that write what it sent.
  unfoldable pub extract_addrs : List MempoolInfo → Sent × CommandEnd
  extract_addrs [] = (nothing_sent, CommandEnd.panicked)
  extract_addrs (info ∷ infos) = send_infos (info ∷ infos) nothing_sent
