-- ===== src/Register/Members.antt =====
-- Which members of a community a collector is told of.
use gossip_observer.Extern.{Extern}
use gossip_observer.Manager.State.{NodeAnnotatedRecord}
use gossip_observer.Prelude.{
  cons_some, somes, ◌≡◌, refl, sym, ◌∙◌, List, [], ◌∷◌, Option, none, some, Result, ok, err, ◌>>=◌,
  map, ok_or, to_option,
}
use gossip_observer.Prelude.Split.{split_on}
use gossip_observer.Prelude.Text.{Text}
use gossip_observer.Register.{trim_matches, has_sockets, with_sockets, socket_list, try_record}
use gossip_observer.Types.Peers.{PeerConnectionInfo}
use gossip_observer.Wire.Common
use gossip_observer.Wire.Convert.{try_peer, try_socket}
use gossip_observer.Wire.Util.{
  ConvertError, try_convert_vec, try_convert_vec_permissive, convert_required_field,
}

abbrev pub add_some {ℓ} : {A : Type ℓ} → Option A → Option (List A) → Option (List A)
add_some none r = none
add_some (some a) none = none
add_some (some a) (some as') = some (a ∷ as')

-- The list of the values, if there are all.
abbrev pub all_some {ℓ} : {A : Type ℓ} → List (Option A) → Option (List A)
all_some [] = some []
all_some (o ∷ os) = add_some o (all_some os)

abbrev both {ℓ κ μ} :
    {A : Type ℓ} {B : Type κ} {C : Type μ}
    → (A → B → C)
    → Result A ConvertError
    → Result B ConvertError
    → Result C ConvertError
both f r r' = r >>= λ a. r' >>= λ b. ok (f a b)

module _ (x : Extern) where
  abbrev to_peer : x.PublicKey → List x.SocketAddress → PeerConnectionInfo x
  to_peer k addrs = record { pubkey = k; addrs = addrs }

  abbrev pub peer_info :
      Option x.PublicKey → Option (List x.SocketAddress) → Option (PeerConnectionInfo x)
  peer_info (some key) (some addrs) = some (record { pubkey = key; addrs = addrs })
  peer_info _ _ = none

  abbrev pub peer_at : Text → Text → Option (PeerConnectionInfo x)
  peer_at key [] = none
  peer_at key (c ∷ t) =
      peer_info (x.parse_pubkey key)
        (all_some (map x.parse_socket (split_on b',' (trim_matches b'"' (c ∷ t)))))

  abbrev pub peer_in : Text → Option Text → Option (PeerConnectionInfo x)
  peer_in key none = none
  peer_in key (some t) = peer_at key t

  -- A member that has sockets, whose key is read, and all of whose addresses are read.
  abbrev pub readable_peer : NodeAnnotatedRecord → Option (PeerConnectionInfo x)
  readable_peer r = peer_in r.pubkey r.sockets

  abbrev pub readable_peers : List NodeAnnotatedRecord → List (PeerConnectionInfo x)
  readable_peers ms = somes (map readable_peer ms)

  sockets_read :
      (ss : List Text)
      → to_option (try_convert_vec (try_socket x) (map (λ s. record { address = s }) ss))
        ≡ all_some (map x.parse_socket ss)
  unfolding try_convert_vec
  sockets_read [] = refl
  sockets_read (s ∷ ss) =
      at_head (x.parse_socket s)
        (try_convert_vec (try_socket x) (map (λ s. record { address = s }) ss)) (sockets_read ss)
    where
      at_head :
          (o : Option x.SocketAddress) (r : Result (List x.SocketAddress) ConvertError)
          → to_option r ≡ all_some (map x.parse_socket ss)
          → to_option (both ◌∷◌ (ok_or o ConvertError.invalid) r)
            ≡ all_some (o ∷ map x.parse_socket ss)
      at_head none r e = refl
      at_head (some a) (ok as') e = rw (all_some, sym e) refl
      at_head (some a) (err b) e = rw (all_some, sym e) refl

  peer_read :
      (key : Text) (ss : List Text)
      → to_option (
          try_peer x (record {
            pubkey = some (record { pubkey = key });
            socket_addrs = map (λ s. record { address = s }) ss;
          }))
        ≡ peer_info (x.parse_pubkey key) (all_some (map x.parse_socket ss))
  unfolding try_peer convert_required_field
  peer_read key ss =
      at_parts (x.parse_pubkey key)
        (try_convert_vec (try_socket x) (map (λ s. record { address = s }) ss)) (sockets_read ss)
    where
      at_parts :
          (o : Option x.PublicKey) (r : Result (List x.SocketAddress) ConvertError)
          → to_option r ≡ all_some (map x.parse_socket ss)
          → to_option (both to_peer (ok_or o ConvertError.invalid) r)
            ≡ peer_info o (all_some (map x.parse_socket ss))
      at_parts none r e = refl
      at_parts (some k) (ok as') e = rw (sym e) refl
      at_parts (some k) (err b) e = rw (sym e) refl

  permissive-cons :
      (t : Common.PeerConnectionInfo) (ts : List Common.PeerConnectionInfo)
      → try_convert_vec_permissive (try_peer x) (t ∷ ts)
        ≡ cons_some (to_option (try_peer x t)) (try_convert_vec_permissive (try_peer x) ts)
  unfolding try_convert_vec_permissive
  permissive-cons t ts = at_head (try_peer x t)
    where
      at_head :
          (r : Result (PeerConnectionInfo x) ConvertError)
          → (elim r [
            | ok u ↦ u ∷ try_convert_vec_permissive (try_peer x) ts
            | err _ ↦ try_convert_vec_permissive (try_peer x) ts
          ])
            ≡ cons_some (to_option r) (try_convert_vec_permissive (try_peer x) ts)
      at_head (ok u) = refl
      at_head (err b) = refl

  -- What becomes of a list of members: no record is refused, and the peers are the readable members.
  pub record IsConverted (ms : List NodeAnnotatedRecord) : Type 0 where
    pub peer_list : List Common.PeerConnectionInfo
    pub converted : try_convert_vec try_record (with_sockets ms) ≡ ok peer_list
    pub peers : try_convert_vec_permissive (try_peer x) peer_list ≡ readable_peers ms

  pub members-IsConverted : (ms : List NodeAnnotatedRecord) → IsConverted ms
  unfolding try_convert_vec with_sockets try_record has_sockets try_convert_vec_permissive
  members-IsConverted [] = record { peer_list = []; converted = refl; peers = refl }
  members-IsConverted (m ∷ ms) = at_sockets (members-IsConverted ms) m.sockets
    where
      at_sockets : IsConverted ms → (o : Option Text) → IsConverted (record m { sockets = o } ∷ ms)
      at_sockets h none = record {
        peer_list = h.peer_list;
        converted = h.converted;
        peers = h.peers;
      }
      at_sockets h (some []) = record {
        peer_list = h.peer_list;
        converted = h.converted;
        peers = h.peers;
      }
      at_sockets h (some (c ∷ t)) =
          let p : Common.PeerConnectionInfo = record {
            pubkey = some (record { pubkey = m.pubkey });
            socket_addrs = socket_list (c ∷ t);
          } in
          record {
            peer_list = p ∷ h.peer_list;
            converted = rw h.converted refl;
            peers =
                permissive-cons p h.peer_list
                ∙ rw (peer_read m.pubkey (split_on b',' (trim_matches b'"' (c ∷ t))), h.peers) refl;
          }
