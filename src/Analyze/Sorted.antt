-- ===== src/Analyze/Sorted.antt =====
-- Every address goes to exactly one of the three writers.
use gossip_observer.Analyze.Extract.{
  MempoolInfo, Invalid, ParsedPeerSpecifiers, Sent, parse_addrs, possible_addrs, extract_peer_specs,
  send_info, send_infos, extract_addrs, nothing_sent, CommandEnd,
}
use gossip_observer.Analyze.Parsed.{
  keep, spec_of, reached, to_reachable, to_unreachable, to_mystery, sent_eq, parse_addrs_lem,
  send_valid_lem, somes-specs,
}
use gossip_observer.Communities.Sampling.{ℤ}
use gossip_observer.Extern.{Extern}
use gossip_observer.Prelude.{
  suc, ◌+◌, ◌≡◌, refl, sym, ap, ◌∙◌, Bool, true, false, List, [], ◌∷◌, ◌++◌, Option, none, some, ok,
  map, append_assoc, append-nil, map-append, cons_some, somes, somes-append, not, length, arith,
}
use gossip_observer.Prelude.Text.{Text}
use gossip_observer.Reach as Reachable
use gossip_observer.Types.Peers.{PeerSpecifier}

module _ (x : Extern) (view : x.SocketAddress → Reachable.SocketAddress) where
  -- A node with a readable key and a field of addresses.
  pub record Node : Type 0 where
    pub key : Text
    pub pubkey : x.PublicKey
    pub parsed : x.parse_pubkey key ≡ some pubkey
    pub sockets : Text
    pub updated_at : Option ℤ

  abbrev pub info_of : Node → MempoolInfo
  info_of n = record {
    public_key = some n.key;
    sockets = some n.sockets;
    updated_at = n.updated_at;
  }

  abbrev pub Entry : Type 0
  Entry = x.PublicKey × Text

  -- The addresses of the nodes.
  abbrev pub entries : List Node → List (x.PublicKey × Text)
  entries [] = []
  entries (n ∷ ns) = map (λ t. (n.pubkey, t)) (possible_addrs x view n.sockets) ++ entries ns

  -- What is sent for the entries, after what was sent before.
  abbrev pub sorted : Sent x view → List (x.PublicKey × Text) → Sent x view
  sorted sent es = record {
    reachable =
        sent.reachable ++ somes (map (λ e. (to_reachable x view) e.0 (x.parse_socket e.1)) es);
    unreachable =
        sent.unreachable ++ somes (map (λ e. (to_unreachable x view) e.0 (x.parse_socket e.1)) es);
    mystery =
        sent.mystery ++ somes (map (λ e. (to_mystery x view) e.0 e.1 (x.parse_socket e.1)) es);
  }

  map-pairs {ℓ} :
      {B : Type ℓ} (f : Entry → B) (k : x.PublicKey) (ts : List Text)
      → map f (map (λ t. (k, t)) ts) ≡ map (λ t. f (k, t)) ts
  map-pairs f k [] = refl
  map-pairs f k (t ∷ ts) = ap (λ l. f (k, t) ∷ l) (map-pairs f k ts)

  parsed_node : Node → ParsedPeerSpecifiers x view
  parsed_node n =
      parse_addrs x view n.pubkey (record { valid = []; invalid = []; last_seen = n.updated_at })
        (possible_addrs x view n.sockets)

  extract_node : (n : Node) → extract_peer_specs x view (info_of n) ≡ ok (parsed_node n)
  unfolding extract_peer_specs parsed_node
  extract_node n = rw n.parsed refl

  send_node :
      (n : Node) (sent : Sent x view)
      → send_info x view (parsed_node n) sent
        ≡ sorted sent (map (λ t. (n.pubkey, t)) (possible_addrs x view n.sockets))
  unfolding parsed_node
  send_node n sent =
      let k = n.pubkey in
      let ts = possible_addrs x view n.sockets in
      ap (λ p. send_info x view p sent)
        ((parse_addrs_lem x view) k (record { valid = []; invalid = []; last_seen = n.updated_at })
          ts)
      ∙ (send_valid_lem x view) (somes (map (λ t. (spec_of x view) k (x.parse_socket t)) ts)) _
      ∙ (sent_eq x view)
          (ap (λ l. sent.reachable ++ l)
            ((somes-specs x view) (λ p. (keep x view) ((reached x view) p) p) (to_reachable x view)
                k (λ a. refl) refl ts
              ∙ ap somes
                  (sym (map-pairs (λ e. (to_reachable x view) e.0 (x.parse_socket e.1)) k ts))))
          (ap (λ l. sent.unreachable ++ l)
            ((somes-specs x view) (λ p. (keep x view) (not ((reached x view) p)) p)
                (to_unreachable x view) k (λ a. refl) refl ts
              ∙ ap somes
                  (sym (map-pairs (λ e. (to_unreachable x view) e.0 (x.parse_socket e.1)) k ts))))
          (ap (λ l. sent.mystery ++ somes l)
            (sym (map-pairs (λ e. (to_mystery x view) e.0 e.1 (x.parse_socket e.1)) k ts)))

  more {ℓ} :
      {B : Type ℓ} (f : Entry → Option B) (l : List B) (as' bs : List Entry)
      → (l ++ somes (map f as')) ++ somes (map f bs) ≡ l ++ somes (map f (as' ++ bs))
  more f l as' bs =
      append_assoc l (somes (map f as')) (somes (map f bs))
      ∙ ap (λ s. l ++ s)
          (sym (somes-append (map f as') (map f bs)) ∙ ap somes (sym (map-append f as' bs)))

  sorted-append :
      (sent : Sent x view) (as' bs : List Entry)
      → sorted (sorted sent as') bs ≡ sorted sent (as' ++ bs)
  sorted-append sent as' bs =
      (sent_eq x view)
        (more (λ e. (to_reachable x view) e.0 (x.parse_socket e.1)) sent.reachable as' bs)
        (more (λ e. (to_unreachable x view) e.0 (x.parse_socket e.1)) sent.unreachable as' bs)
        (more (λ e. (to_mystery x view) e.0 e.1 (x.parse_socket e.1)) sent.mystery as' bs)

  send_infos-cons :
      (n : Node) (infos : List MempoolInfo) (sent : Sent x view)
      → send_infos x view (info_of n ∷ infos) sent
        ≡ send_infos x view infos (send_info x view (parsed_node n) sent)
  unfolding send_infos
  send_infos-cons n infos sent = rw (extract_node n, send_infos) refl

  one_place :
      (es : List Entry)
      → length (somes (map (λ e. (to_reachable x view) e.0 (x.parse_socket e.1)) es))
          + length (somes (map (λ e. (to_unreachable x view) e.0 (x.parse_socket e.1)) es))
          + length (somes (map (λ e. (to_mystery x view) e.0 e.1 (x.parse_socket e.1)) es))
        ≡ length es
  one_place [] = omega arith
  one_place ((k, t) ∷ es) = at_parse (one_place es) (x.parse_socket t)
    where
      reachable : List (PeerSpecifier x)
      reachable = somes (map (λ e. (to_reachable x view) e.0 (x.parse_socket e.1)) es)

      unreachable : List (PeerSpecifier x)
      unreachable = somes (map (λ e. (to_unreachable x view) e.0 (x.parse_socket e.1)) es)

      mystery : List (Invalid x view)
      mystery = somes (map (λ e. (to_mystery x view) e.0 e.1 (x.parse_socket e.1)) es)

      at_place :
          (b : Bool) (p : PeerSpecifier x) (ps qs : List (PeerSpecifier x))
          (ms : List (Invalid x view))
          → length (cons_some ((keep x view) b p) ps)
              + length (cons_some ((keep x view) (not b) p) qs)
              + length ms
            ≡ suc (length ps + length qs + length ms)
      at_place true p ps qs ms = omega arith
      at_place false p ps qs ms = omega arith

      at_parse :
          length reachable + length unreachable + length mystery ≡ length es
          → (o : Option x.SocketAddress)
          → length (cons_some ((to_reachable x view) k o) reachable)
              + length (cons_some ((to_unreachable x view) k o) unreachable)
              + length (cons_some ((to_mystery x view) k t o) mystery)
            ≡ suc (length es)
      at_parse ih none = omega (arith, ih)
      at_parse ih (some a) = omega (
        arith,
        ih,
        at_place (Reachable.maybe_reachable (view a)) (record { pubkey = k; addr = a }) reachable
            unreachable mystery,
      )

  send_infos-sorted :
      (ns : List Node) (sent : Sent x view)
      → send_infos x view (map info_of ns) sent ≡ (sorted sent (entries ns), CommandEnd.finished)
  unfolding send_infos
  send_infos-sorted [] sent =
      ap (λ fs. (fs, CommandEnd.finished))
        ((sent_eq x view) (sym (append-nil sent.reachable)) (sym (append-nil sent.unreachable))
          (sym (append-nil sent.mystery)))
  send_infos-sorted (n ∷ ns) sent =
      let es = map (λ t. (n.pubkey, t)) (possible_addrs x view n.sockets) in
      send_infos-cons n (map info_of ns) sent
      ∙ ap (send_infos x view (map info_of ns)) (send_node n sent)
      ∙ send_infos-sorted ns (sorted sent es)
      ∙ ap (λ fs. (fs, CommandEnd.finished)) (sorted-append sent es (entries ns))

  -- For at least one node, all with keys that are read and addresses that are given, and while the
  -- writers run, no error ends the command. It then has sent to each of the three writers exactly the addresses that belong
  -- there, in the order of the nodes and their fields: an unreadable address is a mystery, and a
  -- readable one is reachable or not. Each address is sent to exactly one writer.
  pub extract_addrs_sorted :
      (n : Node) (ns : List Node)
      → let es = entries (n ∷ ns) in
        (extract_addrs x view (map info_of (n ∷ ns))
          ≡ (sorted (nothing_sent x view) es, CommandEnd.finished))
        × (length (somes (map (λ e. (to_reachable x view) e.0 (x.parse_socket e.1)) es))
              + length (somes (map (λ e. (to_unreachable x view) e.0 (x.parse_socket e.1)) es))
              + length (somes (map (λ e. (to_mystery x view) e.0 e.1 (x.parse_socket e.1)) es))
            ≡ length es)
  unfolding extract_addrs
  extract_addrs_sorted n ns =
      (send_infos-sorted (n ∷ ns) (nothing_sent x view), one_place (entries (n ∷ ns)))
