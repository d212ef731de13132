-- ===== src/Analyze/Parsed.antt =====
-- The loops over the addresses of one node: what they find valid, and where they send it.
use gossip_observer.Analyze.Extract.{
  Invalid, ParsedPeerSpecifiers, Sent, add_addr, parse_addrs, add_spec, send_valid,
}
use gossip_observer.Extern.{Extern}
use gossip_observer.Prelude.{
  ◌≡◌, refl, sym, ap, ap₂, ◌∙◌, Bool, true, false, List, [], ◌∷◌, ◌++◌, Option, none, some, map,
  append_assoc, append-nil, cons_some, somes, not,
}
use gossip_observer.Prelude.Text.{Text}
use gossip_observer.Reach as Reachable
use gossip_observer.Types.Peers.{PeerSpecifier}

module _ (x : Extern) (view : x.SocketAddress → Reachable.SocketAddress) where
  abbrev pub keep : Bool → PeerSpecifier x → Option (PeerSpecifier x)
  keep true p = some p
  keep false p = none

  abbrev pub spec_of : x.PublicKey → Option x.SocketAddress → Option (PeerSpecifier x)
  spec_of k none = none
  spec_of k (some a) = some (record { pubkey = k; addr = a })

  abbrev pub reached : PeerSpecifier x → Bool
  reached p = Reachable.maybe_reachable (view p.addr)

  -- Whether an address goes to the writer of the reachable, the unreachable or the unreadable ones.
  abbrev pub to_reachable : x.PublicKey → Option x.SocketAddress → Option (PeerSpecifier x)
  to_reachable k none = none
  to_reachable k (some a) =
      keep (Reachable.maybe_reachable (view a)) (record { pubkey = k; addr = a })

  abbrev pub to_unreachable : x.PublicKey → Option x.SocketAddress → Option (PeerSpecifier x)
  to_unreachable k none = none
  to_unreachable k (some a) =
      keep (not (Reachable.maybe_reachable (view a))) (record { pubkey = k; addr = a })

  abbrev pub to_mystery : x.PublicKey → Text → Option x.SocketAddress → Option (Invalid x view)
  to_mystery k t none = some (record { pubkey = k; addr = t })
  to_mystery k t (some a) = none

  abbrev pub parsed_after :
      x.PublicKey → ParsedPeerSpecifiers x view → List Text → ParsedPeerSpecifiers x view
  parsed_after k p ts = record {
    valid = p.valid ++ somes (map (λ t. spec_of k (x.parse_socket t)) ts);
    invalid = p.invalid ++ somes (map (λ t. to_mystery k t (x.parse_socket t)) ts);
    last_seen = p.last_seen;
  }

  pub sent_eq :
      {a a' b b' : List (PeerSpecifier x)} {c c' : List (Invalid x view)}
      → a ≡ a'
      → b ≡ b'
      → c ≡ c'
      → ◌≡◌ {A = Sent x view}
          (record { reachable = a; unreachable = b; mystery = c })
          (record { reachable = a'; unreachable = b'; mystery = c' })
  sent_eq p q r = λ i. record { reachable = p i; unreachable = q i; mystery = r i }

  pub parse_addrs_lem :
      (k : x.PublicKey) (p : ParsedPeerSpecifiers x view) (ts : List Text)
      → parse_addrs x view k p ts ≡ parsed_after k p ts
  unfolding parse_addrs
  parse_addrs_lem k p [] =
      ap₂ (λ a b. record { valid = a; invalid = b; last_seen = p.last_seen })
        (sym (append-nil p.valid)) (sym (append-nil p.invalid))
  parse_addrs_lem k p (t ∷ ts) =
      parse_addrs_lem k (add_addr x view k t (x.parse_socket t) p) ts ∙ at_head (x.parse_socket t)
    where
      at_head :
          (o : Option x.SocketAddress)
          → parsed_after k (add_addr x view k t o p) ts ≡ record {
            valid =
                p.valid
                ++ cons_some (spec_of k o) (somes (map (λ t. spec_of k (x.parse_socket t)) ts));
            invalid =
                p.invalid
                ++ cons_some
                    (to_mystery k t o)
                    (somes (map (λ t. to_mystery k t (x.parse_socket t)) ts));
            last_seen = p.last_seen;
          }
      at_head none =
          ap
            (λ l. record {
              valid = p.valid ++ somes (map (λ t. spec_of k (x.parse_socket t)) ts);
              invalid = l;
              last_seen = p.last_seen;
            })
            (append_assoc p.invalid _ _)
      at_head (some a) =
          ap
            (λ l. record {
              valid = l;
              invalid = p.invalid ++ somes (map (λ t. to_mystery k t (x.parse_socket t)) ts);
              last_seen = p.last_seen;
            })
            (append_assoc p.valid _ _)

  pub send_valid_lem :
      (ps : List (PeerSpecifier x)) (sent : Sent x view)
      → send_valid x view ps sent ≡ record {
        reachable = sent.reachable ++ somes (map (λ p. keep (reached p) p) ps);
        unreachable = sent.unreachable ++ somes (map (λ p. keep (not (reached p)) p) ps);
        mystery = sent.mystery;
      }
  unfolding send_valid
  send_valid_lem [] sent =
      sent_eq (sym (append-nil sent.reachable)) (sym (append-nil sent.unreachable)) refl
  send_valid_lem (p ∷ ps) sent =
      send_valid_lem ps (add_spec x view p (reached p) sent) ∙ at_head (reached p)
    where
      at_head :
          (b : Bool)
          → ◌≡◌ {A = Sent x view}
              (record {
                reachable =
                    (add_spec x view p b sent).reachable
                    ++ somes (map (λ p. keep (reached p) p) ps);
                unreachable =
                    (add_spec x view p b sent).unreachable
                    ++ somes (map (λ p. keep (not (reached p)) p) ps);
                mystery = (add_spec x view p b sent).mystery;
              })
              (record {
                reachable =
                    sent.reachable
                    ++ cons_some (keep b p) (somes (map (λ p. keep (reached p) p) ps));
                unreachable =
                    sent.unreachable
                    ++ cons_some (keep (not b) p) (somes (map (λ p. keep (not (reached p)) p) ps));
                mystery = sent.mystery;
              })
      at_head true = sent_eq (append_assoc sent.reachable _ _) refl refl
      at_head false = sent_eq refl (append_assoc sent.unreachable _ _) refl

  -- Sorting the valid addresses of a node is sorting its addresses.
  pub somes-specs :
      (f : PeerSpecifier x → Option (PeerSpecifier x))
      (g : x.PublicKey → Option x.SocketAddress → Option (PeerSpecifier x)) (k : x.PublicKey)
      → ((a : x.SocketAddress) → f (record { pubkey = k; addr = a }) ≡ g k (some a))
      → g k none ≡ none
      → (ts : List Text)
      → somes (map f (somes (map (λ t. spec_of k (x.parse_socket t)) ts)))
        ≡ somes (map (λ t. g k (x.parse_socket t)) ts)
  somes-specs f g k h n [] = refl
  somes-specs f g k h n (t ∷ ts) = at_head (x.parse_socket t) (somes-specs f g k h n ts)
    where
      at_head :
          (o : Option x.SocketAddress)
          → somes (map f (somes (map (λ t. spec_of k (x.parse_socket t)) ts)))
            ≡ somes (map (λ t. g k (x.parse_socket t)) ts)
          → somes
              (map f (cons_some (spec_of k o) (somes (map (λ t. spec_of k (x.parse_socket t)) ts))))
            ≡ cons_some (g k o) (somes (map (λ t. g k (x.parse_socket t)) ts))
      at_head none e =
          e ∙ ap (λ o. cons_some o (somes (map (λ t. g k (x.parse_socket t)) ts))) (sym n)
      at_head (some a) e = ap₂ cons_some (h a) e
