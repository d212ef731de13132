-- ===== src/Peers/Connect/Order.antt =====
-- The order in which the addresses of a peer are tried.
use gossip_observer.Extern.{Extern}
use gossip_observer.Peers.Connect.{insert_spec, sort_specs}
use gossip_observer.Prelude.{
  ◌≡◌, refl, ap, ◌∙◌, true, false, List, [], ◌∷◌, ◌++◌, arith, Bool-cases, inl, inr, All, Any,
  if◌then◌else◌,
}
use gossip_observer.Types.Peers.{PeerSpecifier, is_tor, compare_for_sort, Ordering}

module _ (x : Extern) where
  abbrev pub only_clearnet : List (PeerSpecifier x) → List (PeerSpecifier x)
  only_clearnet [] = []
  only_clearnet (s ∷ ss) = if is_tor x s.addr then only_clearnet ss else s ∷ only_clearnet ss

  abbrev pub only_tor : List (PeerSpecifier x) → List (PeerSpecifier x)
  only_tor [] = []
  only_tor (s ∷ ss) = if is_tor x s.addr then s ∷ only_tor ss else only_tor ss

  only_clearnet-All :
      (ss : List (PeerSpecifier x)) → All (λ s. is_tor x s.addr ≡ false) (only_clearnet ss)
  only_clearnet-All [] = tt
  only_clearnet-All (s ∷ ss) = elim (Bool-cases (is_tor x s.addr)) [
    | inl e ↦ rw e (only_clearnet-All ss)
    | inr e ↦ rw e (e, only_clearnet-All ss)
  ]

  only_tor-All : (ss : List (PeerSpecifier x)) → All (λ s. is_tor x s.addr ≡ true) (only_tor ss)
  only_tor-All [] = tt
  only_tor-All (s ∷ ss) = elim (Bool-cases (is_tor x s.addr)) [
    | inl e ↦ rw e (e, only_tor-All ss)
    | inr e ↦ rw e (only_tor-All ss)
  ]

  insert_clearnet :
      (s : PeerSpecifier x) (ts : List (PeerSpecifier x))
      → is_tor x s.addr ≡ false
      → insert_spec x s ts ≡ s ∷ ts
  unfolding insert_spec compare_for_sort
  insert_clearnet s [] e = refl
  insert_clearnet s (t ∷ ts) e = ground arith

  insert_tor :
      (s : PeerSpecifier x) (cs ts : List (PeerSpecifier x))
      → is_tor x s.addr ≡ true
      → All (λ c. is_tor x c.addr ≡ false) cs
      → All (λ t. is_tor x t.addr ≡ true) ts
      → insert_spec x s (cs ++ ts) ≡ cs ++ s ∷ ts
  unfolding insert_spec compare_for_sort
  insert_tor s [] [] e h k = refl
  insert_tor s [] (t ∷ ts) e h k = ground arith
  insert_tor s (c ∷ cs) ts e (h, hs) k = ground (arith, insert_tor s cs ts e hs k)

  -- Sorting puts a peer's clearnet addresses before its onion addresses and changes the order of
  -- neither.
  pub sort_specs-clearnet_first :
      (ss : List (PeerSpecifier x)) → sort_specs x ss ≡ only_clearnet ss ++ only_tor ss
  unfolding sort_specs
  sort_specs-clearnet_first [] = refl
  sort_specs-clearnet_first (s ∷ ss) =
      ap (insert_spec x s) (sort_specs-clearnet_first ss) ∙ elim (Bool-cases (is_tor x s.addr)) [
        | inl e ↦ insert_tor s _ _ e (only_clearnet-All ss) (only_tor-All ss) ∙ rw e refl
        | inr e ↦ insert_clearnet s _ e ∙ rw e refl
      ]

  insert_spec-Any :
      (P : PeerSpecifier x → Type 0) (s : PeerSpecifier x) (ts : List (PeerSpecifier x))
      → Any P (s ∷ ts)
      → Any P (insert_spec x s ts)
  unfolding insert_spec
  insert_spec-Any P s [] h = h
  insert_spec-Any P s (t ∷ ts) h =
      cases (compare_for_sort x s t) refl h (λ g. insert_spec-Any P s ts g)
    where
      cases :
          (o : Ordering)
          → compare_for_sort x s t ≡ o
          → Any P (s ∷ t ∷ ts)
          → (Any P (s ∷ ts) → Any P (insert_spec x s ts))
          → Any P (insert_spec x s (t ∷ ts))
      cases Ordering.less e g f = rw (e, insert_spec) g
      cases Ordering.equal e g f = rw (e, insert_spec) g
      cases Ordering.greater e (inl q) f = rw (e, insert_spec) (inr (f (inl q)))
      cases Ordering.greater e (inr (inl q)) f = rw (e, insert_spec) (inl q)
      cases Ordering.greater e (inr (inr q)) f = rw (e, insert_spec) (inr (f (inr q)))

  pub sort_specs-Any :
      (P : PeerSpecifier x → Type 0) (ss : List (PeerSpecifier x))
      → Any P ss
      → Any P (sort_specs x ss)
  unfolding sort_specs
  sort_specs-Any P [] h = h
  sort_specs-Any P (s ∷ ss) (inl q) = insert_spec-Any P s (sort_specs x ss) (inl q)
  sort_specs-Any P (s ∷ ss) (inr q) =
      insert_spec-Any P s (sort_specs x ss) (inr (sort_specs-Any P ss q))
