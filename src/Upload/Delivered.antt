-- ===== src/Upload/Delivered.antt =====
-- What the controller's actor handles while a collector sends the requests of a turn.
use gossip_observer.Extern.{Extern}
use gossip_observer.Manager.Handle.{handle_msg, run}
use gossip_observer.Manager.State.{CollectorManager, CollectorManagerMsg}
use gossip_observer.Prelude.{
  ℕ, suc, ◌≡◌, refl, ap, ◌∙◌, sym, List, [], ◌∷◌, ◌++◌, All, map, Result, ok, err, ◌>>=◌,
}
use gossip_observer.Upload.Graph.{GossipGraphChunk, post_gossip_graph_chunk, post_all}
use gossip_observer.Upload.Schedule.{Outcome, Fate, answer, request, controller_of}

module _ (x : Extern) where
  -- What the actor handles of a request, and of the requests after it.
  abbrev pub with_rest :
      Outcome
      → ℕ × CollectorManagerMsg x
      → List (ℕ × CollectorManagerMsg x)
      → List (ℕ × CollectorManagerMsg x)
  with_rest Outcome.answered msg rest = msg ∷ rest
  with_rest Outcome.lost msg rest = []
  with_rest Outcome.unanswered msg rest = msg ∷ []

  -- What the actor handles while these messages are sent in a turn, from the request number `n`.
  abbrev pub mail :
      (ℕ → Fate x) → ℕ → List (CollectorManagerMsg x) → List (ℕ × CollectorManagerMsg x)
  mail fates n [] = []
  mail fates n (msg ∷ msgs) =
      (fates n).others ++ with_rest (fates n).outcome ((fates n).now, msg) (mail fates (suc n) msgs)

  pub run-append :
      (ms ns : List (ℕ × CollectorManagerMsg x)) (mgr : CollectorManager x)
      → run x mgr (ms ++ ns) ≡ run x (run x mgr ms) ns
  unfolding run
  run-append [] ns mgr = refl
  run-append ((now, m) ∷ ms) ns mgr = run-append ms ns (handle_msg x now mgr m).0

  pub post_all-append :
      {S E : Type 0} (post : GossipGraphChunk → S → Result S E) (as' bs : List GossipGraphChunk)
      (s : S)
      → post_all x post (as' ++ bs) s ≡ (do after ← post_all x post as' s; post_all x post bs after)
  unfolding post_all
  post_all-append post [] bs s = refl
  post_all-append {S = S} {E = E} post (a ∷ as') bs s =
      at_result (post a s) (λ next. post_all-append post as' bs next)
    where
      at_result :
          (r : Result S E)
          → ((next : S)
              → post_all x post (as' ++ bs) next
                ≡ (do after ← post_all x post as' next; post_all x post bs after))
          → (do next ← r; post_all x post (as' ++ bs) next)
            ≡ (do after ← (do next ← r; post_all x post as' next); post_all x post bs after)
      at_result (ok next) ih = ih next
      at_result (err e) ih = refl

  -- The handler gives the message of a request to the actor.
  abbrev pub Pushes : GossipGraphChunk × CollectorManagerMsg x → Type 0
  Pushes q =
      (now : ℕ) (mgr : CollectorManager x)
      → post_gossip_graph_chunk x now q.0 mgr ≡ ok (handle_msg x now mgr q.1).0

  abbrev pub chunks_of : List (GossipGraphChunk × CollectorManagerMsg x) → List GossipGraphChunk
  chunks_of = map (λ q. q.0)

  abbrev pub messages_of :
      List (GossipGraphChunk × CollectorManagerMsg x) → List (CollectorManagerMsg x)
  messages_of = map (λ q. q.1)

  pub post_all-mail :
      (fates : ℕ → Fate x) (qs : List (GossipGraphChunk × CollectorManagerMsg x)) (n : ℕ)
      (mgr : CollectorManager x)
      → All Pushes qs
      → controller_of x
          (post_all x (request x fates) (chunks_of qs) (record { mgr = mgr; sent = n }))
        ≡ run x mgr (mail fates n (messages_of qs))
  unfolding post_all run
  post_all-mail fates [] n mgr h = refl
  post_all-mail fates (q ∷ qs) n mgr (h, hs) =
      let fate = fates n in
      let mid = run x mgr fate.others in
      let msg : ℕ × CollectorManagerMsg x = (fate.now, q.1) in
      let rest = mail fates (suc n) (messages_of qs) in
      ap
        (λ r. controller_of x (do
          next ← answer x fate.outcome (suc n) mid r
          post_all x (request x fates) (chunks_of qs) next))
        (h fate.now mid)
      ∙ at_outcome fate.outcome mid msg
          (post_all-mail fates qs (suc n) (handle_msg x fate.now mid q.1).0 hs)
      ∙ sym (run-append fate.others (with_rest fate.outcome msg rest) mgr)
    where
      at_outcome :
          (o : Outcome) (mid : CollectorManager x) (msg : ℕ × CollectorManagerMsg x)
          → controller_of x (
              post_all x
                (request x fates)
                (chunks_of qs)
                (record { mgr = (handle_msg x msg.0 mid msg.1).0; sent = suc n }))
            ≡ run x (handle_msg x msg.0 mid msg.1).0 (mail fates (suc n) (messages_of qs))
          → controller_of x (do
            next ← answer x o (suc n) mid (ok (handle_msg x msg.0 mid msg.1).0)
            post_all x (request x fates) (chunks_of qs) next)
            ≡ run x mid (with_rest o msg (mail fates (suc n) (messages_of qs)))
      at_outcome Outcome.answered mid msg ih = ih
      at_outcome Outcome.lost mid msg ih = refl
      at_outcome Outcome.unanswered mid msg ih = refl

  pub map-pairs :
      {A : Type 0} (f : A → GossipGraphChunk) (g : A → CollectorManagerMsg x) (l : List A)
      → (chunks_of (map (λ a. (f a, g a)) l) ≡ map f l)
        × (messages_of (map (λ a. (f a, g a)) l) ≡ map g l)
  map-pairs f g [] = (refl, refl)
  map-pairs f g (a ∷ l) = let (p, q) = map-pairs f g l in (ap (λ t. f a ∷ t) p, ap (λ t. g a ∷ t) q)
