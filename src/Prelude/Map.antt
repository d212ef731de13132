-- ===== src/Prelude/Map.antt =====
-- `HashMap` as an association list and `HashSet` as a list. The order of a list stands for the
-- unspecified iteration order, so what holds for every list holds for every order.
use gossip_observer.Prelude.Lists.{All}
use mathlib.Core.Bool.{Bool, true, false}
use mathlib.Core.List.{List, [], ◌∷◌, ◌++◌}
use mathlib.Core.Logic.{ite, if_pos, if_neg}
use mathlib.Core.Option
use mathlib.Core.Option.{Option, none, some, none-ne-some, some-injective}
use mathlib.Core.Path.{◌≡◌, refl, sym, ◌∙◌, subst}
use native.Mathlib.Omega.{arith}

module _ {ℓ} {K V : Type ℓ} where
  abbrev pub keys : List (K × V) → List K
  keys [] = []
  keys ((k, v) ∷ m) = k ∷ keys m

  abbrev pub values : List (K × V) → List V
  values [] = []
  values ((k, v) ∷ m) = v ∷ values m

  -- `HashMap::retain`.
  unfoldable pub retain : (V → Bool) → List (K × V) → List (K × V)
  retain p [] = []
  retain p ((k, v) ∷ m) = elim (p v) [ true ↦ (k, v) ∷ retain p m | false ↦ retain p m ]

  -- A loop over `iter_mut` that changes each value.
  unfoldable pub update_all : (V → V) → List (K × V) → List (K × V)
  update_all f [] = []
  update_all f ((k, v) ∷ m) = (k, f v) ∷ update_all f m

abbrev pub or_else {ℓ} : {V : Type ℓ} → Option V → Option V → Option V
or_else none o = o
or_else (some v) o = some v

abbrev pub keep_if {ℓ} : {V : Type ℓ} → (V → Bool) → Option V → Option V
keep_if p none = none
keep_if p (some v) = elim (p v) [ true ↦ some v | false ↦ none ]

module _ {ℓ} {K : Type ℓ} (dec : Discrete K) where
  unfoldable pub contains : K → List K → Bool
  contains k [] = false
  contains k (j ∷ s) = ite (dec j k) true (contains k s)

  -- `HashSet::insert`.
  unfoldable pub add : K → List K → List K
  unfolding contains
  add k s = elim (contains k s) [ true ↦ s | false ↦ k ∷ s ]

  -- `HashSet::remove`.
  unfoldable pub remove : K → List K → List K
  remove k [] = []
  remove k (j ∷ s) = ite (dec j k) (remove k s) (j ∷ remove k s)

  pub contains-remove :
      (j k : K) (s : List K) → contains j (remove k s) ≡ ite (dec k j) false (contains j s)
  unfolding contains remove
  contains-remove j k [] = ground arith
  contains-remove j k (i ∷ s) = elim (dec i k) [
    | yes p ↦ rw (if_pos (dec i k) p, contains-remove j k s) (ground arith)
    | no p ↦ rw (if_neg (dec i k) p, contains-remove j k s) (ground arith)
  ]

  pub contains-add :
      (j k : K) (s : List K) → contains j (add k s) ≡ ite (dec k j) true (contains j s)
  unfolding contains add
  contains-add j k s = ground arith

module _ {ℓ} {K V : Type ℓ} (dec : Discrete K) where
  unfoldable pub lookup : K → List (K × V) → Option V
  lookup k [] = none
  lookup k ((j, v) ∷ m) = ite (dec j k) (some v) (lookup k m)

  unfoldable pub insert : K → V → List (K × V) → List (K × V)
  insert k v [] = (k, v) ∷ []
  insert k v ((j, w) ∷ m) = ite (dec j k) ((k, v) ∷ m) ((j, w) ∷ insert k v m)

  -- No key stands twice.
  abbrev pub IsMap : List (K × V) → Type ℓ
  IsMap [] = Unit
  IsMap ((k, v) ∷ m) = (lookup k m ≡ none) × IsMap m

  pub lookup-insert :
      (j k : K) (v : V) (m : List (K × V))
      → lookup j (insert k v m) ≡ ite (dec k j) (some v) (lookup j m)
  unfolding lookup insert
  lookup-insert j k v [] = refl
  lookup-insert j k v ((i, w) ∷ m) = ground (arith, lookup-insert j k v m)

  pub lookup-insert_self : (k : K) (v : V) (m : List (K × V)) → lookup k (insert k v m) ≡ some v
  lookup-insert_self k v m = ground (arith, lookup-insert k k v m)

  pub insert-IsMap : (k : K) (v : V) (m : List (K × V)) → IsMap m → IsMap (insert k v m)
  unfolding insert lookup
  insert-IsMap k v [] h = (refl, tt)
  insert-IsMap k v ((j, w) ∷ m) (fresh, rest) =
      ground (arith, insert-IsMap k v m rest, lookup-insert j k v m)

  pub lookup-update_all :
      (k : K) (f : V → V) (m : List (K × V)) → lookup k (update_all f m) ≡ Option.map f (lookup k m)
  unfolding lookup update_all
  lookup-update_all k f [] = refl
  lookup-update_all k f ((j, v) ∷ m) = ground (arith, lookup-update_all k f m)

  pub update_all-IsMap : (f : V → V) (m : List (K × V)) → IsMap m → IsMap (update_all f m)
  unfolding update_all
  update_all-IsMap f [] h = tt
  update_all-IsMap f ((j, v) ∷ m) (fresh, rest) =
      ground (arith, lookup-update_all j f m, update_all-IsMap f m rest)

  pub lookup-retain :
      (k : K) (p : V → Bool) (m : List (K × V))
      → IsMap m
      → lookup k (retain p m) ≡ keep_if p (lookup k m)
  unfolding lookup retain
  lookup-retain k p [] h = refl
  lookup-retain k p ((j, v) ∷ m) (fresh, rest) = ground (arith, lookup-retain k p m rest)

  pub retain-IsMap : (p : V → Bool) (m : List (K × V)) → IsMap m → IsMap (retain p m)
  unfolding retain
  retain-IsMap p [] h = tt
  retain-IsMap p ((j, v) ∷ m) (fresh, rest) =
      ground (arith, lookup-retain j p m rest, retain-IsMap p m rest)

  pub lookup-append :
      (k : K) (m n : List (K × V)) → lookup k (m ++ n) ≡ or_else (lookup k m) (lookup k n)
  unfolding lookup
  lookup-append k [] n = refl
  lookup-append k ((j, v) ∷ m) n = ground (arith, lookup-append k m n)

  pub snoc-IsMap :
      (k : K) (v : V) (m : List (K × V)) → lookup k m ≡ none → IsMap m → IsMap (m ++ (k, v) ∷ [])
  unfolding lookup
  snoc-IsMap k v [] e h = (refl, tt)
  snoc-IsMap k v ((j, w) ∷ m) e (fresh, rest) =
      ground (arith, snoc-IsMap k v m, lookup-append j m ((k, v) ∷ []))

  -- What holds of each binding that a lookup finds holds of each entry.
  pub All-of_lookup {κ} :
      (P : K × V → Type κ) (m : List (K × V))
      → IsMap m
      → ((k : K) (v : V) → lookup k m ≡ some v → P (k, v))
      → All P m
  unfolding lookup
  All-of_lookup P [] h f = tt
  All-of_lookup P ((j, v) ∷ m) (fresh, rest) f = (
    f j v (ground arith),
    All-of_lookup P m rest (λ k w e. elim (dec j k) [
      | yes p ↦ absurd (none-ne-some w (sym (subst (λ i. lookup i m ≡ none) p fresh) ∙ e))
      | no p ↦ f k w (rw (if_neg (dec j k) p) e)
    ]),
  )

module _ {ℓ κ} {K V : Type ℓ} (P : K × V → Type κ) where
  pub insert-All :
      (dec : Discrete K) (k : K) (v : V) (m : List (K × V))
      → P (k, v)
      → All P m
      → All P (insert dec k v m)
  unfolding insert
  insert-All dec k v [] p h = (p, tt)
  insert-All dec k v ((j, w) ∷ m) p (q, h) = elim (dec j k) [
    | yes e ↦ rw (if_pos (dec j k) e) (p, h)
    | no e ↦ rw (if_neg (dec j k) e) (q, insert-All dec k v m p h)
  ]

  pub update_all-All :
      (f : V → V) (m : List (K × V))
      → ((k : K) (v : V) → P (k, v) → P (k, f v))
      → All P m
      → All P (update_all f m)
  unfolding update_all
  update_all-All f [] g h = tt
  update_all-All f ((k, v) ∷ m) g (p, h) = (g k v p, update_all-All f m g h)

  pub retain-All : (p : V → Bool) (m : List (K × V)) → All P m → All P (retain p m)
  unfolding retain
  retain-All p [] h = tt
  retain-All p ((k, v) ∷ m) (q, h) = cases (retain-All p m h) (p v) refl
    where
      cases : All P (retain p m) → (b : Bool) → p v ≡ b → All P (retain p ((k, v) ∷ m))
      cases r true e = rw (e, retain) (q, r)
      cases r false e = rw (e, retain) r

  pub All-lookup :
      (dec : Discrete K) (k : K) (v : V) (m : List (K × V))
      → lookup dec k m ≡ some v
      → All P m
      → P (k, v)
  unfolding lookup
  All-lookup dec k v [] e h = absurd (none-ne-some v e)
  All-lookup dec k v ((j, w) ∷ m) e (p, h) = elim (dec j k) [
    | yes q ↦
        subst (λ i. P (i, v)) q
          (subst (λ u. P (j, u))
            (some-injective w v (sym (if_pos (dec j k) q (some w) (lookup dec k m)) ∙ e)) p)
    | no q ↦ All-lookup dec k v m (sym (if_neg (dec j k) q (some w) (lookup dec k m)) ∙ e) h
  ]
