-- ===== src/Upload/Chunks.antt =====
-- `slice::chunks`.
use gossip_observer.Prelude.{
  ℕ, zero, suc, ◌-◌, ◌≤◌, ◌<◌, ◌≡◌, refl, ap, ◌∙◌, List, [], ◌∷◌, ◌++◌, take, drop,
  take-append-drop, length, arith, All,
}

module _ {ℓ} {A : Type ℓ} where
  abbrev pub concat : List (List A) → List A
  concat [] = []
  concat (c ∷ cs) = c ++ concat cs

  -- The fuel bounds the number of chunks.
  unfoldable pub chunks_within : ℕ → ℕ → List A → List (List A)
  chunks_within zero n as' = []
  chunks_within (suc fuel) n [] = []
  chunks_within (suc fuel) n (a ∷ as') = take n (a ∷ as') ∷ chunks_within fuel n (drop n (a ∷ as'))

  -- There are no more chunks than elements.
  unfoldable pub chunks : ℕ → List A → List (List A)
  chunks n as' = chunks_within (length as') n as'

  length-drop : (n : ℕ) (as' : List A) → length (drop n as') ≡ length as' - n
  length-drop zero as' = omega arith
  length-drop (suc n) [] = omega arith
  length-drop (suc n) (a ∷ as') = omega (arith, length-drop n as')

  length-take : (n : ℕ) (as' : List A) → length (take n as') ≤ n
  length-take zero as' = omega arith
  length-take (suc n) [] = omega arith
  length-take (suc n) (a ∷ as') = omega (arith, length-take n as')

  chunks_within_enough :
      (fuel n : ℕ) (as' : List A)
      → 0 < n
      → length as' ≤ fuel
      → (concat (chunks_within fuel n as') ≡ as')
        × All (λ c. length c ≤ n) (chunks_within fuel n as')
  unfolding chunks_within
  chunks_within_enough zero n [] p h = (refl, tt)
  chunks_within_enough zero n (a ∷ as') p h = absurd (omega arith)
  chunks_within_enough (suc fuel) n [] p h = (refl, tt)
  chunks_within_enough (suc fuel) n (a ∷ as') p h =
      let (e, s) =
        chunks_within_enough fuel n (drop n (a ∷ as')) p (omega (arith, length-drop n (a ∷ as'))) in
      (
        ap (λ l. take n (a ∷ as') ++ l) e ∙ take-append-drop n (a ∷ as'),
        (length-take n (a ∷ as'), s),
      )

  pub chunks_lem :
      (n : ℕ) (as' : List A)
      → 0 < n
      → (concat (chunks n as') ≡ as') × All (λ c. length c ≤ n) (chunks n as')
  unfolding chunks
  chunks_lem n as' p = chunks_within_enough (length as') n as' p (omega arith)
