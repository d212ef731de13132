-- ===== src/Analyze/Stable.antt =====
-- The loop of the `Dump` command that waits until the gossip graph has stopped growing.
use gossip_observer.Prelude.{
  ℕ, zero, suc, ◌+◌, ◌≤◌, ◌<◌, ◌≡◌, refl, ap, sym, dec_lt, ◌∙◌, Bool, true, ◌&&◌, List, [], ◌∷◌,
  ◌++◌, Option, none, some, ltb, ◌==◌, if◌then◌else◌, arith, Bool-cases, inl, inr,
}
use mathlib.Core.Bool.{false≢true}

abbrev pub all_of : (ℕ → Bool) → List ℕ → Bool
all_of p [] = true
all_of p (n ∷ ns) = p n && all_of p ns

-- `pop_front` and `push_back`.
abbrev pub shifted : List ℕ → ℕ → List ℕ
shifted [] n = n ∷ []
shifted (_ ∷ ns) n = ns ++ n ∷ []

-- The five latest node counts are above the minimum and equal to the latest.
unfoldable pub is_stable : ℕ → List ℕ → ℕ → Bool
is_stable min_node_count graph_size node_count =
    all_of (λ n. ltb min_node_count n) graph_size && all_of (λ n. n == node_count) graph_size

abbrev pub min_node_count : ℕ
min_node_count = 11000

-- `counts i` is the number of nodes at check `i`. The result is the number of checks that were made.
module _ (counts : ℕ → ℕ) where
  unfoldable pub wait_stable : ℕ → ℕ → List ℕ → ℕ → Option ℕ
  wait_stable zero i graph_size node_count = none
  wait_stable (suc fuel) i graph_size node_count =
      let rest = wait_stable fuel (suc i) (shifted graph_size (counts i)) (counts i) in
      if is_stable min_node_count graph_size node_count then some i else rest

  unfoldable pub dump_wait : ℕ → Option ℕ
  dump_wait fuel = wait_stable fuel 0 (0 ∷ 0 ∷ 0 ∷ 0 ∷ 0 ∷ []) 0

  -- What was pushed five checks before `k`: a zero of the start, or a count.
  abbrev cell : ℕ → ℕ
  cell (suc (suc (suc (suc (suc k))))) = counts k
  cell _ = 0

  abbrev window : ℕ → List ℕ
  window i =
      cell i
      ∷ cell (suc i)
      ∷ cell (suc (suc i))
      ∷ cell (suc (suc (suc i)))
      ∷ cell (suc (suc (suc (suc i))))
      ∷ []

  -- Five counts, the last before check `i`, are equal and above the minimum.
  pub record IsSettled (i : ℕ) : Type 0 where
    pub first : ℕ
    pub last_five : i ≡ first + 5
    pub enough : min_node_count < counts first
    pub same : (j : ℕ) → j < 5 → counts (first + j) ≡ counts first

  same_five :
      (i : ℕ)
      → counts (suc i) ≡ counts i
      → counts (suc (suc i)) ≡ counts i
      → counts (suc (suc (suc i))) ≡ counts i
      → counts (suc (suc (suc (suc i)))) ≡ counts i
      → (j : ℕ) → j < 5
      → counts (i + j) ≡ counts i
  same_five i a b c d zero p = ap counts (omega arith)
  same_five i a b c d (suc zero) p = ap counts (omega arith) ∙ a
  same_five i a b c d (suc (suc zero)) p = ap counts (omega arith) ∙ b
  same_five i a b c d (suc (suc (suc zero))) p = ap counts (omega arith) ∙ c
  same_five i a b c d (suc (suc (suc (suc zero)))) p = ap counts (omega arith) ∙ d
  same_five i a b c d (suc (suc (suc (suc (suc j))))) p = absurd (omega arith)

  stable-IsSettled :
      (i : ℕ)
      → is_stable min_node_count (window i) (cell (suc (suc (suc (suc i))))) ≡ true
      → IsSettled i
  unfolding is_stable
  stable-IsSettled zero e = cc
  stable-IsSettled (suc zero) e = cc
  stable-IsSettled (suc (suc zero)) e = cc
  stable-IsSettled (suc (suc (suc zero))) e = cc
  stable-IsSettled (suc (suc (suc (suc zero)))) e = cc
  stable-IsSettled (suc (suc (suc (suc (suc i))))) e = record {
    first = i;
    last_five = omega arith;
    enough = ground arith;
    same = same_five i (ground arith) (ground arith) (ground arith) (ground arith);
  }

  settled-stable :
      (i n : ℕ)
      → min_node_count < n
      → ((k : ℕ) → i ≤ k → counts k ≡ n)
      → is_stable min_node_count
          (window (suc (suc (suc (suc (suc i))))))
          (counts (suc (suc (suc (suc i)))))
        ≡ true
  unfolding is_stable
  settled-stable i n p h =
      let a = h i (omega arith) in
      let b = h (suc i) (omega arith) in
      let c = h (suc (suc i)) (omega arith) in
      let d = h (suc (suc (suc i))) (omega arith) in
      let e = h (suc (suc (suc (suc i)))) (omega arith) in ground arith

  late_stable :
      (i m n : ℕ)
      → min_node_count < n
      → ((k : ℕ) → m ≤ k → counts k ≡ n)
      → m + 5 ≤ i
      → is_stable min_node_count (window i) (cell (suc (suc (suc (suc i))))) ≡ true
  late_stable (suc (suc (suc (suc (suc i))))) m n p h q =
      settled-stable i n p (λ k r. h k (omega arith))
  late_stable zero m n p h q = absurd (omega arith)
  late_stable (suc zero) m n p h q = absurd (omega arith)
  late_stable (suc (suc zero)) m n p h q = absurd (omega arith)
  late_stable (suc (suc (suc zero))) m n p h q = absurd (omega arith)
  late_stable (suc (suc (suc (suc zero)))) m n p h q = absurd (omega arith)

  -- A run from check `i` ends settled, at most at check `bound`.
  abbrev Ends : ℕ → Option ℕ → Type 0
  Ends bound o = (i : ℕ) × (o ≡ some i) × (i ≤ bound) × IsSettled i

  wait-Ends :
      (m n : ℕ)
      → min_node_count < n
      → ((k : ℕ) → m ≤ k → counts k ≡ n)
      → (fuel i : ℕ) → m + 5 < i + fuel
      → i ≤ m + 5
      → Ends (m + 5) (wait_stable fuel i (window i) (cell (suc (suc (suc (suc i))))))
  unfolding wait_stable
  wait-Ends m n p h zero i q r = absurd (omega arith)
  wait-Ends m n p h (suc fuel) i q r =
      elim (Bool-cases (is_stable min_node_count (window i) (cell (suc (suc (suc (suc i))))))) [
        | inl e ↦ rw e (i, refl, r, stable-IsSettled i e)
        | inr e ↦ rw e (
            wait-Ends m n p h fuel (suc i) (omega arith) (elim (dec_lt i (m + 5)) [
              | yes l ↦ l
              | no l ↦ absurd (false≢true (sym e ∙ late_stable i m n p h (omega arith)))
            ]))
      ]

  -- If from some check on the node count stays the same and is above 11000, then the wait ends, at
  -- most five checks later, and with this much fuel it does not run out. When it ends, the five
  -- latest counts are the same and above 11000.
  pub dump_wait_ends :
      (m n : ℕ)
      → min_node_count < n
      → ((k : ℕ) → m ≤ k → counts k ≡ n)
      → (i : ℕ) × (dump_wait (m + 6) ≡ some i) × (i ≤ m + 5) × IsSettled i
  unfolding dump_wait
  dump_wait_ends m n p h = wait-Ends m n p h (m + 6) 0 (omega arith) (omega arith)
