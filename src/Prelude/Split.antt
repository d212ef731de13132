-- ===== src/Prelude/Split.antt =====
-- `str::split` on one character, and `join`.
use Prim.Native.Nat.{ℕ}
use mathlib.Core.List.{List, [], ◌∷◌, ◌++◌}
use mathlib.Core.Bool.{true, false}
use mathlib.Core.Path.{◌≡◌, refl, ap, ◌∙◌}
use native.Mathlib.Omega.{arith}
use gossip_observer.Prelude.Lists.{All}
use gossip_observer.Prelude.Tests.{◌==◌}
use gossip_observer.Prelude.Text.{Text}

abbrev pub cons_first : ℕ → List Text → List Text
cons_first c [] = (c ∷ []) ∷ []
cons_first c (t ∷ ts) = (c ∷ t) ∷ ts

unfoldable pub split_on : ℕ → Text → List Text
split_on d [] = [] ∷ []
split_on d (c ∷ s) = elim (c == d) [
  | true ↦ [] ∷ split_on d s
  | false ↦ cons_first c (split_on d s)
]

unfoldable pub join : ℕ → List Text → Text
join d [] = []
join d (t ∷ []) = t
join d (t ∷ u ∷ ts) = t ++ d ∷ join d (u ∷ ts)

-- `d` does not stand in the text.
abbrev pub FreeOf : ℕ → Text → Type 0
FreeOf d = All (λ c. (c == d) ≡ false)

self_eq : (d : ℕ) → (d == d) ≡ true
self_eq d = ground arith

split_on-free : (d : ℕ) (t : Text) → FreeOf d t → split_on d t ≡ t ∷ []
unfolding split_on
split_on-free d [] h = refl
split_on-free d (c ∷ t) (h, hs) = rw (h, split_on, split_on-free d t hs) refl

pub split_on-append : (d : ℕ) (t s : Text) → FreeOf d t → split_on d (t ++ d ∷ s) ≡ t ∷ split_on d s
unfolding split_on
split_on-append d [] s h = rw (self_eq d, split_on) refl
split_on-append d (c ∷ t) s (h, hs) = rw (h, split_on, split_on-append d t s hs) refl

-- Texts without the delimiter are split where they were joined.
pub split_on-join :
    (d : ℕ) (t : Text) (ts : List Text)
    → All (FreeOf d) (t ∷ ts)
    → split_on d (join d (t ∷ ts)) ≡ t ∷ ts
unfolding join
split_on-join d t [] (h, hs) = split_on-free d t h
split_on-join d t (u ∷ ts) (h, hs) =
    split_on-append d t (join d (u ∷ ts)) h ∙ ap (λ l. t ∷ l) (split_on-join d u ts hs)
