-- ===== src/Prelude/Text.antt =====
-- Texts as lists of code points, with a decidable equality that computes.
use Prim.Native.Char.{code}
use Prim.Native.Nat.{ℕ}
use Prim.Native.String.{String}
use mathlib.Core.List.{List, [], ◌∷◌}
use gossip_observer.Prelude.Tests.{ltb, ◌==◌}
use mathlib.Core.Bool.{Bool, true, false, ◌&&◌, ◌||◌}
use mathlib.Core.Path.{◌≡◌, refl}
use native.Mathlib.Decide.{ℕ_discrete}

abbrev pub Text : Type 0
Text = List ℕ

abbrev pub codes : String → Text
codes String.[] = []
codes (String.◌∷◌ c s) = code c ∷ codes s

cons_dec : (c d : ℕ) (s t : Text) → Dec (c ≡ d) → Dec (s ≡ t) → Dec (◌≡◌ {A = Text} (c ∷ s) (d ∷ t))
cons_dec c d s t (yes p) (yes q) = yes (cc)
cons_dec c d s t (no p) q = no (λ e. p (cc))
cons_dec c d s t (yes p) (no q) = no (λ e. q (cc))

unfoldable pub Text-discrete : Discrete Text
unfolding cons_dec ℕ_discrete
Text-discrete [] [] = yes refl
Text-discrete [] (d ∷ t) = no (λ e. cc)
Text-discrete (c ∷ s) [] = no (λ e. cc)
Text-discrete (c ∷ s) (d ∷ t) = cons_dec c d s t (ℕ_discrete c d) (Text-discrete s t)

-- `str::cmp`: bytes and code points are ordered alike.
unfoldable pub text_leb : Text → Text → Bool
text_leb [] t = true
text_leb (c ∷ s) [] = false
text_leb (c ∷ s) (d ∷ t) = ltb c d || (c == d && text_leb s t)
