-- ===== src/Archive/Decode/Numbers.antt =====
-- Decimal numbers, as Rust prints them, and what the decoder reads in them.
use gossip_observer.Archive.Decode.{parse_digits, drop_plus, bounded, parse_unsigned, intra_delim}
use gossip_observer.Prelude.{
  ℕ, zero, suc, ◌+◌, ◌-◌, ◌*◌, ◌/◌, ◌%◌, ◌^◌, ◌≤◌, ◌<◌, ◌≡◌, refl, Bool, ◌&&◌, ap, ◌∙◌, true, false,
  [], ◌∷◌, Option, none, some, ltb, leb, if◌then◌else◌, arith, Bool-cases, inl, inr, sym,
}
use gossip_observer.Prelude.Split.{FreeOf}
use gossip_observer.Prelude.Text.{Text, codes, Text-discrete}

-- The digits of `n` before `after`, on fuel.
unfoldable pub digits : ℕ → ℕ → Text → Text
digits zero n after = (48 + n % 10) ∷ after
digits (suc fuel) n after =
    let rest = digits fuel (n / 10) ((48 + n % 10) ∷ after) in
    if ltb n 10 then (48 + n) ∷ after else rest

-- A number has at most as many digits as it counts.
abbrev pub print_number : ℕ → Text
print_number n = digits n n []

parse_one :
    (a d : ℕ) (after : Text)
    → d < 10
    → parse_digits a ((48 + d) ∷ after) ≡ parse_digits (a * 10 + d) after
unfolding parse_digits
parse_one a d after h =
    at_test (leb 48 (48 + d) && leb (48 + d) 57) (ground arith)
    ∙ ap (λ k. parse_digits (a * 10 + k) after) (omega arith)
  where
    at_test :
        (b : Bool)
        → b ≡ true
        → ◌≡◌ {A = Option ℕ}
            (elim b [ true ↦ parse_digits (a * 10 + (48 + d - 48)) after | false ↦ none ])
            (parse_digits (a * 10 + (48 + d - 48)) after)
    at_test true e = refl
    at_test false e = absurd (ground arith)

pub parse_digits-digits :
    (fuel n : ℕ) (after : Text)
    → n ≤ fuel
    → parse_digits 0 (digits fuel n after) ≡ parse_digits n after
unfolding digits
parse_digits-digits zero n after h =
    parse_one 0 (n % 10) after (omega arith) ∙ ap (λ k. parse_digits k after) (omega (arith, h))
parse_digits-digits (suc fuel) n after h = elim (Bool-cases (ltb n 10)) [
  | inl e ↦ rw e (parse_one 0 n after (ground arith) ∙ ap (λ k. parse_digits k after) (omega arith))
  | inr e ↦ rw e (
      parse_digits-digits fuel (n / 10) ((48 + n % 10) ∷ after) (ground arith)
      ∙ parse_one (n / 10) (n % 10) after (omega arith)
      ∙ ap (λ k. parse_digits k after) (omega arith))
]

-- The first character is a digit.
pub digits-cons :
    (fuel n : ℕ) (after : Text) → (d : ℕ) × (t : Text) × (digits fuel n after ≡ (48 + d) ∷ t)
unfolding digits
digits-cons zero n after = (n % 10, after, refl)
digits-cons (suc fuel) n after = elim (Bool-cases (ltb n 10)) [
  | inl e ↦ rw e (n, after, refl)
  | inr e ↦ rw e (digits-cons fuel (n / 10) ((48 + n % 10) ∷ after))
]

digits-FreeOf :
    (fuel n : ℕ) (after : Text)
    → FreeOf intra_delim after
    → FreeOf intra_delim (digits fuel n after)
unfolding digits
digits-FreeOf zero n after h = (ground arith, h)
digits-FreeOf (suc fuel) n after h = elim (Bool-cases (ltb n 10)) [
  | inl e ↦ rw e (ground arith, h)
  | inr e ↦ rw e (digits-FreeOf fuel (n / 10) ((48 + n % 10) ∷ after) (ground arith, h))
]

pub print_number-FreeOf : (n : ℕ) → FreeOf intra_delim (print_number n)
print_number-FreeOf n = digits-FreeOf n n [] tt

no_plus : (d : ℕ) (t : Text) → drop_plus ((48 + d) ∷ t) ≡ (48 + d) ∷ t
no_plus d t =
    elim (Text-discrete ((48 + d) ∷ []) (codes "+"))
      as (λ e. ◌≡◌ {A = Text} (elim e [ yes _ ↦ t | no _ ↦ (48 + d) ∷ t ]) ((48 + d) ∷ t)) [
        | yes p ↦ absurd (different (ap first_code p))
        | no p ↦ refl
      ]
  where
    first_code : Text → ℕ
    first_code [] = 0
    first_code (c ∷ s) = c

    different : (48 + d) ≡ 43 → ⊥
    different e = omega (arith, e)

-- A printed number is read back if it fits in `w` bits, and is refused else.
pub parse_unsigned-print_number :
    (w n : ℕ) → parse_unsigned w (print_number n) ≡ (if ltb n (2 ^ w) then some n else none)
unfolding parse_unsigned parse_digits
parse_unsigned-print_number w n =
    let (d, t, e) = digits-cons n n [] in
    ap (parse_unsigned w) e
    ∙ ap (λ s. elim s [ [] ↦ none | c ∷ t ↦ bounded w (parse_digits 0 (c ∷ t)) ]) (no_plus d t)
    ∙ ap (λ s. bounded w (parse_digits 0 s)) (sym e)
    ∙ ap (bounded w) (parse_digits-digits n n [] (omega arith))
