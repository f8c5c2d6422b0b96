-- ===== src/Strings/Positions.antt =====
-- Where `find` of Strings.antt finds a character.
use parch_testbench.Prelude.{
  ℕ, ◌≡◌, ◌⊎◌, inl, inr, refl, ap, Bool-cases, none, some, [], ◌∷◌, ◌++◌, Text, Lacks, length,
  arith, ◌==◌,
}
use parch_testbench.Strings.{find, strip_char}

pub find-append : (c : ℕ) (e t : Text) → Lacks c e → find c (e ++ c ∷ t) ≡ some (length e)
unfolding find
find-append c [] t h = ground arith
find-append c (x ∷ e) t h = ground (arith, find-append c e t h.1, h.0)

pub find-Lacks : (c : ℕ) (s : Text) → Lacks c s → find c s ≡ none
unfolding find
find-Lacks c [] h = refl
find-Lacks c (x ∷ s) h = ground (arith, find-Lacks c s h.1, h.0)

-- A text lacks the character, or splits at its first occurrence.
pub find-cases :
    (c : ℕ) (s : Text) → Lacks c s ⊎ ((e : Text) × (t : Text) × (s ≡ e ++ c ∷ t) × Lacks c e)
find-cases c [] = inl tt
find-cases c (x ∷ s) = elim (Bool-cases (x == c)) [
  | inl same ↦ inr ([], s, ground arith, tt)
  | inr other ↦ elim (find-cases c s) [
    | inl h ↦ inl (ground arith, h)
    | inr (e, t, eq, h) ↦ inr (x ∷ e, t, ap (λ l. x ∷ l) eq, (ground arith, h))
  ]
]

pub strip_char_self : (c : ℕ) (s : Text) → strip_char c (c ∷ s) ≡ some s
unfolding strip_char
strip_char_self c s = ground arith

-- The rest of a text after its prefix lacks what the text lacks.
pub Lacks-suffix : (c : ℕ) (e t : Text) → Lacks c (e ++ t) → Lacks c t
Lacks-suffix c [] t h = h
Lacks-suffix c (x ∷ e) t h = Lacks-suffix c e t h.1

pub Lacks-prefix : (c : ℕ) (e t : Text) → Lacks c (e ++ t) → Lacks c e
Lacks-prefix c [] t h = tt
Lacks-prefix c (x ∷ e) t h = (h.0, Lacks-prefix c e t h.1)
