-- ===== src/Strings/Trim.antt =====
-- What `trim` of Strings.antt keeps and drops.
use parch_testbench.Prelude.{
  ◌≢◌, refl, ap, ◌++◌, ℕ, ◌≡◌, refl, false, Bool-cases, [], ◌∷◌, Text, All, inl, inr,
}
use parch_testbench.Strings.{is_whitespace, trim_start, trim_end, push_kept, trim}

module _ {κ} (P : ℕ → Type κ) where
  All-trim_start : (s : Text) → All P s → All P (trim_start s)
  unfolding trim_start
  All-trim_start [] h = tt
  All-trim_start (x ∷ s) h = elim (Bool-cases (is_whitespace x)) [
    | inl e ↦ rw e (All-trim_start s h.1)
    | inr e ↦ rw e h
  ]

  All-push_kept : (x : ℕ) (s : Text) → P x → All P s → All P (push_kept x s)
  All-push_kept x [] hx h = elim (Bool-cases (is_whitespace x)) [
    | inl e ↦ rw e tt
    | inr e ↦ rw e (hx, tt)
  ]
  All-push_kept x (y ∷ s) hx h = (hx, h)

  All-trim_end : (s : Text) → All P s → All P (trim_end s)
  unfolding trim_end
  All-trim_end [] h = tt
  All-trim_end (x ∷ s) h = All-push_kept x (trim_end s) h.0 (All-trim_end s h.1)

  -- Trimming brings in no character.
  pub All-trim : (s : Text) → All P s → All P (trim s)
  unfolding trim
  All-trim s h = unfold trim in All-trim_end (trim_start s) (All-trim_start s h)

pub push_kept_visible : (x : ℕ) (s : Text) → is_whitespace x ≡ false → push_kept x s ≡ x ∷ s
push_kept_visible x [] h = rw h
push_kept_visible x (y ∷ s) h = refl

-- A visible character in front stays in front.
pub trim_visible : (x : ℕ) (s : Text) → is_whitespace x ≡ false → trim (x ∷ s) ≡ x ∷ trim_end s
unfolding trim_start trim_end trim
trim_visible x s h = rw h (push_kept_visible x (trim_end s) h)

-- A text ends visibly if nothing is trimmed from its end.
pub trim_end-append : (s t : Text) → trim_end t ≡ t → t ≢ [] → trim_end (s ++ t) ≡ s ++ t
unfolding trim_end
trim_end-append [] t h n = h
trim_end-append (x ∷ s) t h n =
    rw (trim_end-append s t h n) (push_kept-ne_nil x (s ++ t) (append-ne_nil s t n))
  where
    append-ne_nil : (s t : Text) → t ≢ [] → s ++ t ≢ []
    append-ne_nil [] t n = n
    append-ne_nil (y ∷ s) t n = λ e. cc

    push_kept-ne_nil : (x : ℕ) (s : Text) → s ≢ [] → push_kept x s ≡ x ∷ s
    push_kept-ne_nil x [] n = absurd (n refl)
    push_kept-ne_nil x (y ∷ s) n = refl

pub trim_end_space : (s : Text) → trim_end (s ++ b' ' ∷ []) ≡ trim_end s
unfolding trim_end is_whitespace
trim_end_space [] = refl
trim_end_space (x ∷ s) = ap (push_kept x) (trim_end_space s)

pub trim_end_visible : (s : Text) → All (λ c. is_whitespace c ≡ false) s → trim_end s ≡ s
unfolding trim_end
trim_end_visible [] h = refl
trim_end_visible (x ∷ s) h = rw (trim_end_visible s h.1) (push_kept_visible x s h.0)

pub trim_space : (s : Text) → trim (b' ' ∷ s) ≡ trim s
unfolding trim trim_start is_whitespace
trim_space s = refl
