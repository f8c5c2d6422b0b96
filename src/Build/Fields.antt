-- ===== src/Build/Fields.antt =====
-- The padded fields of a line that usrlib_rust/build.rs writes.
use parch_testbench.Prelude.{
  ℕ, zero, suc, ◌≡◌, ◌≢◌, ◌∙◌, refl, sym, ap, true, false, [], ◌∷◌, ◌++◌, append-nil, Text, All,
  Lacks, replicate, arith,
}
use parch_testbench.Strings.{is_whitespace, trim, trim_start, trim_end}
use parch_testbench.Strings.Trim.{trim_space, push_kept_visible}
use parch_testbench.Build.{upper, to_ascii_uppercase}

-- Neither white space nor the sign.
abbrev pub IsToken : ℕ → Text → Type 0
IsToken sign = All (λ c. (is_whitespace c ≡ false) × (c ≢ sign))

module _ (sign : ℕ) where
  pub IsToken-Lacks : (w : Text) → IsToken sign w → Lacks sign w
  IsToken-Lacks [] h = tt
  IsToken-Lacks (x ∷ w) h = (h.0.1, IsToken-Lacks w h.1)

  pub IsToken-visible : (w : Text) → IsToken sign w → All (λ c. is_whitespace c ≡ false) w
  IsToken-visible [] h = tt
  IsToken-visible (x ∷ w) h = (h.0.0, IsToken-visible w h.1)

pub upper_visible : (c : ℕ) → is_whitespace c ≡ false → is_whitespace (upper c) ≡ false
unfolding is_whitespace
upper_visible c h = ground arith

pub upper-IsToken : (w : Text) → IsToken b':' w → IsToken b':' (to_ascii_uppercase w)
upper-IsToken [] h = tt
upper-IsToken (x ∷ w) h = ((upper_visible x h.0.0, ground (arith, h.0.1)), upper-IsToken w h.1)

pub trim_end_spaces : (k : ℕ) → trim_end (replicate k b' ') ≡ []
unfolding trim_end is_whitespace
trim_end_spaces zero = refl
trim_end_spaces (suc k) = rw (trim_end_spaces k) refl

pub trim_start_spaces : (k : ℕ) → trim_start (replicate k b' ') ≡ []
unfolding trim_start is_whitespace
trim_start_spaces zero = refl
trim_start_spaces (suc k) = trim_start_spaces k

pub trim_end_padded :
    (k : ℕ) (w : Text) → All (λ c. is_whitespace c ≡ false) w → trim_end (w ++ replicate k b' ') ≡ w
unfolding trim_end
trim_end_padded k [] h = trim_end_spaces k
trim_end_padded k (x ∷ w) h = rw (trim_end_padded k w h.1) (push_kept_visible x w h.0)

pub trim_right :
    (k : ℕ) (w : Text) → All (λ c. is_whitespace c ≡ false) w → trim (w ++ replicate k b' ') ≡ w
unfolding trim
trim_right k [] h = rw (trim_start_spaces k) (unfold trim_end in refl)
trim_right k (x ∷ w) h = unfold trim_start in rw h.0 (trim_end_padded k (x ∷ w) h)

pub trim_left :
    (k : ℕ) (w : Text) → All (λ c. is_whitespace c ≡ false) w → trim (replicate k b' ' ++ w) ≡ w
trim_left zero w h = ap trim (sym (append-nil w)) ∙ trim_right 0 w h
trim_left (suc k) w h = trim_space (replicate k b' ' ++ w) ∙ trim_left k w h

pub Lacks-spaces : (c k : ℕ) → c ≢ b' ' → Lacks c (replicate k b' ')
Lacks-spaces c zero h = tt
Lacks-spaces c (suc k) h = (λ e. h (sym e), Lacks-spaces c k h)

pub visible-Lacks : (w : Text) → All (λ c. is_whitespace c ≡ false) w → Lacks b'\n' w
unfolding is_whitespace
visible-Lacks [] h = tt
visible-Lacks (x ∷ w) h = ((λ e. let no : true ≡ false = rw e at h.0 in cc no), visible-Lacks w h.1)
