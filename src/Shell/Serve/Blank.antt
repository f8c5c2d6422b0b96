-- ===== src/Shell/Serve/Blank.antt =====
-- `serve_command` of parch_utils/shell/src/main.rs at lines of white space.
use parch_testbench.Prelude.{
  ℕ, ◌≡◌, ◌∙◌, refl, false, true, Bool-cases, inl, inr, [], ◌∷◌, Text, codes, Lacks, All, ◌==◌,
  ==_iff,
}
use parch_testbench.Strings.{
  starts_with, is_whitespace, trim, trim_start, trim_end, split, non_empty,
}
use parch_testbench.Strings.Positions.{find-Lacks}
use parch_testbench.ErrorNum.{enoexec}
use parch_testbench.Formats.{Formats}
use parch_testbench.Machine.{Platform, Machine, error}
use parch_testbench.Shell.Command.{parse, parse_err, parse_simple, redirections}
use parch_testbench.Shell.Command.Pipes.{parse-Lacks}
use parch_testbench.Shell.Serve.{serve_exec, serve_command}

abbrev pub IsBlank : Text → Type 0
IsBlank s = All (λ c. is_whitespace c ≡ true) s

IsBlank-Lacks : (c : ℕ) (s : Text) → is_whitespace c ≡ false → IsBlank s → Lacks c s
IsBlank-Lacks c [] h blank = tt
IsBlank-Lacks c (x ∷ s) h blank = (
  λ same. let never : false ≡ true = rw (same, h) at blank.0 in cc never,
  IsBlank-Lacks c s h blank.1,
)

trim_start-IsBlank : (s : Text) → IsBlank s → trim_start s ≡ []
unfolding trim_start
trim_start-IsBlank [] blank = refl
trim_start-IsBlank (x ∷ s) blank = rw blank.0 (trim_start-IsBlank s blank.1)

trim-IsBlank : (s : Text) → IsBlank s → trim s ≡ []
unfolding trim trim_end
trim-IsBlank s blank = rw (trim_start-IsBlank s blank) refl

parse-IsBlank : (s : Text) → IsBlank s → parse s ≡ parse_err
unfolding parse_simple redirections split non_empty is_whitespace
parse-IsBlank s blank =
    parse-Lacks s (IsBlank-Lacks b'|' s refl blank)
    ∙ rw
        (
          find-Lacks b'<' s (IsBlank-Lacks b'<' s refl blank),
          find-Lacks b'>' s (IsBlank-Lacks b'>' s refl blank),
        )
        (rw (trim-IsBlank s blank) refl)

pub starts_with-IsBlank :
    (c : ℕ) (word s : Text) → is_whitespace c ≡ false → IsBlank s → starts_with (c ∷ word) s ≡ false
unfolding starts_with
starts_with-IsBlank c word [] h blank = refl
starts_with-IsBlank c word (x ∷ s) h blank = elim (Bool-cases (x == c)) [
  | inl same ↦
      let never : false ≡ true = rw ((==_iff x c).0 same, h) at blank.0 in absurd (cc never)
  | inr differ ↦ rw differ refl
]

module _ {P : Platform} (f : Formats) (s : Machine P) where
  -- An empty line, or one of white space, is taken for a command: it fails with `ENOEXEC`, and the
  -- machine stays as it is.
  pub serve_command_blank : (line : Text) → IsBlank line → serve_command f line s ≡ error enoexec s
  unfolding serve_command serve_exec is_whitespace
  serve_command_blank line blank =
      rw
        (
          starts_with-IsBlank b'c' (codes "d ") line refl blank,
          starts_with-IsBlank b'h' (codes "elp") line refl blank,
          starts_with-IsBlank b'e' (codes "xit") line refl blank,
        )
        (rw
          (
            starts_with-IsBlank b's' (codes "hutdown") line refl blank,
            starts_with-IsBlank b'r' (codes "eboot") line refl blank,
            parse-IsBlank line blank,
          )
          refl)
