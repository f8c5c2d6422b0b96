-- ===== src/Shell/Serve/Replies.antt =====
-- What `serve_command` of parch_utils/shell/src/main.rs shows for lines that run no program.
use parch_testbench.Prelude.{
  ℕ, ◌≡◌, ◌⊎◌, refl, sym, true, false, Bool-cases, inl, inr, List, [], ◌∷◌, map, append-nil,
  append_assoc, Text, codes, arith, ◌==◌, if◌then◌else◌,
}
use parch_testbench.Utf8.{as_bytes}
use parch_testbench.ErrorNum.{enoexec}
use parch_testbench.ErrorNum.Debug.{debug}
use parch_testbench.Strings.{starts_with, is_whitespace}
use parch_testbench.Machine.{Platform, M, attempt, ok, err, ◌>>=◌, ◌>>◌}
use parch_testbench.Formats.{Formats}
use parch_testbench.FmtIo.Console.{Console}
use parch_testbench.FmtIo.Printing.{all_bytes}
use parch_testbench.FmtIo.Runs.{
  Shows, Shows-bind, Shows-pure, Shows-print, Shows-cast, Shows-attempt, Refuses-attempt,
}
use parch_testbench.Shell.Serve.{ln, println, serve_help, serve_command, report}
use parch_testbench.Shell.Serve.Blank.{IsBlank, serve_command_blank, starts_with-IsBlank}

abbrev help_title : Text
help_title = codes "Built-in commands:"

abbrev help_lines : List Text
help_lines =
    codes "\tcd [dir]\t: change current working directory."
    ∷ codes "\thelp\t: display help message."
    ∷ codes "\tshutdown\t: shutdown the computer."
    ∷ codes "\treboot\t: reboot the computer."
    ∷ codes "\texit\t: exit shell."
    ∷ codes "\nPlease enter built-in commands, or path to elf file to execute."
    ∷ []

-- What `help` shows.
unfoldable pub help_bytes : List ℕ
help_bytes = all_bytes (map ln (help_title ∷ help_lines))

-- What the shell shows for a line that it cannot take for a command.
abbrev pub refusal_bytes : List ℕ
refusal_bytes = all_bytes (codes "Command failed with " ∷ codes "ENOEXEC" ∷ codes ".\r\n" ∷ [])

-- A line of white space, or one that asks for help.
abbrev pub IsQuiet : Text → Type 0
IsQuiet line = (starts_with (codes "help") line ≡ true) ⊎ IsBlank line

abbrev pub reply : Text → List ℕ
reply line = if starts_with (codes "help") line then help_bytes else refusal_bytes

pub help-ne-cd :
    (line : Text) → starts_with (codes "help") line ≡ true → starts_with (codes "cd ") line ≡ false
unfolding starts_with
help-ne-cd [] h = refl
help-ne-cd (x ∷ line) h = elim (Bool-cases (x == b'h')) [
  | inl same ↦ ground (arith, same)
  | inr other ↦ let no : false ≡ true = rw other at h in absurd (cc no)
]

module _ {P : Platform} (c : Console P) where
  say : Text → List Text → M P (Unit {0})
  say t [] = println t
  say t (u ∷ rest) = println t >> say u rest

  Shows-say :
      (t : Text) (rest : List Text) → Shows c (say t rest) tt (all_bytes (map ln (t ∷ rest)))
  unfolding say all_bytes
  Shows-say t [] = Shows-print c (ln t ∷ [])
  Shows-say t (u ∷ rest) =
      Shows-cast c (println t >> say u rest) tt
        (append_assoc (as_bytes (ln t)) [] (all_bytes (map ln (u ∷ rest))))
        (Shows-bind c (println t) (λ _. say u rest) tt tt _ _ (Shows-print c (ln t ∷ []))
          (Shows-say u rest))

  Shows-help : (line : Text) → Shows c (serve_help line) tt help_bytes
  unfolding serve_help help_bytes say
  Shows-help line = Shows-say help_title help_lines

  -- The command and the report of its error show the reply.
  pub Shows-reply :
      (f : Formats) (line : Text)
      → IsQuiet line
      → Shows c (attempt (serve_command f line) >>= report f) tt (reply line)
  unfolding is_whitespace
  Shows-reply f line (inl help) = rw help (
      Shows-cast c (attempt (serve_command f line) >>= report f) tt (append-nil help_bytes) (
        Shows-bind c (attempt (serve_command f line)) (report f) (ok tt) tt help_bytes []
          (Shows-attempt c (serve_command f line) tt help_bytes
            (unfold serve_command in rw (help-ne-cd line help, help) (Shows-help line)))
          (Shows-pure c tt)))
  Shows-reply f line (inr blank) = rw (starts_with-IsBlank b'h' (codes "elp") line refl blank) (
      Shows-bind c (attempt (serve_command f line)) (report f) (err enoexec) tt [] refusal_bytes
        (Refuses-attempt c (serve_command f line) enoexec [] (λ s.
          inl (s, serve_command_blank f s line blank, (refl, sym (append-nil (c.shown s.kernel))))))
        (unfold debug in
          Shows-print c (codes "Command failed with " ∷ codes "ENOEXEC" ∷ ln (codes ".") ∷ [])))
