-- ===== src/Samples/Sessions.antt =====
-- The theorems on whole runs of the programs, at the machine with one file.
use parch_testbench.Prelude.{
  ℕ, ◌-◌, ◌^◌, ◌≤◌, ◌<◌, ◌≡◌, refl, inl, inr, All, [], ◌∷◌, ◌++◌, Text, codes, map, Lacks, arith,
}
use parch_testbench.Utf8.{encode_char, as_bytes}
use parch_testbench.ErrorNum.{enoent}
use parch_testbench.Types.OpenMode
use parch_testbench.Types.OpenMode.{OpenMode}
use parch_testbench.Strings.{starts_with, is_whitespace}
use parch_testbench.Start.{unused}
use parch_testbench.FmtIo.Lines.{edit, IsTyped}
use parch_testbench.FmtIo.Opens.{RefusesOpen, ServesOpen}
use parch_testbench.FmtIo.Printing.{all_bytes}
use parch_testbench.FmtIo.Runs.{ValueAt}
use parch_testbench.Shell.Serve.Prompt.{Place, clock_path}
use parch_testbench.Shell.Serve.Replies.{IsQuiet}
use parch_testbench.Shell.Serve.Session.{Entry, IsEntered, line_of}
use parch_testbench.Cat
use parch_testbench.Cat.Whole.{content_text, open_failed_text, main_shows, main_missing}
use parch_testbench.Mkdir
use parch_testbench.Mkdir.Refused.{PanicsAs, main_refused}
use parch_testbench.Samples.{blank, read_path_lem}
use parch_testbench.Samples.Disk.{disk_laws, disk_console, at_terminal, stored, reads_file}

pub f_bytes : as_bytes (codes "f") ≡ codes "f"
unfolding as_bytes encode_char
f_bytes = refl

g_bytes : as_bytes (codes "/g") ≡ codes "/g"
unfolding as_bytes encode_char
g_bytes = refl

pub f_text : Lacks 0 (as_bytes (codes "f"))
f_text = rw f_bytes (omega arith, tt)

g_text : Lacks 0 (as_bytes (codes "/g"))
g_text = rw g_bytes (omega arith, (omega arith, tt))

f_opens : ServesOpen disk_console (codes "f") OpenMode.read 3 (λ k. reads_file.left k ≡ stored)
unfolding reads_file
f_opens p m k string = (
  record k { file = stored },
  rw (read_path_lem m p (codes "f") (omega arith) (rw f_bytes at string)) refl,
  ((refl, refl), refl),
)

g_refused : RefusesOpen disk_console (codes "/g") OpenMode.read enoent
g_refused p m k string =
    (k, rw (read_path_lem m p (codes "/g") (omega arith) (rw g_bytes at string)) refl, (refl, refl))

pub clock_bytes : as_bytes clock_path ≡ clock_path
unfolding as_bytes encode_char
clock_bytes = refl

pub root_bytes : as_bytes (codes "/") ≡ codes "/"
unfolding as_bytes encode_char
root_bytes = refl

pub root : Place disk_console
root = record {
  cwd = codes "/";
  cwd_valid = (refl, tt);
  cwd_fits = rw root_bytes (omega arith);
  gives_cwd = λ p m k. (1, k, rw root_bytes refl, refl, refl);
}

pub clock_refused : RefusesOpen disk_console clock_path OpenMode.read enoent
clock_refused p m k string = (
  k,
  rw (read_path_lem m p clock_path (omega arith) (rw clock_bytes at string)) refl,
  (refl, refl),
)

main_shows_example : ValueAt disk_console 0 [] (all_bytes (content_text blank stored)) (
    Cat.main blank 4 2
      (map as_bytes (codes "cat" ∷ codes "f" ∷ []) ++ unused ∷ [])
      (at_terminal []))
main_shows_example =
    main_shows disk_console disk_laws blank (at_terminal []) 4 3 reads_file stored (codes "cat")
      (codes "f") (unused ∷ []) (refl, tt) f_text f_opens (omega arith)

main_missing_example :
    ValueAt disk_console (2 ^ 64 - 1) [] (all_bytes (open_failed_text blank enoent)) (
      Cat.main blank 4 2
        (map as_bytes (codes "cat" ∷ codes "/g" ∷ []) ++ unused ∷ [])
        (at_terminal []))
main_missing_example =
    main_missing disk_console disk_laws blank (at_terminal []) 4 (codes "cat") (codes "/g")
      (unused ∷ []) enoent (refl, (refl, tt)) g_text g_refused

main_refused_example :
    PanicsAs disk_laws enoent
      (at_terminal []).kernel
      (Mkdir.main 2 (map as_bytes (codes "mkdir" ∷ codes "f" ∷ []) ++ unused ∷ []) (at_terminal []))
main_refused_example =
    main_refused disk_laws (at_terminal []) (codes "mkdir") (codes "f") (unused ∷ []) enoent
      (at_terminal []).kernel (refl, tt) f_text (λ p m string. refl)

-- `h`, `x`, DEL and `elp`.
abbrev pub help_keys : Text
help_keys = codes "hx" ++ 127 ∷ codes "elp"

abbrev pub asks_help : Entry
asks_help = record { typed = help_keys; ending = b'\r' }

abbrev pub only_space : Entry
only_space = record { typed = codes " "; ending = b'\n' }

pub letter : (r : ℕ) → 0x20 ≤ r → r < 0x80 → IsTyped r
letter r lo hi = record { valid = ground arith; goes_on = ground arith }

abbrev pub Ascii : ℕ → Type 0
Ascii r = (0x20 ≤ r) × (r < 0x80)

pub letters : (t : Text) → All Ascii t → All IsTyped t
letters [] h = tt
letters (x ∷ t) h = (letter x h.0.0 h.0.1, letters t h.1)

pub served_help : IsEntered 9 asks_help
served_help = record {
  short = omega arith;
  goes_on = letters help_keys (omega arith);
  valid = refl;
  ends = refl;
}

pub served_space : IsEntered 9 only_space
served_space = record {
  short = omega arith;
  goes_on = letters (codes " ") (omega arith);
  valid = refl;
  ends = refl;
}

pub help-IsQuiet : IsQuiet (line_of asks_help)
unfolding starts_with edit
help-IsQuiet = inl refl

pub space-IsQuiet : IsQuiet (line_of only_space)
unfolding is_whitespace edit
space-IsQuiet = inr (refl, tt)
