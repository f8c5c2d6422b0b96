-- ===== src/Samples/Transcripts.antt =====
-- The theorems on sessions of the shell that run a program, at the machine with one file.
use parch_testbench.Prelude.{◌≡◌, refl, sym, inl, inr, true, All, List, [], ◌∷◌, ◌++◌, codes, arith}
use parch_testbench.Utf8.{as_bytes, encode_char}
use parch_testbench.ErrorNum.{enoent}
use parch_testbench.Strings.{starts_with}
use parch_testbench.FmtIo.Lines.{edit}
use parch_testbench.FmtIo.Leaves.{Leaves}
use parch_testbench.FmtIo.Runs.{ValueWith}
use parch_testbench.FmtIo.Specs.{Behind, Shown}
use parch_testbench.Shell.Command.Words.{render, none_given}
use parch_testbench.Shell.Serve
use parch_testbench.FmtIo.Printing.{all_bytes}
use parch_testbench.Shell.Serve.Exits.{IsLeaving, leaving_input, main-Leaves}
use parch_testbench.Shell.Serve.Lines.{IsExternal}
use parch_testbench.Shell.Serve.Clock.{Header, IsPrompt}
use parch_testbench.Shell.Serve.Session.{Entry, IsEntered, line_of, session_input}
use parch_testbench.Shell.Serve.Transcript.{IsProgram, IsTaken, IsSession, main-IsSession}
use parch_testbench.Samples.{blank}
use parch_testbench.Samples.Children.{slash_s, dash_l}
use parch_testbench.Samples.Disk.{disk_laws, disk_console, disk-Children, at_terminal, script}
use parch_testbench.Samples.Sessions.{
  only_space, root, clock_refused, letters, served_space, space-IsQuiet,
}

abbrev runs_s : Entry
runs_s = record { typed = codes "/s -l"; ending = b'\n' }

abbrev pub entries : List Entry
entries = runs_s ∷ only_space ∷ []

pub script_bytes : session_input entries (codes "l") ≡ script
unfolding session_input as_bytes encode_char
script_bytes = refl

external : IsExternal (line_of runs_s)
unfolding starts_with edit
external = record {
  no_cd = refl;
  no_help = refl;
  no_exit = refl;
  no_shutdown = refl;
  no_reboot = refl;
}

entered : IsEntered 9 runs_s
entered = record {
  short = omega arith;
  goes_on = letters (codes "/s -l") (omega arith);
  valid = refl;
  ends = refl;
}

rendered : line_of runs_s ≡ render (codes "/s" ∷ codes "-l" ∷ []) none_given
unfolding render edit
rendered = refl

program : IsProgram (line_of runs_s)
program = (codes "/s", codes "-l" ∷ [], none_given, (slash_s, (dash_l, tt)), tt, rendered, external)

pub taken : All (IsTaken 9) entries
taken = ((entered, inr program), ((served_space, inl space-IsQuiet), tt))

abbrev header : Header disk_console
header = record { place = root; clock = inl (enoent, clock_refused) }

main-IsSession_example :
    ValueWith
      (Shown disk_console
        (IsSession disk-Children blank (IsPrompt blank root) entries (codes "l"))
        []
        [])
      0
      (Serve.main blank 3 9 1 (as_bytes (codes "sh") ∷ []) (at_terminal script))
main-IsSession_example =
    main-IsSession disk_laws header disk-Children blank (at_terminal script) 3 9 1
      (as_bytes (codes "sh") ∷ []) entries (codes "l") (omega arith) (omega arith) taken
      (omega arith) (letters (codes "l") (omega arith)) (sym script_bytes)

abbrev leaves_now : Entry
leaves_now = record { typed = codes "exit"; ending = b'\r' }

leaving_bytes :
    leaving_input entries leaves_now (codes "ls") ≡ codes "/s -l\n \nexit" ++ 13 ∷ codes "ls"
unfolding leaving_input as_bytes encode_char
leaving_bytes = refl

leaves-IsEntered : IsEntered 9 leaves_now
leaves-IsEntered = record {
  short = omega arith;
  goes_on = letters (codes "exit") (omega arith);
  valid = refl;
  ends = refl;
}

says_exit : starts_with (codes "exit") (line_of leaves_now) ≡ true
unfolding starts_with edit
says_exit = refl

main-Leaves_example :
    Leaves disk_console
      (λ k. k)
      (Shown disk_console
        (Behind
          (all_bytes (codes "[shell] hello world!\r\n" ∷ []))
          (IsLeaving disk-Children blank (IsPrompt blank root) entries leaves_now))
        (codes "ls")
        [])
      (Serve.main blank 3 9 1
        (as_bytes (codes "sh") ∷ [])
        (at_terminal (codes "/s -l\n \nexit" ++ 13 ∷ codes "ls")))
main-Leaves_example =
    main-Leaves disk_console (λ k. k) blank (λ m k. refl) disk_laws header disk-Children
      (at_terminal (codes "/s -l\n \nexit" ++ 13 ∷ codes "ls")) 3 9 1 (as_bytes (codes "sh") ∷ [])
      entries leaves_now (codes "ls") (omega arith) (omega arith) taken leaves-IsEntered says_exit
      (sym leaving_bytes)
