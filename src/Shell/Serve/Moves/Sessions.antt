-- ===== src/Shell/Serve/Moves/Sessions.antt =====
-- Whole sessions of parch_utils/shell/src/main.rs whose lines may change the directory.
use parch_testbench.Prelude.{
  ℕ, zero, suc, ◌≤◌, ◌<◌, ◌≡◌, ◌⊎◌, refl, false, List, [], ◌∷◌, ◌++◌, Text, codes, All, length,
  arith, ltb,
}
use parch_testbench.Utf8.{as_bytes, encode_char}
use parch_testbench.ErrorNum.{ErrorNum}
use parch_testbench.Types.OpenMode
use parch_testbench.Machine.{Platform, Machine, M, attempt, ok, ◌>>=◌, ◌>>◌}
use parch_testbench.Machine.Footprint.{Within-attempt}
use parch_testbench.Allocator.Laws.{AllocLaws}
use parch_testbench.Formats.{Formats}
use parch_testbench.FmtIo.{get_line}
use parch_testbench.FmtIo.Console.{Console}
use parch_testbench.FmtIo.Footprint.{print-Within}
use parch_testbench.FmtIo.Lines.{echo, echo_edit, IsTyped, get_line_lem}
use parch_testbench.FmtIo.Opens.{RefusesOpen}
use parch_testbench.FmtIo.Printing.{all_bytes}
use parch_testbench.FmtIo.Runs.{ValueWith, Shows-print, Does-attempt}
use parch_testbench.FmtIo.Specs.{Shown, Behind, Before, Finishes-Of, Then}
use parch_testbench.Shell.Footprint.{StayMay, get_line-Stays}
use parch_testbench.Shell.Serve.{
  ln, println, serve_command, report, serve_line, print_header, main_loop, main,
}
use parch_testbench.Shell.Serve.Clock.{Clock}
use parch_testbench.Shell.Serve.Moves.{Folders, IsHandled, IsCd, IsJourney, IsAnswer, folder_behind}
use parch_testbench.Shell.Serve.Moves.Stays.{
  FinishesIn, Goes-FinishesIn, Does-FinishesIn, Shows-FinishesIn, FinishesIn-Shows,
}
use parch_testbench.Shell.Serve.Moves.Steps.{header-Goes, command-Goes}
use parch_testbench.Shell.Serve.Prompt.{clock_path}
use parch_testbench.Shell.Serve.Replies.{IsQuiet}
use parch_testbench.Shell.Serve.Session.{
  Entry, line_of, session_input, continue_assoc, end-Finishes, farewell, goodbye, Shows-goodbye,
}
use parch_testbench.Shell.Serve.Transcript.{Children, IsProgram}

module _ {P : Platform} {c : Console P} (folders : Folders c) (laws : AllocLaws P)
    (clock : ((e : ErrorNum) × RefusesOpen c clock_path OpenMode.read e) ⊎ Clock c)
    (children : Children c) (f : Formats) where
  open folders use {cwd, enter, moved_by_chdir}

  serve_line-FinishesIn :
      (R : List ℕ → Type 0) (line here : Text) (again : M P (Unit {0})) (inp : List ℕ)
      → (IsQuiet line ⊎ IsProgram line) ⊎ IsCd line
      → FinishesIn c cwd (folder_behind enter here line) R again tt inp
      → FinishesIn c cwd here
          (Then (IsAnswer children enter f here line) R)
          (serve_line f (ok line) again)
          tt
          inp
  serve_line-FinishesIn R line here again inp handled rest s at h =
      rw (← continue_assoc (attempt (serve_command f line) s) (report f) (λ u. again)) (
        Goes-FinishesIn c cwd here (folder_behind enter here line) _ R
          (attempt (serve_command f line) >>= report f) (λ u. again) tt tt inp
          (command-Goes folders laws children f line here handled) rest s at h)

  main_loop-IsJourney :
      (rounds fuel : ℕ) (here : Text) (entries : List Entry) (last : Text)
      → length entries < rounds
      → All (IsHandled fuel) entries
      → length last < fuel
      → All IsTyped last
      → FinishesIn c cwd here
          (IsJourney children enter f here entries last)
          (main_loop f rounds fuel)
          tt
          (session_input entries last)
  unfolding main_loop session_input IsJourney
  main_loop-IsJourney zero fuel here entries last lt handled short goes_on = elim lt [ ]
  main_loop-IsJourney (suc rounds) fuel here [] last lt handled short goes_on =
      Goes-FinishesIn c cwd here here _ _ (print_header f) _ tt tt (as_bytes last)
        (header-Goes folders laws clock f here)
        (λ s at.
          Finishes-Of c (λ out. out ≡ echo_edit [] last)
            (attempt (get_line fuel) >>= (λ line. serve_line f line (main_loop f rounds fuel))) tt
            (as_bytes last) _ refl
            (end-Finishes c f fuel (main_loop f rounds fuel) last short goes_on) s)
  main_loop-IsJourney (suc rounds) fuel here (e ∷ entries) last lt handled short goes_on =
      Goes-FinishesIn c cwd here here _ _ (print_header f) _ tt tt
        (session_input (e ∷ entries) last) (header-Goes folders laws clock f here)
        (Does-FinishesIn c cwd moved_by_chdir here _ (attempt (get_line fuel))
          (λ line. serve_line f line (main_loop f rounds fuel)) (ok (line_of e)) tt
          (as_bytes e.typed ++ encode_char e.ending) (session_input entries last)
          (echo_edit [] e.typed ++ echo e.ending)
          (Within-attempt StayMay (get_line fuel) (get_line-Stays fuel))
          (Does-attempt c (get_line fuel) (line_of e) _ _ (
            get_line_lem c fuel e.ending e.typed handled.0.0.short handled.0.0.goes_on
              handled.0.0.valid handled.0.0.ends))
          (serve_line-FinishesIn _ (line_of e) here (main_loop f rounds fuel)
            (session_input entries last) handled.0.1
            (main_loop-IsJourney rounds fuel (folder_behind enter here (line_of e)) entries last
              (omega (arith, lt)) handled.1 short goes_on)))

  rest-FinishesIn :
      (rounds fuel : ℕ) (here : Text) (entries : List Entry) (last : Text)
      → length entries < rounds
      → All (IsHandled fuel) entries
      → length last < fuel
      → All IsTyped last
      → FinishesIn c cwd here
          (Before (IsJourney children enter f here entries last) (all_bytes (ln farewell ∷ [])))
          (main_loop f rounds fuel >> goodbye)
          0
          (session_input entries last)
  rest-FinishesIn rounds fuel here entries last lt handled short goes_on =
      FinishesIn-Shows c cwd here _ (main_loop f rounds fuel) (λ u. goodbye) tt 0
        (session_input entries last) _
        (main_loop-IsJourney rounds fuel here entries last lt handled short goes_on)
        (Shows-goodbye c)

  -- With at most one argument, with or without the clock device, on a kernel whose working directory
  -- only chdir changes and that runs every program to its exit, where lines are typed that are white
  -- space, begin with `help`, name a program with arguments and at most one redirection, or begin with
  -- `cd `, each ended by `\r` or `\n` and edited by DEL, and the input ends, perhaps in an unfinished
  -- line: with more rounds than lines and more fuel than characters in each, `main` greets, shows for
  -- each line a prompt with the directory of that time, its echo and its answer, reads the input to its
  -- end, says so and returns 0; or it panics for want of memory. After a `cd` line the directory is
  -- where the trimmed path leads, nothing being shown; where it leads nowhere, the directory stays and
  -- the error is shown. After every other line the directory is the same.
  pub main-IsJourney :
      (s : Machine P) (rounds fuel argc : ℕ) (argv : List (List ℕ)) (entries : List Entry)
      (last : Text)
      → argc ≤ 1
      → length entries < rounds
      → All (IsHandled fuel) entries
      → length last < fuel
      → All IsTyped last
      → c.pending s.kernel ≡ session_input entries last
      → ValueWith
          (Shown c
            (Behind (all_bytes (codes "[shell] hello world!\r\n" ∷ [])) (
              Before
                (IsJourney children enter f (cwd s.kernel) entries last)
                (all_bytes (codes "Cannot read further input. Exiting.\r\n" ∷ []))))
            []
            (c.shown s.kernel))
          0
          (main f rounds fuel argc argv s)
  unfolding main
  main-IsJourney s rounds fuel argc argv entries last alone lt handled short goes_on typed =
      let test : ltb 1 argc ≡ false = ground (arith, alone) in
      rw test (
        Shows-FinishesIn c cwd moved_by_chdir (cwd s.kernel) _
          (println (codes "[shell] hello world!")) (λ u. main_loop f rounds fuel >> goodbye) tt 0
          (session_input entries last) _ (print-Within StayMay (λ p n. refl) _)
          (Shows-print c (ln (codes "[shell] hello world!") ∷ []))
          (rest-FinishesIn rounds fuel (cwd s.kernel) entries last lt handled short goes_on) s refl
          typed)
