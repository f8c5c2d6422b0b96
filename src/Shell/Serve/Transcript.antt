-- ===== src/Shell/Serve/Transcript.antt =====
-- Whole sessions of parch_utils/shell/src/main.rs whose lines may run programs, against a transcript
-- that leaves open what the programs show and how they exit.
use parch_testbench.Prelude.{
  ℕ, zero, suc, ◌^◌, ◌≤◌, ◌<◌, ◌≡◌, ◌≢◌, ◌∙◌, refl, ap, ◌⊎◌, inl, inr, false, List, [], ◌∷◌, ◌++◌,
  append_assoc, Text, codes, All, length, arith, ltb,
}
use parch_testbench.Utf8.{as_bytes, encode_char}
use parch_testbench.Machine.{Platform, Attempt, Machine, back, M, attempt, ok, ◌>>=◌, ◌>>◌}
use parch_testbench.Machine.Blocks.{Memory, store, le_bytes}
use parch_testbench.Allocator.Laws.{AllocLaws}
use parch_testbench.Formats.{Formats}
use parch_testbench.FmtIo.{get_line}
use parch_testbench.FmtIo.Console.{Console}
use parch_testbench.FmtIo.Lines.{echo, echo_edit, IsTyped, get_line_lem}
use parch_testbench.FmtIo.Printing.{all_bytes}
use parch_testbench.FmtIo.Runs.{ValueWith, Shows-print, Does-attempt}
use parch_testbench.FmtIo.Specs.{
  Shown, ShowsOf, FinishesOf, Shows-Of, Finishes-Of, Then, Behind, Before, ShowsOf-FinishesOf,
  Shows-FinishesOf, Does-FinishesOf, FinishesOf-Shows,
}
use parch_testbench.Shell.Command.Words.{IsWord, Redirect, IsRedirect, render}
use parch_testbench.Shell.Execute.Child.{fork_call, waitpid_call}
use parch_testbench.Shell.Serve.{
  ln, println, serve_command, report, serve_line, print_header, main_loop, main,
}
use parch_testbench.Shell.Serve.Lines.{IsExternal}
use parch_testbench.Shell.Serve.Programs.{exit_report, serve_command_runs}
use parch_testbench.Shell.Serve.Replies.{IsQuiet, reply, Shows-reply}
use parch_testbench.Shell.Serve.Clock.{Header, IsPrompt, print_header-IsPrompt}
use parch_testbench.Shell.Serve.Session.{
  Entry, line_of, IsEntered, session_input, continue_assoc, end-Finishes, farewell, goodbye,
  Shows-goodbye,
}

-- A line that names a program with arguments and at most one redirection, and no built-in command.
abbrev pub IsProgram : Text → Type 0
IsProgram line =
    (w : Text) × (ws : List Text) × (r : Redirect) × All IsWord (w ∷ ws)
    × IsRedirect r
    × (line ≡ render (w ∷ ws) r)
    × IsExternal line

abbrev pub IsTaken : ℕ → Entry → Type 0
IsTaken fuel e = IsEntered fuel e × (IsQuiet (line_of e) ⊎ IsProgram (line_of e))

-- A console whose kernel can fork in every state; the child shows what that state determines, reads
-- none of the typed bytes and exits with the code that the state determines.
pub record Children {P : Platform} (c : Console P) : Type 0 where
  pub exit_code : Memory → P.Kernel → ℕ
  pub printed : Memory → P.Kernel → List ℕ
  pub forks :
      (m : Memory) (k : P.Kernel)
      → (pid : ℕ) × (ret : ℕ) × (m1 : Memory) × (k1 : P.Kernel) × (k2 : P.Kernel) × (P.ecall
            fork_call m k
          ≡ back pid 0 m1 k1)
        × (pid ≢ 0)
        × (exit_code m k < 2 ^ 64)
        × ((p : ℕ) (m' : Memory)
            → P.ecall (waitpid_call pid p) m' k1
              ≡ back ret 0 (store m' p (le_bytes 8 (exit_code m k))) k2)
        × (c.pending k2 ≡ c.pending k)
        × (c.shown k2 ≡ c.shown k ++ printed m k)

-- What the terminal may show for a line: the fixed reply, or, for a child that was forked in some
-- state, what that child shows and the report of the code with which that child exits.
abbrev pub IsReply : {P : Platform} {c : Console P} → Children c → Formats → Text → List ℕ → Type 0
IsReply {P} children f line out =
    (IsQuiet line × (out ≡ reply line))
    ⊎ (IsProgram line
        × (m : Memory) × (k : P.Kernel) × (out
            ≡ children.printed m k ++ all_bytes (exit_report f (children.exit_code m k))))

-- What the terminal may show of a session: the prompt, the echo and a reply for each entry, then the
-- prompt and the echo of what is typed last.
unfoldable pub IsTranscript :
    {P : Platform} {c : Console P}
    → Children c
    → Formats
    → (List ℕ → Type 0)
    → List Entry
    → Text
    → List ℕ
    → Type 0
IsTranscript children f prompt [] last = Then prompt (λ out. out ≡ echo_edit [] last)
IsTranscript children f prompt (e ∷ entries) last = Then prompt (
    Behind (echo_edit [] e.typed ++ echo e.ending)
      (Then (IsReply children f (line_of e)) (IsTranscript children f prompt entries last)))

-- The greeting, a transcript and the farewell.
abbrev pub IsSession :
    {P : Platform} {c : Console P}
    → Children c
    → Formats
    → (List ℕ → Type 0)
    → List Entry
    → Text
    → List ℕ
    → Type 0
IsSession children f prompt entries last =
    Behind (all_bytes (codes "[shell] hello world!\r\n" ∷ [])) (
      Before (IsTranscript children f prompt entries last)
        (all_bytes (codes "Cannot read further input. Exiting.\r\n" ∷ [])))

module _ {P : Platform} {c : Console P} (children : Children c) (f : Formats) where
  Shows-Program :
      (line : Text)
      → IsProgram line
      → ShowsOf c (IsReply children f line) (attempt (serve_command f line) >>= report f) tt
  Shows-Program line (w, ws, r, words, plain, same, external) s =
      let exit_code : ℕ = children.exit_code s.mem s.kernel in
      let printed : List ℕ = children.printed s.mem s.kernel in
      let (pid, ret, m1, k1, k2, forked, child_id, small, waited, left, out) =
        children.forks s.mem s.kernel in
      let (s', run, left', out') =
        serve_command_runs c f s w ws r pid exit_code ret m1 k1 k2 words plain
          (rw (← same) external) child_id small forked waited in
      inl (
        s',
        rw (same, run) refl,
        (
          left' ∙ left,
          (
            printed ++ all_bytes (exit_report f exit_code),
            inr ((w, ws, r, words, plain, same, external), s.mem, s.kernel, refl),
            out'
                ∙ (ap (λ l. l ++ all_bytes (exit_report f exit_code)) out
                    ∙ append_assoc (c.shown s.kernel) printed
                        (all_bytes (exit_report f exit_code))),
          ),
        ),
      )

  pub Shows-taken :
      (line : Text)
      → IsQuiet line ⊎ IsProgram line
      → ShowsOf c (IsReply children f line) (attempt (serve_command f line) >>= report f) tt
  Shows-taken line (inl quiet) =
      Shows-Of c (IsReply children f line) (attempt (serve_command f line) >>= report f) tt
        (reply line) (inl (quiet, refl)) (Shows-reply c f line quiet)
  Shows-taken line (inr program) = Shows-Program line program

  serve_line-FinishesOf :
      (R : List ℕ → Type 0) (line : Text) (again : M P (Unit {0})) (inp : List ℕ)
      → IsQuiet line ⊎ IsProgram line
      → FinishesOf c R again tt inp
      → FinishesOf c (Then (IsReply children f line) R) (serve_line f (ok line) again) tt inp
  serve_line-FinishesOf R line again inp taken rest s h =
      rw (← continue_assoc (attempt (serve_command f line) s) (report f) (λ u. again)) (
        ShowsOf-FinishesOf c (IsReply children f line) R
          (attempt (serve_command f line) >>= report f) (λ u. again) tt tt inp
          (Shows-taken line taken) rest s h)

module _ {P : Platform} {c : Console P} (laws : AllocLaws P) (h : Header c) (children : Children c)
    (f : Formats) where
  main_loop-IsTranscript :
      (rounds fuel : ℕ) (entries : List Entry) (last : Text)
      → length entries < rounds
      → All (IsTaken fuel) entries
      → length last < fuel
      → All IsTyped last
      → FinishesOf c
          (IsTranscript children f (IsPrompt f h.place) entries last)
          (main_loop f rounds fuel)
          tt
          (session_input entries last)
  unfolding main_loop session_input IsTranscript
  main_loop-IsTranscript zero fuel entries last lt taken short goes_on = elim lt [ ]
  main_loop-IsTranscript (suc rounds) fuel [] last lt taken short goes_on =
      ShowsOf-FinishesOf c _ _ (print_header f) _ tt tt (as_bytes last)
        (print_header-IsPrompt laws h f)
        (Finishes-Of c _ (attempt (get_line fuel) >>= again) tt (as_bytes last) _ refl
          (end-Finishes c f fuel (main_loop f rounds fuel) last short goes_on))
    where
      again : Attempt Text → M P (Unit {0})
      again line = serve_line f line (main_loop f rounds fuel)
  main_loop-IsTranscript (suc rounds) fuel (e ∷ entries) last lt taken short goes_on =
      ShowsOf-FinishesOf c _ _ (print_header f) _ tt tt (session_input (e ∷ entries) last)
        (print_header-IsPrompt laws h f)
        (Does-FinishesOf c _ (attempt (get_line fuel))
          (λ line. serve_line f line (main_loop f rounds fuel)) (ok (line_of e)) tt
          (as_bytes e.typed ++ encode_char e.ending) (session_input entries last)
          (echo_edit [] e.typed ++ echo e.ending)
          (Does-attempt c (get_line fuel) (line_of e) _ _ (
            get_line_lem c fuel e.ending e.typed taken.0.0.short taken.0.0.goes_on taken.0.0.valid
              taken.0.0.ends))
          (serve_line-FinishesOf children f _ (line_of e) (main_loop f rounds fuel)
            (session_input entries last) taken.0.1
            (main_loop-IsTranscript rounds fuel entries last (omega (arith, lt)) taken.1 short
              goes_on)))

  pub rest-FinishesOf :
      (rounds fuel : ℕ) (entries : List Entry) (last : Text)
      → length entries < rounds
      → All (IsTaken fuel) entries
      → length last < fuel
      → All IsTyped last
      → FinishesOf c
          (Before
            (IsTranscript children f (IsPrompt f h.place) entries last)
            (all_bytes (ln farewell ∷ [])))
          (main_loop f rounds fuel >> goodbye)
          0
          (session_input entries last)
  rest-FinishesOf rounds fuel entries last lt taken short goes_on =
      FinishesOf-Shows c _ (main_loop f rounds fuel) (λ u. goodbye) tt 0
        (session_input entries last) _
        (main_loop-IsTranscript rounds fuel entries last lt taken short goes_on) (Shows-goodbye c)

  -- With at most one argument, with or without the clock device, on a kernel that knows the working
  -- directory and runs every program to its exit, where lines are typed that are white space, begin
  -- with `help` or name a program with arguments and at most one redirection, each ended by `\r` or
  -- `\n` and edited by DEL, and the input ends, perhaps in an unfinished line: with more rounds than
  -- lines and more fuel than characters in each, `main` greets, shows for each line a prompt, its
  -- echo and a reply, which for a program is what a child forked in some state shows and then the
  -- exit code of that same child, reads the input to its end, says so and returns 0; or it panics for
  -- want of memory. It is never out of rounds.
  pub main-IsSession :
      (s : Machine P) (rounds fuel argc : ℕ) (argv : List (List ℕ)) (entries : List Entry)
      (last : Text)
      → argc ≤ 1
      → length entries < rounds
      → All (IsTaken fuel) entries
      → length last < fuel
      → All IsTyped last
      → c.pending s.kernel ≡ session_input entries last
      → ValueWith
          (Shown c (IsSession children f (IsPrompt f h.place) entries last) [] (c.shown s.kernel))
          0
          (main f rounds fuel argc argv s)
  unfolding main
  main-IsSession s rounds fuel argc argv entries last alone lt taken short goes_on typed =
      let test : ltb 1 argc ≡ false = ground (arith, alone) in
      rw test (
        Shows-FinishesOf c _ (println (codes "[shell] hello world!"))
          (λ u. main_loop f rounds fuel >> goodbye) tt 0 (session_input entries last) _
          (Shows-print c (ln (codes "[shell] hello world!") ∷ []))
          (rest-FinishesOf rounds fuel entries last lt taken short goes_on) s typed)
