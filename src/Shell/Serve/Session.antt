-- ===== src/Shell/Serve/Session.antt =====
-- Whole sessions of parch_utils/shell/src/main.rs: the prompt, the lines typed and the end of the
-- input, for lines that run no program.
use mathlib.Core.List.{reverse}
use parch_testbench.Prelude.{
  ℕ, zero, suc, ◌≤◌, ◌<◌, ◌≡◌, refl, true, false, List, [], ◌∷◌, ◌++◌, append-nil, Text, codes, All,
  length, arith, ltb,
}
use parch_testbench.Utf8.{is_char, encode_char, as_bytes}
use parch_testbench.ErrorNum.{eeof}
use parch_testbench.Machine.{
  Platform, Machine, M, value, error, attempt, ok, err, pure, Outcome, panicked, ended, starved,
  continue, ◌>>=◌, ◌>>◌,
}
use parch_testbench.Allocator.Laws.{AllocLaws}
use parch_testbench.Formats.{Formats}
use parch_testbench.FmtIo.{get_line}
use parch_testbench.FmtIo.Console.{Console}
use parch_testbench.FmtIo.Lines.{echo, ends_line, edit, echo_edit, IsTyped, get_line_lem}
use parch_testbench.FmtIo.Eof.{get_line_end}
use parch_testbench.FmtIo.Printing.{all_bytes}
use parch_testbench.FmtIo.Runs.{
  Shows, ValueAt, Shows-bind, Shows-pure, Shows-print, Shows-cast, Finishes, Finishes-cast,
  Shows-Finishes, Does-Finishes, Finishes-Shows, Does-attempt, Fails-attempt,
}
use parch_testbench.Shell.Serve.{
  ln, println, serve_command, report, serve_line, print_header, main_loop, main,
}
use parch_testbench.Shell.Serve.Replies.{IsQuiet, reply, Shows-reply}
use parch_testbench.Shell.Serve.Prompt.{Prompt, prompt_bytes, print_header_lem}

-- A line as it is typed, with the character that ends it.
pub record Entry : Type 0 where
  pub typed : Text
  pub ending : ℕ

-- The line that the shell gets, after the characters that DEL takes are gone.
abbrev pub line_of : Entry → Text
line_of e = reverse (edit [] e.typed)

-- An entry that is shorter than the fuel, of characters that end no line before the one that does.
pub record IsEntered (fuel : ℕ) (e : Entry) : Type 0 where
  pub short : length e.typed < fuel
  pub goes_on : All IsTyped e.typed
  pub valid : is_char e.ending ≡ true
  pub ends : ends_line e.ending ≡ true

-- An entry that runs no program.
abbrev pub IsServed : ℕ → Entry → Type 0
IsServed fuel e = IsEntered fuel e × IsQuiet (line_of e)

-- The bytes of the entries and of the characters behind them.
unfoldable pub session_input : List Entry → Text → List ℕ
session_input [] last = as_bytes last
session_input (e ∷ entries) last =
    (as_bytes e.typed ++ encode_char e.ending) ++ session_input entries last

-- What the terminal shows of a session: the prompt, the echo and the reply of each entry, then the
-- prompt and the echo of what is typed last.
unfoldable pub session_output : List ℕ → List Entry → Text → List ℕ
session_output prompt [] last = prompt ++ echo_edit [] last
session_output prompt (e ∷ entries) last =
    prompt
    ++ ((echo_edit [] e.typed ++ echo e.ending)
        ++ (reply (line_of e) ++ session_output prompt entries last))

pub continue_assoc :
    {P : Platform} {A B C : Type 0} (o : Outcome P A) (g : A → M P B) (h : B → M P C)
    → continue (continue o g) h ≡ continue o (λ a. g a >>= h)
continue_assoc (value a s) g h = refl
continue_assoc (error e s) g h = refl
continue_assoc (panicked x s) g h = refl
continue_assoc (ended k) g h = refl
continue_assoc (starved s) g h = refl

-- The end of `main`.
abbrev pub farewell : Text
farewell = codes "Cannot read further input. Exiting."

abbrev pub goodbye : {P : Platform} → M P ℕ
goodbye = println farewell >> pure 0

module _ {P : Platform} (c : Console P) where
  pub Shows-goodbye : Shows c goodbye 0 (all_bytes (ln farewell ∷ []))
  Shows-goodbye = Shows-cast c goodbye 0 (append-nil (all_bytes (ln farewell ∷ []))) (
      Shows-bind c (println farewell) (λ u. pure 0) tt 0 _ [] (Shows-print c (ln farewell ∷ []))
        (Shows-pure c 0))

  -- The round in which the input ends.
  pub end-Finishes :
      (f : Formats) (fuel : ℕ) (again : M P (Unit {0})) (last : Text)
      → length last < fuel
      → All IsTyped last
      → Finishes c
          (attempt (get_line fuel) >>= (λ line. serve_line f line again))
          tt
          (as_bytes last)
          (echo_edit [] last)
  end-Finishes f fuel again last short goes_on =
      Finishes-cast c _ tt refl (append-nil (echo_edit [] last)) (
        Finishes-Shows c (attempt (get_line fuel)) (λ line. serve_line f line again) (err eeof) tt
          (as_bytes last) _ []
          (Fails-attempt c (get_line fuel) eeof _ _ (get_line_end c fuel last short goes_on))
          (Shows-pure c tt))

module _ {P : Platform} {c : Console P} (laws : AllocLaws P) (p : Prompt c) (f : Formats) where
  serve_line-Finishes :
      (line : Text) (again : M P (Unit {0})) (inp out : List ℕ)
      → IsQuiet line
      → Finishes c again tt inp out
      → Finishes c (serve_line f (ok line) again) tt inp (reply line ++ out)
  serve_line-Finishes line again inp out quiet rest s h =
      rw (← continue_assoc (attempt (serve_command f line) s) (report f) (λ u. again)) (
        Shows-Finishes c (attempt (serve_command f line) >>= report f) (λ u. again) tt tt inp
          (reply line) out (Shows-reply c f line quiet) rest s h)

  main_loop-Finishes :
      (rounds fuel : ℕ) (entries : List Entry) (last : Text)
      → length entries < rounds
      → All (IsServed fuel) entries
      → length last < fuel
      → All IsTyped last
      → Finishes c
          (main_loop f rounds fuel)
          tt
          (session_input entries last)
          (session_output (prompt_bytes laws p) entries last)
  unfolding main_loop session_input session_output
  main_loop-Finishes zero fuel entries last lt served short goes_on = elim lt [ ]
  main_loop-Finishes (suc rounds) fuel [] last lt served short goes_on =
      Shows-Finishes c (print_header f) _ tt tt (as_bytes last) _ _ (print_header_lem laws p f)
        (end-Finishes c f fuel (main_loop f rounds fuel) last short goes_on)
  main_loop-Finishes (suc rounds) fuel (e ∷ entries) last lt served short goes_on =
      Shows-Finishes c (print_header f) _ tt tt (session_input (e ∷ entries) last) _ _
        (print_header_lem laws p f)
        (Does-Finishes c (attempt (get_line fuel))
          (λ line. serve_line f line (main_loop f rounds fuel)) (ok (line_of e)) tt
          (as_bytes e.typed ++ encode_char e.ending) (session_input entries last)
          (echo_edit [] e.typed ++ echo e.ending) _
          (Does-attempt c (get_line fuel) (line_of e) _ _ (
            get_line_lem c fuel e.ending e.typed served.0.0.short served.0.0.goes_on
              served.0.0.valid served.0.0.ends))
          (serve_line-Finishes (line_of e) (main_loop f rounds fuel) (session_input entries last)
            (session_output (prompt_bytes laws p) entries last) served.0.1
            (main_loop-Finishes rounds fuel entries last (omega (arith, lt)) served.1 short
              goes_on)))

  -- With at most one argument, on a machine without the clock device, where lines of white space or with
  -- `help` in front are typed, each ended by `\r` or `\n` and edited by DEL, and the input ends, perhaps
  -- in an unfinished line: with more rounds than lines and more fuel than characters in each, `main`
  -- greets, shows a prompt, the echo and the reply for each line, reads the input to its end, says so
  -- and returns 0; or it panics for want of memory. It is never out of rounds.
  pub main_session :
      (s : Machine P) (rounds fuel argc : ℕ) (argv : List (List ℕ)) (entries : List Entry)
      (last : Text)
      → argc ≤ 1
      → length entries < rounds
      → All (IsServed fuel) entries
      → length last < fuel
      → All IsTyped last
      → c.pending s.kernel ≡ session_input entries last
      → ValueAt c 0 []
          (c.shown s.kernel
            ++ (all_bytes (codes "[shell] hello world!\r\n" ∷ [])
                ++ (session_output (prompt_bytes laws p) entries last
                    ++ all_bytes (codes "Cannot read further input. Exiting.\r\n" ∷ []))))
          (main f rounds fuel argc argv s)
  unfolding main
  main_session s rounds fuel argc argv entries last alone lt served short goes_on typed =
      let test : ltb 1 argc ≡ false = ground (arith, alone) in
      rw test (
        Shows-Finishes c (println (codes "[shell] hello world!")) (λ u. loop) tt 0
          (session_input entries last) _ _ (Shows-print c (ln (codes "[shell] hello world!") ∷ []))
          (Finishes-Shows c (main_loop f rounds fuel) (λ u. goodbye) tt 0
            (session_input entries last) _ _
            (main_loop-Finishes rounds fuel entries last lt served short goes_on) (Shows-goodbye c))
          s typed)
    where
      loop : M P ℕ
      loop = main_loop f rounds fuel >> goodbye
