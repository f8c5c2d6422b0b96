-- ===== src/Shell/Serve/Exits.antt =====
-- Sessions of parch_utils/shell/src/main.rs that a line with `exit` ends.
use parch_testbench.Prelude.{
  ℕ, zero, suc, ◌≤◌, ◌<◌, ◌≡◌, ◌≢◌, ◌∙◌, refl, inl, inr, true, false, Bool-cases, List, [], ◌∷◌,
  ◌++◌, Text, codes, All, length, arith, ltb, ◌==◌,
}
use parch_testbench.Utf8.{as_bytes, encode_char}
use parch_testbench.Strings.{starts_with}
use parch_testbench.Machine.{Platform, Machine, M, gone, attempt, ok, ◌>>=◌}
use parch_testbench.Machine.Blocks.{Memory}
use parch_testbench.Allocator.Laws.{AllocLaws}
use parch_testbench.Formats.{Formats}
use parch_testbench.FmtIo.{get_line}
use parch_testbench.FmtIo.Console.{Console}
use parch_testbench.FmtIo.Lines.{echo, echo_edit, get_line_lem}
use parch_testbench.FmtIo.Printing.{all_bytes}
use parch_testbench.FmtIo.Runs.{Shows-print, Does-attempt}
use parch_testbench.FmtIo.Leaves.{
  Leaves, LeavesOf, Leaves-map, Leaves-bind, Leaves-then, ShowsOf-LeavesOf, Does-LeavesOf,
}
use parch_testbench.FmtIo.Specs.{Then, Behind, Shown, Shown-append}
use parch_testbench.Shell.Serve.{
  ln, println, serve_command, serve_exit, report, serve_line, print_header, main_loop, main,
}
use parch_testbench.Shell.Serve.Clock.{Header, IsPrompt, print_header-IsPrompt}
use parch_testbench.Shell.Serve.Panics.{print-exit}
use parch_testbench.Syscall.Calls.{exit_call}
use parch_testbench.Shell.Serve.Session.{Entry, line_of, IsEntered, continue_assoc, goodbye}
use parch_testbench.Shell.Serve.Transcript.{Children, IsTaken, IsReply, Shows-taken}

starts_with-other :
    (p q : ℕ) (v w line : Text)
    → p ≢ q
    → starts_with (p ∷ v) line ≡ true
    → starts_with (q ∷ w) line ≡ false
unfolding starts_with
starts_with-other p q v w [] other h = refl
starts_with-other p q v w (x ∷ line) other h = elim (Bool-cases (x == p)) [
  | inl same ↦ ground (arith, same, other)
  | inr miss ↦ let never : false ≡ true = rw miss at h in absurd (cc never)
]

-- What the terminal may show of a session that ends with `exit`: the prompt, the echo and a reply for
-- each entry, then the prompt, the echo of the last line and `Bye.`.
unfoldable pub IsLeaving :
    {P : Platform} {c : Console P}
    → Children c
    → Formats
    → (List ℕ → Type 0)
    → List Entry
    → Entry
    → List ℕ
    → Type 0
IsLeaving children f prompt [] last = Then prompt (
    Behind (echo_edit [] last.typed ++ echo last.ending)
      (λ out. out ≡ all_bytes (ln (codes "Bye.") ∷ [])))
IsLeaving children f prompt (e ∷ entries) last = Then prompt (
    Behind (echo_edit [] e.typed ++ echo e.ending)
      (Then (IsReply children f (line_of e)) (IsLeaving children f prompt entries last)))

-- The bytes of the entries, the last one included, and what is typed behind them.
unfoldable pub leaving_input : List Entry → Entry → List ℕ → List ℕ
leaving_input [] last rest = (as_bytes last.typed ++ encode_char last.ending) ++ rest
leaving_input (e ∷ entries) last rest =
    (as_bytes e.typed ++ encode_char e.ending) ++ leaving_input entries last rest

module _ {P : Platform} (c : Console P) (leaves : P.Kernel → P.Kernel) (f : Formats)
    (ends : (m : Memory) (k : P.Kernel) → P.ecall (exit_call 0) m k ≡ gone (leaves k)) where
  exit-LeavesOf :
      (line : Text) (again : M P (Unit {0})) (rest : List ℕ)
      → starts_with (codes "exit") line ≡ true
      → LeavesOf c leaves
          (λ out. out ≡ all_bytes (ln (codes "Bye.") ∷ []))
          (serve_line f (ok line) again)
          rest
          rest
  unfolding serve_command serve_exit
  exit-LeavesOf line again rest exits s p =
      let no_cd = starts_with-other b'e' b'c' (codes "xit") (codes "d ") line (omega arith) exits in
      let no_help =
        starts_with-other b'e' b'h' (codes "xit") (codes "elp") line (omega arith) exits in
      let (k, run, left, out) = print-exit c leaves (ln (codes "Bye.") ∷ []) 0 s ends in
      inl (k, rw (no_cd, no_help, exits) (rw run refl), (left ∙ p, (_, refl, out)))

  module _ (laws : AllocLaws P) (h : Header c) (children : Children c) where
    main_loop-LeavesOf :
        (rounds fuel : ℕ) (entries : List Entry) (last : Entry) (rest : List ℕ)
        → length entries < rounds
        → All (IsTaken fuel) entries
        → IsEntered fuel last
        → starts_with (codes "exit") (line_of last) ≡ true
        → LeavesOf c leaves
            (IsLeaving children f (IsPrompt f h.place) entries last)
            (main_loop f rounds fuel)
            (leaving_input entries last rest)
            rest
    unfolding main_loop leaving_input IsLeaving
    main_loop-LeavesOf zero fuel entries last rest lt taken entered exits = elim lt [ ]
    main_loop-LeavesOf (suc rounds) fuel [] last rest lt taken entered exits =
        ShowsOf-LeavesOf c leaves _ _ (print_header f) _ tt (leaving_input [] last rest) rest
          (print_header-IsPrompt laws h f)
          (Does-LeavesOf c leaves _ (attempt (get_line fuel))
            (λ line. serve_line f line (main_loop f rounds fuel)) (ok (line_of last))
            (as_bytes last.typed ++ encode_char last.ending) rest
            (echo_edit [] last.typed ++ echo last.ending) rest
            (Does-attempt c (get_line fuel) (line_of last) _ _ (
              get_line_lem c fuel last.ending last.typed entered.short entered.goes_on entered.valid
                entered.ends))
            (exit-LeavesOf (line_of last) (main_loop f rounds fuel) rest exits))
    main_loop-LeavesOf (suc rounds) fuel (e ∷ entries) last rest lt taken entered exits =
        ShowsOf-LeavesOf c leaves _ _ (print_header f) _ tt (leaving_input (e ∷ entries) last rest)
          rest (print_header-IsPrompt laws h f)
          (Does-LeavesOf c leaves _ (attempt (get_line fuel))
            (λ line. serve_line f line (main_loop f rounds fuel)) (ok (line_of e))
            (as_bytes e.typed ++ encode_char e.ending) (leaving_input entries last rest)
            (echo_edit [] e.typed ++ echo e.ending) rest
            (Does-attempt c (get_line fuel) (line_of e) _ _ (
              get_line_lem c fuel e.ending e.typed taken.0.0.short taken.0.0.goes_on taken.0.0.valid
                taken.0.0.ends))
            (λ s p.
              rw
                (← continue_assoc (attempt (serve_command f (line_of e)) s) (report f)
                  (λ u. main_loop f rounds fuel))
                (ShowsOf-LeavesOf c leaves (IsReply children f (line_of e)) _
                  (attempt (serve_command f (line_of e)) >>= report f)
                  (λ u. main_loop f rounds fuel) tt (leaving_input entries last rest) rest
                  (Shows-taken children f (line_of e) taken.0.1)
                  (main_loop-LeavesOf rounds fuel entries last rest (omega (arith, lt)) taken.1
                    entered exits)
                  s p)))

    -- With at most one argument, with or without the clock device, on a kernel that knows the working
    -- directory, runs every program to its exit and ends a process that calls `exit`, where lines are
    -- typed that are white space, begin with `help` or name a program with arguments and at most one
    -- redirection, and then one that begins with `exit`, each ended by `\r` or `\n` and edited by DEL:
    -- with more rounds than lines before the last and more fuel than characters in each, `main` greets,
    -- shows for each line a prompt, its echo and a reply, shows a prompt, the echo of the last line and
    -- `Bye.`, and ends the process with 0, what is typed behind that line not being read; or it panics
    -- for want of memory. It is never out of rounds.
    pub main-Leaves :
        (s : Machine P) (rounds fuel argc : ℕ) (argv : List (List ℕ)) (entries : List Entry)
        (last : Entry) (rest : List ℕ)
        → argc ≤ 1
        → length entries < rounds
        → All (IsTaken fuel) entries
        → IsEntered fuel last
        → starts_with (codes "exit") (line_of last) ≡ true
        → c.pending s.kernel ≡ leaving_input entries last rest
        → Leaves c leaves
            (Shown c
              (Behind
                (all_bytes (codes "[shell] hello world!\r\n" ∷ []))
                (IsLeaving children f (IsPrompt f h.place) entries last))
              rest
              (c.shown s.kernel))
            (main f rounds fuel argc argv s)
    unfolding main
    main-Leaves s rounds fuel argc argv entries last rest alone lt taken entered exits typed =
        let test : ltb 1 argc ≡ false = ground (arith, alone) in
        let hello : List ℕ = all_bytes (ln (codes "[shell] hello world!") ∷ []) in
        rw test (
          Leaves-bind c leaves _ _ tt (println (codes "[shell] hello world!")) _ s
            (Shows-print c (ln (codes "[shell] hello world!") ∷ []) s)
            (λ s1 (left, at).
              Leaves-then c leaves _ (main_loop f rounds fuel) (λ u. goodbye) s1
                (Leaves-map c leaves _ _ (main_loop f rounds fuel s1)
                  (λ k. Shown-append c _ _ _ _ _ hello k at (λ q r. (q, r, refl)))
                  (main_loop-LeavesOf rounds fuel entries last rest lt taken entered exits s1
                    (left ∙ typed)))))
