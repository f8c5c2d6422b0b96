-- ===== src/System/Started.antt =====
-- From a line of the shell to the end of the program that it names.
use parch_testbench.Prelude.{
  ℕ, ◌-◌, ◌≤◌, ◌<◌, ◌≡◌, ◌∙◌, refl, ap, true, inl, List, [], ◌∷◌, ◌++◌, map, replicate, Text, All,
  Lacks, length, arith,
}
use parch_testbench.Utf8.{is_char, as_bytes}
use parch_testbench.Types.{from}
use parch_testbench.Types.OpenMode
use parch_testbench.Machine.{Platform, Machine, M, back, gone}
use parch_testbench.Machine.Blocks.{Memory}
use parch_testbench.Allocator.{heap_size}
use parch_testbench.Allocator.Laws.{AllocLaws, EndsAs}
use parch_testbench.Formats.{Formats}
use parch_testbench.Start.{start, argv_slots, unused}
use parch_testbench.Start.Arguments.{start-Argv}
use parch_testbench.Syscall.{do_syscall}
use parch_testbench.Syscall.Argv.{Argv, Execs}
use parch_testbench.Syscall.Process.{exit}
use parch_testbench.FmtIo.Console.{Console}
use parch_testbench.FmtIo.Leaves.{Leaves, Leaves-bind}
use parch_testbench.FmtIo.Opens.{ServesOpen}
use parch_testbench.FmtIo.Printing.{all_bytes}
use parch_testbench.FmtIo.Runs.{At, ValueWith, ValueAt-cast}
use parch_testbench.Shell.Command.{Parse, command, default, parse}
use parch_testbench.Shell.Command.Words.{IsWord, render, none_given, parse-render}
use parch_testbench.Shell.Execute.{execute}
use parch_testbench.Shell.Execute.Child.{fork_call, execute-child}
use parch_testbench.Shell.Execute.Redirected.{Descriptors}
use parch_testbench.Syscall.Calls.{exit_call}
use parch_testbench.Cat
use parch_testbench.Cat.Reading.{Reads}
use parch_testbench.Cat.Whole.{terminal, content_text, main_shows}
use parch_testbench.System.{Loaded}

module _ {P : Platform} (c : Console P) (leaves : P.Kernel → P.Kernel) where
  -- A process whose `main` returns leaves with what it returned.
  start-Leaves :
      (T : P.Kernel → Type 0) (fuel q code : ℕ) (s : Machine P) (main : ℕ → List (List ℕ) → M P ℕ)
      (argv : List (List ℕ))
      → Argv s.mem q argv
      → length argv ≤ argv_slots
      → All (λ a. length a < fuel) argv
      → ((m : Memory) (k : P.Kernel) → P.ecall (exit_call code) m k ≡ gone (leaves k))
      → ((s' : Machine P)
          → s'.kernel ≡ s.kernel
          → ValueWith T code
              (main (length argv) (argv ++ replicate (argv_slots - length argv) unused) s'))
      → Leaves c leaves T (start fuel main (length argv) q s)
  unfolding exit do_syscall
  start-Leaves T fuel q code s main argv there room short ends returns =
      rw (start-Argv fuel q s main argv there room short) (
        Leaves-bind c leaves T T code
          (main (length argv) (argv ++ replicate (argv_slots - length argv) unused)) exit
          (record s { heap = P.init P.heap_space heap_size s.heap })
          (returns (record s { heap = P.init P.heap_space heap_size s.heap }) refl)
          (λ s' t. inl (s'.kernel, rw (ends s'.mem s'.kernel) refl, t)))

module _ {P : Platform} (c : Console P) (laws : AllocLaws P) (files : Descriptors P)
    (execs : Execs P) (f : Formats) (leaves : P.Kernel → P.Kernel) where
  -- In the child of a shell (`fork` returned 0) with the line `w path`, where `w` names a program with
  -- cat's `main` that the kernel loads with these arguments, `path` a file that it opens and reads, and
  -- neither holds a NUL: the line is parsed to a command whose `execute` ends with `exec` of the program,
  -- or panics for want of memory, and the loaded program, from `_start` on and with more fuel than the
  -- arguments and the file have bytes, shows the content of the file and exits with 0, or panics for want
  -- of memory.
  pub cat_line :
      (w path : Text) (s : Machine P) (k : P.Kernel) (m : Memory) (fuel fd : ℕ)
      (file : Reads P (from fd) (terminal c)) (content : List ℕ)
      → IsWord w
      → IsWord path
      → All (λ r. is_char r ≡ true) path
      → Lacks 0 (as_bytes w)
      → Lacks 0 (as_bytes path)
      → P.ecall fork_call s.mem s.kernel ≡ back 0 0 m k
      → files.IsOpen k 0
      → files.IsOpen k 1
      → execs.IsProgram (as_bytes w)
      → (loaded : Loaded execs c (as_bytes w) (as_bytes path ∷ []) k)
      → ServesOpen c path OpenMode.read fd (λ k'. file.left k' ≡ content)
      → ((m' : Memory) (k' : P.Kernel) → P.ecall (exit_call 0) m' k' ≡ gone (leaves k'))
      → length (as_bytes w) < fuel
      → length (as_bytes path) < fuel
      → length content < fuel
      → (parse (render (w ∷ path ∷ []) none_given)
          ≡ Parse.ok (command w (path ∷ []) default default))
        × EndsAs laws
            (execs.program (as_bytes w) (as_bytes path ∷ []) k)
            (execute (command w (path ∷ []) default default) s)
        × Leaves c leaves
            (At c (c.pending k) (c.shown k ++ all_bytes (content_text f content)))
            (start fuel (Cat.main f fuel) 2 loaded.stack loaded.image)
  cat_line w path s k m fuel fd file content word_w word_p valid no_nul_w no_nul_p forked open0
        open1 exists loaded served ends short_w short_p enough =
      (
        parse-render w (path ∷ []) none_given (word_w, (word_p, tt)) tt,
        execute-child laws files execs (command w (path ∷ []) default default) s k m forked open0
            open1 tt tt exists no_nul_w (no_nul_p, tt),
        start-Leaves c leaves (At c (c.pending k) (c.shown k ++ all_bytes (content_text f content)))
            fuel loaded.stack 0 loaded.image (Cat.main f fuel) argv loaded.arguments (omega arith)
            (short_w, (short_p, tt)) ends
            (λ s' same.
              ValueAt-cast c 0 (Cat.main f fuel 2 (argv ++ rest) s')
                (ap c.pending same ∙ loaded.quiet.0)
                (ap (λ l. l ++ all_bytes (content_text f content))
                  (ap c.shown same ∙ loaded.quiet.1))
                (main_shows c laws f s' fuel fd file content w path rest valid no_nul_p served
                  enough)),
      )
    where
      argv : List (List ℕ)
      argv = map as_bytes (w ∷ path ∷ [])

      rest : List (List ℕ)
      rest = replicate 14 unused
