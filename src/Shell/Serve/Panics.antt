-- ===== src/Shell/Serve/Panics.antt =====
-- The panic handler of parch_utils/shell/src/main.rs.
use parch_testbench.Prelude.{
  ℕ, ◌-◌, ◌^◌, ◌≡◌, refl, Option, none, some, List, [], ◌∷◌, ◌++◌, Text, codes,
}
use parch_testbench.Syscall.Calls.{exit_call}
use parch_testbench.Machine.{Platform, gone, Machine, ended, ◌>>◌}
use parch_testbench.Machine.Blocks.{Memory}
use parch_testbench.Formats.{Formats}
use parch_testbench.Syscall.{do_syscall}
use parch_testbench.Syscall.Process.{exit}
use parch_testbench.FmtIo.{print}
use parch_testbench.FmtIo.Console.{Console}
use parch_testbench.FmtIo.Printing.{all_bytes, print_shows}
use parch_testbench.Shell.Serve.{ln, panic_handler}

-- What is printed of a panic.
unfoldable pub panic_report : Formats → Option (Text × ℕ) → Text → List Text
panic_report f none e = codes "Shell panicked: " ∷ e ∷ ln [] ∷ []
panic_report f (some (name, line)) e =
    codes "Shell panicked at " ∷ name ∷ codes ":" ∷ f.show_usize line ∷ codes ", " ∷ e ∷ ln [] ∷ []

module _ {P : Platform} (c : Console P) (leaves : P.Kernel → P.Kernel) where
  -- What the terminal shows of a process that has left, the kernel having been `k` at its end.
  pub print-exit :
      (pieces : List Text) (code : ℕ) (s : Machine P)
      → ((m : Memory) (k : P.Kernel) → P.ecall (exit_call code) m k ≡ gone (leaves k))
      → (k : P.Kernel) × ((print pieces >> exit {A = Unit {0}} code) s ≡ ended (leaves k))
        × (c.pending k ≡ c.pending s.kernel)
        × (c.shown k ≡ c.shown s.kernel ++ all_bytes pieces)
  unfolding exit do_syscall
  print-exit pieces code s ends =
      let (s1, run, left, out) = print_shows c pieces s in
      (s1.kernel, rw (run, ends s1.mem s1.kernel) refl, left, out)

  -- Where the kernel ends a process that calls `exit` with -1, `panic_handler` shows the message, with
  -- the location where there is one, and ends the process with -1; it reads nothing.
  pub panic_handler_exits :
      (f : Formats) (place : Option (Text × ℕ)) (message : Text) (s : Machine P)
      → ((m : Memory) (k : P.Kernel) → P.ecall (exit_call (2 ^ 64 - 1)) m k ≡ gone (leaves k))
      → (k : P.Kernel) × (panic_handler f place message s ≡ ended (leaves k))
        × (c.pending k ≡ c.pending s.kernel)
        × (c.shown k ≡ c.shown s.kernel ++ all_bytes (panic_report f place message))
  unfolding panic_handler panic_report
  panic_handler_exits f none message s ends = print-exit _ (2 ^ 64 - 1) s ends
  panic_handler_exits f (some (name, line)) message s ends = print-exit _ (2 ^ 64 - 1) s ends
