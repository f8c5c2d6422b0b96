-- ===== src/Shell/Execute/Unopened.antt =====
-- `Command::execute` of parch_utils/shell/src/main.rs where the file for the input cannot be opened.
use parch_testbench.Prelude.{ℕ, ◌-◌, ◌%◌, ◌≡◌, Text, List, Lacks}
use parch_testbench.Utf8.{as_bytes}
use parch_testbench.ErrorNum.{ErrorNum, code}
use parch_testbench.Types.OpenMode
use parch_testbench.Machine.{Platform, back, Machine}
use parch_testbench.Machine.Blocks.{Memory}
use parch_testbench.Allocator.Laws.{AllocLaws, FailsAs, FailsAs-bind}
use parch_testbench.Syscall.{usize_mod, do_syscall}
use parch_testbench.Syscall.Argv.{CString}
use parch_testbench.Syscall.Files.{open_file, with_path}
use parch_testbench.Syscall.Paths.{open_call, path_refused}
use parch_testbench.Syscall.Process.{fork}
use parch_testbench.FmtIo.{stdin}
use parch_testbench.Shell.Command.{IoType, command, file}
use parch_testbench.Shell.Execute.{reopen, redirect_input, child, execute}
use parch_testbench.Shell.Execute.Child.{fork_call}
use parch_testbench.Shell.Execute.Redirected.{Descriptors, close_lem}

-- The kernel refuses to open the path for reading.
abbrev Refused : (P : Platform) → Text → P.Kernel → ErrorNum → P.Kernel → Type 0
Refused P path k e k' =
    (p : ℕ) (m : Memory)
    → CString m p (as_bytes path)
    → P.ecall (open_call p OpenMode.read) m k ≡ back ((usize_mod - code e) % usize_mod) 1 m k'

module _ {P : Platform} (laws : AllocLaws P) (files : Descriptors P) where
  open files use {IsOpen, closed}

  open-Refused :
      (e : ErrorNum) (path : Text) (s : Machine P) (k' : P.Kernel)
      → Lacks 0 (as_bytes path)
      → Refused P path s.kernel e k'
      → FailsAs laws e k' (open_file path OpenMode.read s)
  unfolding open_file
  open-Refused e path s k' no_nul refused =
      FailsAs-bind laws e k' (with_path path (λ p. do_syscall (open_call p OpenMode.read))) _ s
        (path_refused laws path (λ p. open_call p OpenMode.read) s e k' no_nul refused)

  redirect_input-Refused :
      (e : ErrorNum) (path : Text) (s : Machine P) (k' : P.Kernel)
      → IsOpen s.kernel 0
      → Lacks 0 (as_bytes path)
      → Refused P path (closed 0 s.kernel) e k'
      → FailsAs laws e k' (redirect_input (file path) s)
  unfolding redirect_input reopen
  redirect_input-Refused e path s k' is_open no_nul refused =
      rw (close_lem laws files stdin s is_open) (
        FailsAs-bind laws e k' (open_file path OpenMode.read) _
          (record s { kernel = closed 0 s.kernel })
          (open-Refused e path (record s { kernel = closed 0 s.kernel }) k' no_nul refused))

  -- In the child (`fork` returned 0), where descriptor 0 is open and the kernel refuses to open the file
  -- for the input, whose path holds no NUL, `execute` returns that error with descriptor 0 closed and
  -- nothing run; or it panics for want of memory.
  pub execute-unopened :
      (e : ErrorNum) (w path : Text) (ws : List Text) (o : IoType) (s : Machine P) (k k' : P.Kernel)
      (m : Memory)
      → P.ecall fork_call s.mem s.kernel ≡ back 0 0 m k
      → IsOpen k 0
      → Lacks 0 (as_bytes path)
      → ((p : ℕ) (m' : Memory)
          → CString m' p (as_bytes path)
          → P.ecall (open_call p OpenMode.read) m' (closed 0 k)
            ≡ back ((usize_mod - code e) % usize_mod) 1 m' k')
      → FailsAs laws e k' (execute (command w ws (file path) o) s)
  unfolding execute fork do_syscall child
  execute-unopened e w path ws o s k k' m forked is_open no_nul refused = rw forked (
      FailsAs-bind laws e k' (redirect_input (file path)) _ (record s { mem = m; kernel = k })
        (redirect_input-Refused e path (record s { mem = m; kernel = k }) k' is_open no_nul
          refused))
