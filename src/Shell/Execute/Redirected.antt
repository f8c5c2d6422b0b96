-- ===== src/Shell/Execute/Redirected.antt =====
-- `Command::execute` of parch_utils/shell/src/main.rs: the child redirects its descriptors.
use Prim.Native.Nat.{bit_or}
use parch_testbench.Prelude.{
  ℕ, zero, suc, ◌<◌, ◌≡◌, ◌∙◌, refl, ap, true, inl, List, [], Text, Lacks, arith, ◌==◌, ==_refl,
}
use parch_testbench.Utf8.{as_bytes}
use parch_testbench.ErrorNum.{enosys}
use parch_testbench.Types.{FileDecstiptor, from}
use parch_testbench.Types.OpenMode
use parch_testbench.Types.OpenMode.{OpenMode}
use parch_testbench.Machine.{Platform, back, Machine, Outcome, value, fail, ◌>>=◌}
use parch_testbench.Machine.Blocks.{Memory}
use parch_testbench.Allocator.Laws.{
  AllocLaws, IsStable, ReturnsAs-bind, ReturnsAs, ReturnsAs-IsStable, with_vec-IsStable,
}
use parch_testbench.Syscall.{nul_terminated, do_syscall}
use parch_testbench.Syscall.Files.{open_file, close, with_path}
use parch_testbench.Syscall.Process.{exec}
use parch_testbench.Syscall.Argv.{CString}
use parch_testbench.Syscall.Paths.{open_call, close_call}
use parch_testbench.FmtIo.{stdin, stdout}
use parch_testbench.Shell.Command.{
  Command, IoType, default, file, cmd, exec_path, args, input, output,
}
use parch_testbench.Shell.Execute.{reopen, redirect_input, redirect_output, child}

-- A kernel that opens a file on the lowest free descriptor.
pub record Descriptors (P : Platform) : Type 1 where
  pub IsOpen : P.Kernel → ℕ → Type 0
  -- the file of the path can be opened in the mode
  pub CanOpen : List ℕ → ℕ → Type 0
  pub closed : ℕ → P.Kernel → P.Kernel
  pub opened : ℕ → List ℕ → ℕ → P.Kernel → P.Kernel
  pub closes :
      (fd : ℕ) (m : Memory) (k : P.Kernel)
      → IsOpen k fd
      → P.ecall (close_call fd) m k ≡ back 0 0 m (closed fd k)
  -- a descriptor that was just closed, the lower ones being open, is the one that `open` takes
  pub reopens :
      (fd p mode : ℕ) (m : Memory) (k : P.Kernel) (path : List ℕ)
      → ((j : ℕ) → j < fd → IsOpen k j)
      → CanOpen path mode
      → CString m p path
      → P.ecall (open_call p mode) m (closed fd k) ≡ back fd 0 m (opened fd path mode (closed fd k))
  pub stays :
      (fd mode : ℕ) (k : P.Kernel) (path : List ℕ) (j : ℕ)
      → IsOpen k j
      → IsOpen (opened fd path mode (closed fd k)) j

abbrev pub write_mode : OpenMode
write_mode = bit_or OpenMode.write OpenMode.create

module _ {P : Platform} (laws : AllocLaws P) (files : Descriptors P) where
  open files use {IsOpen, CanOpen, closed, opened, closes, reopens, stays}

  -- The kernel once the descriptor stands for the file, if there is one.
  abbrev pub redirected : ℕ → OpenMode → IoType → P.Kernel → P.Kernel
  redirected fd mode (file path) k = opened fd (as_bytes path) mode (closed fd k)
  redirected fd mode default k = k
  redirected fd mode (cmd c) k = k

  -- What a redirection to a file needs: a path without NUL that can be opened. A pipe is not carried
  -- out.
  abbrev pub IsServed : OpenMode → IoType → Type 0
  IsServed mode (file path) = Lacks 0 (as_bytes path) × CanOpen (as_bytes path) mode
  IsServed mode default = Unit
  IsServed mode (cmd c) = ⊥

  pub close_lem :
      (std : FileDecstiptor) (s : Machine P)
      → IsOpen s.kernel std.inner
      → close std s ≡ value 0 (record s { kernel = closed std.inner s.kernel })
  unfolding close do_syscall
  close_lem std s is_open = rw (closes std.inner s.mem s.kernel is_open) refl

  open_lem :
      (fd : ℕ) (path : Text) (mode : OpenMode) (k : P.Kernel) (s : Machine P)
      → s.kernel ≡ closed fd k
      → ((j : ℕ) → j < fd → IsOpen k j)
      → IsServed mode (file path)
      → ReturnsAs laws (from fd) (redirected fd mode (file path) k) (open_file path mode s)
  unfolding open_file
  open_lem fd path mode k s before lower (no_nul, can) =
      ReturnsAs-bind laws (ReturnsAs laws (from fd) k') (ReturnsAs-IsStable laws (from fd) k')
        (with_path path (λ p. do_syscall (open_call p mode))) _ fd k' s
        (with_vec-IsStable laws (ReturnsAs laws fd k') (ReturnsAs-IsStable laws fd k')
          (nul_terminated path) _ s [] [] tt
          (λ p s' same (live, bytes, pos, small, rest).
            trap p s' (same ∙ before)
              (record { text = bytes; no_nul = no_nul; not_null = pos; address = small })))
        (λ s' same. inl (s', refl, same))
    where
      k' : P.Kernel
      k' = redirected fd mode (file path) k

      trap :
          (p : ℕ) (s' : Machine P)
          → s'.kernel ≡ closed fd k
          → CString s'.mem p (as_bytes path)
          → ReturnsAs laws fd k' (do_syscall (open_call p mode) s')
      trap p s' same string =
          unfold do_syscall in
          inl (
            record s' { kernel = k' },
            rw (same, reopens fd p mode s'.mem k (as_bytes path) lower can string) refl,
            refl,
          )

  reopen_lem :
      (std : FileDecstiptor) (path : Text) (mode : OpenMode) (s : Machine P)
      → IsOpen s.kernel std.inner
      → ((j : ℕ) → j < std.inner → IsOpen s.kernel j)
      → IsServed mode (file path)
      → ReturnsAs laws tt (redirected std.inner mode (file path) s.kernel) (reopen std path mode s)
  unfolding reopen from
  reopen_lem std path mode s is_open lower served =
      let k' : P.Kernel = redirected std.inner mode (file path) s.kernel in
      let test : (std.inner == std.inner) ≡ true = ==_refl std.inner in
      rw (close_lem std s is_open) (
        ReturnsAs-bind laws (ReturnsAs laws tt k') (ReturnsAs-IsStable laws tt k')
          (open_file path mode) _ (from std.inner) k'
          (record s { kernel = closed std.inner s.kernel })
          (open_lem std.inner path mode s.kernel _ refl lower served)
          (λ s' same. rw test (inl (s', refl, same))))

  redirect_input_lem :
      (io : IoType) (s : Machine P)
      → IsOpen s.kernel 0
      → IsServed OpenMode.read io
      → ReturnsAs laws tt (redirected 0 OpenMode.read io s.kernel) (redirect_input io s)
  unfolding redirect_input
  redirect_input_lem (file path) s is_open served =
      reopen_lem stdin path OpenMode.read s is_open (λ j lt. elim lt [ ]) served
  redirect_input_lem default s is_open served = inl (s, refl, refl)
  redirect_input_lem (cmd c) s is_open served = absurd served

  redirect_output_lem :
      (io i : IoType) (s : Machine P)
      → IsOpen s.kernel 0
      → IsOpen s.kernel 1
      → IsServed OpenMode.read i
      → IsServed write_mode io
      → ReturnsAs laws tt (redirected 1 write_mode io s.kernel) (redirect_output io i s)
  unfolding redirect_output
  redirect_output_lem (file path) i s open0 open1 served_i served =
      reopen_lem stdout path write_mode s open1 lower served
    where
      lower : (j : ℕ) → j < 1 → IsOpen s.kernel j
      lower zero lt = open0
      lower (suc j) lt = absurd (omega arith)
  redirect_output_lem default default s open0 open1 served_i served = inl (s, refl, refl)
  redirect_output_lem default (file path) s open0 open1 served_i served = inl (s, refl, refl)
  redirect_output_lem default (cmd c) s open0 open1 served_i served = absurd served_i
  redirect_output_lem (cmd c) i s open0 open1 served_i served = absurd served

  redirected-IsOpen :
      (mode : OpenMode) (io : IoType) (k : P.Kernel) (j : ℕ)
      → IsOpen k j
      → IsOpen (redirected 0 mode io k) j
  redirected-IsOpen mode (file path) k j h = stays 0 mode k (as_bytes path) j h
  redirected-IsOpen mode default k j h = h
  redirected-IsOpen mode (cmd c) k j h = h

  -- The kernel when the child's program starts.
  abbrev pub prepared : Command → P.Kernel → P.Kernel
  prepared c k = redirected 1 write_mode (output c) (redirected 0 OpenMode.read (input c) k)

  -- Whatever holds of the `exec` that follows the redirections holds of the child.
  pub child_then :
      (Q : Outcome P ℕ → Type 0) (stable : IsStable laws Q) (c : Command) (s : Machine P)
      → IsOpen s.kernel 0
      → IsOpen s.kernel 1
      → IsServed OpenMode.read (input c)
      → IsServed write_mode (output c)
      → ((s' : Machine P)
          → s'.kernel ≡ prepared c s.kernel
          → Q ((exec (exec_path c) (args c) >>= λ _. fail enosys) s'))
      → Q (child c s)
  unfolding child
  child_then Q stable c s open0 open1 served_i served_o h =
      ReturnsAs-bind laws Q stable (redirect_input (input c)) _ tt _ s
        (redirect_input_lem (input c) s open0 served_i)
        (λ s1 same1.
          ReturnsAs-bind laws Q stable (redirect_output (output c) (input c)) _ tt _ s1
            (redirect_output_lem (output c) (input c) s1
              (rw same1 (redirected-IsOpen OpenMode.read (input c) s.kernel 0 open0))
              (rw same1 (redirected-IsOpen OpenMode.read (input c) s.kernel 1 open1)) served_i
              served_o)
            (λ s2 same2. h s2 (same2 ∙ ap (redirected 1 write_mode (output c)) same1)))
