-- ===== src/Shell/Execute/Child.antt =====
-- `Command::execute` of parch_utils/shell/src/main.rs: the two sides of the
-- `fork`.
use mathlib.Core.Path.{subst}
use parch_testbench.Prelude.{
  ℕ, ◌-◌, ◌%◌, ◌^◌, ◌<◌, ◌≡◌, ◌≢◌, ◌∙◌, refl, false, inl, inr, map, Lacks, All, length, arith, ◌==◌,
}
use parch_testbench.Utf8.{as_bytes}
use parch_testbench.ErrorNum.{ErrorNum, code}
use parch_testbench.SyscallNum.{syscall_fork, syscall_waitpid}
use parch_testbench.Types.OpenMode
use parch_testbench.Types.OpenMode.{OpenMode}
use parch_testbench.Machine.{
  Platform, Registers, back, Machine, M, value, with_local, load_word, ◌>>=◌,
}
use parch_testbench.Machine.Blocks.{Memory, le_bytes, store, load-store_word}
use parch_testbench.Allocator.Laws.{
  AllocLaws, EndsAs-IsStable, EndsAs, FailsAs, FailsAs-IsStable, FailsAs-bind,
}
use parch_testbench.Syscall.{usize_mod, do_syscall}
use parch_testbench.Syscall.Errors.{do_syscall-error}
use parch_testbench.Syscall.Process.{fork, exec, waitpid}
use parch_testbench.Syscall.Argv.{CString, Execs, exec_runs}
use parch_testbench.Shell.Command.{Command, exec_path, args, input, output}
use parch_testbench.Shell.Execute.{parent, execute}
use parch_testbench.Syscall.Argv.{Argv, exec_call, exec-IsStable}
use parch_testbench.Shell.Execute.Redirected.{
  Descriptors, IsServed, write_mode, prepared, child_then,
}

abbrev pub fork_call : Registers
fork_call = record { a0 = 0; a1 = 0; a2 = 0; a3 = 0; a4 = 0; a5 = 0; a7 = syscall_fork }

module _ {P : Platform} (laws : AllocLaws P) (files : Descriptors P) where
  open files use {IsOpen}

  -- In the child (`fork` returned 0), where descriptors 0 and 1 are open, the files of the
  -- redirections can be opened, the program exists and no path or argument holds a NUL, `execute`
  -- runs the program of the command with its arguments, the standard input and output being the
  -- files of the redirections, and those of the shell where there is none; or it panics for want of
  -- memory.
  pub execute-child :
      (execs : Execs P) (c : Command) (s : Machine P) (k : P.Kernel) (m : Memory)
      → P.ecall fork_call s.mem s.kernel ≡ back 0 0 m k
      → IsOpen k 0
      → IsOpen k 1
      → IsServed laws files OpenMode.read (input c)
      → IsServed laws files write_mode (output c)
      → execs.IsProgram (as_bytes (exec_path c))
      → Lacks 0 (as_bytes (exec_path c))
      → All (λ a. Lacks 0 (as_bytes a)) (args c)
      → EndsAs laws
          (execs.program (as_bytes (exec_path c)) (map as_bytes (args c)) (prepared laws files c k))
          (execute c s)
  unfolding execute fork do_syscall
  execute-child execs c s k m forked open0 open1 served_i served_o exists no_nul none_nul =
      rw forked (
        child_then laws files (EndsAs laws k') (EndsAs-IsStable laws k') c
          (record s { mem = m; kernel = k }) open0 open1 served_i served_o
          (λ s' same. EndsAs-bind (exec (exec_path c) (args c)) _ s' (
            subst
              (λ (x : P.Kernel).
                EndsAs laws (execs.program (as_bytes (exec_path c)) (map as_bytes (args c)) x)
                  (exec (exec_path c) (args c) s'))
              same (exec_runs laws execs (exec_path c) (args c) s' exists no_nul none_nul))))
    where
      k' : P.Kernel
      k' = execs.program (as_bytes (exec_path c)) (map as_bytes (args c)) (prepared laws files c k)

      EndsAs-bind :
          (n : M P ℕ) (f : ℕ → M P ℕ) (s' : Machine P)
          → EndsAs laws k' (n s')
          → EndsAs laws k' ((n >>= f) s')
      EndsAs-bind n f s' (inl e) = inl (rw e refl)
      EndsAs-bind n f s' (inr (s1, e)) = inr (s1, rw e refl)

  -- In the child (`fork` returned 0), where descriptors 0 and 1 are open, the files of the
  -- redirections can be opened, no path or argument holds a NUL and the kernel refuses to run the
  -- program with an error, `execute` returns that error, the descriptors being redirected; or it
  -- panics for want of memory.
  pub execute-refused :
      (e : ErrorNum) (c : Command) (s : Machine P) (k : P.Kernel) (m : Memory)
      → P.ecall fork_call s.mem s.kernel ≡ back 0 0 m k
      → IsOpen k 0
      → IsOpen k 1
      → IsServed laws files OpenMode.read (input c)
      → IsServed laws files write_mode (output c)
      → Lacks 0 (as_bytes (exec_path c))
      → All (λ a. Lacks 0 (as_bytes a)) (args c)
      → ((p q : ℕ) (m' : Memory)
          → CString m' p (as_bytes (exec_path c))
          → Argv m' q (map as_bytes (args c))
          → P.ecall (exec_call p q) m' (prepared laws files c k)
            ≡ back ((usize_mod - code e) % usize_mod) 1 m' (prepared laws files c k))
      → FailsAs laws e (prepared laws files c k) (execute c s)
  unfolding execute fork do_syscall
  execute-refused e c s k m forked open0 open1 served_i served_o no_nul none_nul refused =
      rw forked (
        child_then laws files (FailsAs laws e k') (FailsAs-IsStable laws e k') c
          (record s { mem = m; kernel = k }) open0 open1 served_i served_o
          (λ s1 same1. FailsAs-bind laws e k' (exec (exec_path c) (args c)) _ s1 (
            exec-IsStable laws (FailsAs laws e k') (FailsAs-IsStable laws e k') (exec_path c)
              (args c) s1 no_nul none_nul
              (λ p q s2 same2 string array. inl (
                record s2 { kernel = k' },
                do_syscall-error (exec_call p q) s2 e _ 1 s2.mem k' (omega arith) refl
                    (rw (same2 ∙ same1) (refused p q s2.mem string array)),
                refl,
              )))))
    where
      k' : P.Kernel
      k' = prepared laws files c k

-- `waitpid` of the process at the address.
abbrev pub waitpid_call : ℕ → ℕ → Registers
waitpid_call pid p = record {
  a0 = pid;
  a1 = p;
  a2 = 0;
  a3 = 0;
  a4 = 0;
  a5 = 0;
  a7 = syscall_waitpid;
}

-- In the parent (`fork` returned a number other than 0), where the kernel writes a word to the
-- address that `waitpid` was given, `execute` returns that word; the kernel is as `waitpid` left it
-- and the heap as before.
pub execute-parent :
    {P : Platform} (c : Command) (s : Machine P) (pid exit_code ret : ℕ) (m : Memory)
    (k k' : P.Kernel)
    → pid ≢ 0
    → exit_code < 2 ^ 64
    → P.ecall fork_call s.mem s.kernel ≡ back pid 0 m k
    → ((p : ℕ) (m' : Memory)
        → P.ecall (waitpid_call pid p) m' k ≡ back ret 0 (store m' p (le_bytes 8 exit_code)) k')
    → (s' : Machine P) × (execute c s ≡ value exit_code s') × (s'.kernel ≡ k') × (s'.heap ≡ s.heap)
unfolding execute fork do_syscall parent with_local waitpid load_word
execute-parent {P} c s pid exit_code ret m k k' child_id small forked waited =
    let test : (pid == 0) ≡ false = ground arith in
    let p : ℕ = P.frame (length (le_bytes 8 0)) in
    let m1 : Memory = store m p (le_bytes 8 0) in
    let m2 : Memory = store m1 p (le_bytes 8 exit_code) in
    (
      record s { mem = m2; kernel = k' },
      rw (forked, test, waited p m1, load-store_word m1 p exit_code small) refl,
      refl,
      refl,
    )
