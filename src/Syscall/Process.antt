-- ===== src/Syscall/Process.antt =====
-- usrlib_rust/src/syscall.rs: the calls on processes, signals and memory.
use parch_testbench.Prelude.{ℕ, List, [], ◌∷◌, ◌++◌, map, Text}
use parch_testbench.Types.{FileDecstiptor}
use parch_testbench.SyscallNum.{
  syscall_fork, syscall_exec, syscall_exit, syscall_mmap, syscall_signal, syscall_waitpid,
  syscall_sigaction, syscall_sbrk,
}
use parch_testbench.Machine.{Platform, message, M, panic, unwrap, ◌>>◌}
use parch_testbench.Allocator.{with_vec}
use parch_testbench.Machine.Blocks.{le_bytes}
use parch_testbench.Syscall.{do_syscall, nul_terminated}
use parch_testbench.Syscall.Files.{with_path}

-- The bytes of a `Vec<*const u8>`.
unfoldable pub words_bytes : List ℕ → List ℕ
unfolding le_bytes
words_bytes [] = []
words_bytes (w ∷ ws) = le_bytes 8 w ++ words_bytes ws

module _ {P : Platform} where
  unfoldable pub fork : M P ℕ
  fork = do_syscall (record { a0 = 0; a1 = 0; a2 = 0; a3 = 0; a4 = 0; a5 = 0; a7 = syscall_fork })

  unfoldable pub exec_raw : Text → ℕ → M P ℕ
  unfolding with_vec
  exec_raw path argv_ptr = with_path path (λ p.
      do_syscall
        (record { a0 = p; a1 = argv_ptr; a2 = 0; a3 = 0; a4 = 0; a5 = 0; a7 = syscall_exec }))

  -- The strings of `argv_u8`, each in a `Vec` of its own; the body has their addresses.
  unfoldable pub with_vecs : List (List ℕ) → (List ℕ → M P ℕ) → M P ℕ
  unfolding with_vec
  with_vecs [] body = body []
  with_vecs (v ∷ vs) body = with_vec v (λ p. with_vecs vs (λ ps. body (p ∷ ps)))

  unfoldable pub exec : Text → List Text → M P ℕ
  unfolding with_vec with_vecs exec_raw
  exec path argv =
      with_vecs (map nul_terminated argv)
        (λ ps. with_vec (words_bytes (ps ++ 0 ∷ [])) (λ q. exec_raw path q))

  -- `unreachable!()` stands behind the call.
  unfoldable pub exit : {A : Type 0} → ℕ → M P A
  exit code = do
    unwrap (
        do_syscall
          (record { a0 = code; a1 = 0; a2 = 0; a3 = 0; a4 = 0; a5 = 0; a7 = syscall_exit }))
    panic message

  unfoldable pub mmap : ℕ → ℕ → ℕ → ℕ → FileDecstiptor → ℕ → M P ℕ
  mmap target len prot flag fd offset = do_syscall (record {
    a0 = target;
    a1 = len;
    a2 = prot;
    a3 = flag;
    a4 = fd.inner;
    a5 = offset;
    a7 = syscall_mmap;
  })

  -- `exit_code` is the address of the caller's variable.
  unfoldable pub waitpid : ℕ → ℕ → M P ℕ
  waitpid pid exit_code =
      do_syscall
        (record { a0 = pid; a1 = exit_code; a2 = 0; a3 = 0; a4 = 0; a5 = 0; a7 = syscall_waitpid })

  unfoldable pub signal : ℕ → ℕ → M P ℕ
  signal target_pid signum =
      do_syscall (record {
        a0 = target_pid;
        a1 = signum;
        a2 = 0;
        a3 = 0;
        a4 = 0;
        a5 = 0;
        a7 = syscall_signal;
      })

  unfoldable pub sigaction : ℕ → ℕ → M P ℕ
  sigaction signum handler =
      do_syscall (record {
        a0 = signum;
        a1 = handler;
        a2 = 0;
        a3 = 0;
        a4 = 0;
        a5 = 0;
        a7 = syscall_sigaction;
      })

  unfoldable pub sbrk : ℕ → M P ℕ
  sbrk increment =
      do_syscall
        (record { a0 = increment; a1 = 0; a2 = 0; a3 = 0; a4 = 0; a5 = 0; a7 = syscall_sbrk })
