-- ===== src/Syscall/Paths.antt =====
-- The calls of usrlib_rust/src/syscall.rs that take a path: how it stands in memory at the trap.
use parch_testbench.Prelude.{ℕ, ◌-◌, ◌%◌, arith, ◌≡◌, refl, inl, inr, [], Text, Lacks}
use parch_testbench.Utf8.{as_bytes}
use parch_testbench.ErrorNum.{ErrorNum, code}
use parch_testbench.SyscallNum.{syscall_open, syscall_close}
use parch_testbench.Machine.{Platform, Registers, back, Machine, M, Outcome, unwrap}
use parch_testbench.Machine.Blocks.{Memory}
use parch_testbench.Allocator.Laws.{
  AllocLaws, IsStable, ReturnsAs, ReturnsAs-IsStable, FailsAs, FailsAs-IsStable, with_vec-IsStable,
}
use parch_testbench.Syscall.{usize_mod, nul_terminated, do_syscall}
use parch_testbench.Syscall.Errors.{do_syscall-error}
use parch_testbench.Syscall.Files.{with_path}
use parch_testbench.Syscall.Argv.{CString}

abbrev pub open_call : ℕ → ℕ → Registers
open_call p mode = record { a0 = p; a1 = mode; a2 = 0; a3 = 0; a4 = 0; a5 = 0; a7 = syscall_open }

abbrev pub close_call : ℕ → Registers
close_call fd = record { a0 = fd; a1 = 0; a2 = 0; a3 = 0; a4 = 0; a5 = 0; a7 = syscall_close }

module _ {P : Platform} (laws : AllocLaws P) where
  pub with_path-IsStable :
      (Q : Outcome P ℕ → Type 0) (stable : IsStable laws Q) (path : Text) (body : ℕ → M P ℕ)
      (s : Machine P)
      → Lacks 0 (as_bytes path)
      → ((p : ℕ) (s' : Machine P)
          → s'.kernel ≡ s.kernel
          → CString s'.mem p (as_bytes path)
          → Q (body p s'))
      → Q (with_path path body s)
  with_path-IsStable Q stable path body s no_nul h =
      with_vec-IsStable laws Q stable (nul_terminated path) body s [] [] tt
        (λ p s' same (live, bytes, pos, small, rest).
          h p s' same (record { text = bytes; no_nul = no_nul; not_null = pos; address = small }))

  -- A call that the kernel serves for every address where the path stands.
  pub path_call :
      (path : Text) (call : ℕ → Registers) (s : Machine P) (ret : ℕ) (k : P.Kernel)
      → Lacks 0 (as_bytes path)
      → ((p : ℕ) (m : Memory)
          → CString m p (as_bytes path)
          → P.ecall (call p) m s.kernel ≡ back ret 0 m k)
      → ReturnsAs laws ret k (with_path path (λ p. do_syscall (call p)) s)
  path_call path call s ret k no_nul served =
      with_path-IsStable (ReturnsAs laws ret k) (ReturnsAs-IsStable laws ret k) path
        (λ p. do_syscall (call p)) s no_nul
        (λ p s' same string.
          unfold do_syscall in
          inl (record s' { kernel = k }, rw (same, served p s'.mem string) refl, refl))

  pub ReturnsAs-unwrap :
      {A : Type 0} (a : A) (k : P.Kernel) (n : M P A) (s : Machine P)
      → ReturnsAs laws a k (n s)
      → ReturnsAs laws a k (unwrap n s)
  ReturnsAs-unwrap a k n s (inl (s1, q, same)) = inl (s1, rw q refl, same)
  ReturnsAs-unwrap a k n s (inr (s1, q)) = inr (s1, rw q refl)

  -- A call that the kernel refuses for every address where the path stands.
  pub path_refused :
      (path : Text) (call : ℕ → Registers) (s : Machine P) (e : ErrorNum) (k : P.Kernel)
      → Lacks 0 (as_bytes path)
      → ((p : ℕ) (m : Memory)
          → CString m p (as_bytes path)
          → P.ecall (call p) m s.kernel ≡ back ((usize_mod - code e) % usize_mod) 1 m k)
      → FailsAs laws e k (with_path path (λ p. do_syscall (call p)) s)
  path_refused path call s e k no_nul refused =
      with_path-IsStable (FailsAs laws e k) (FailsAs-IsStable laws e k) path
        (λ p. do_syscall (call p)) s no_nul
        (λ p s' same string. inl (
          record s' { kernel = k },
          do_syscall-error (call p) s' e _ 1 s'.mem k (omega arith) refl
              (rw same (refused p s'.mem string)),
          refl,
        ))
