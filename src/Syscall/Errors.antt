-- ===== src/Syscall/Errors.antt =====
-- `do_syscall` of usrlib_rust/src/syscall.rs: what it makes of the two registers that come back.
use parch_testbench.Prelude.{ℕ, ◌-◌, ◌%◌, ◌<◌, ◌≡◌, ◌≢◌, refl, false, arith, ◌==◌}
use parch_testbench.ErrorNum.{ErrorNum, enosys, code}
use parch_testbench.ErrorNum.Codes.{try_from-code, try_from_miss}
use parch_testbench.ErrorNum.Bounds.{code-lt}
use parch_testbench.Machine.{Registers, back, Platform, Machine, error, panicked, unwrap_err}
use parch_testbench.Machine.Blocks.{Memory}
use parch_testbench.Syscall.{usize_mod, negate, do_syscall}

module _ {P : Platform} (r : Registers) (s : Machine P) where
  -- The machine after the trap.
  abbrev pub after : Memory → P.Kernel → Machine P
  after m k = record s { mem = m; kernel = k }

  -- Where the kernel comes back with a1 other than 0 and the negated number of an error in a0, the
  -- call returns that error, the memory and the kernel being as the trap left them.
  pub do_syscall-error :
      (e : ErrorNum) (ret success : ℕ) (m : Memory) (k : P.Kernel)
      → success ≢ 0
      → ret ≡ (usize_mod - code e) % usize_mod
      → P.ecall r s.mem s.kernel ≡ back ret success m k
      → do_syscall r s ≡ error e (after m k)
  unfolding do_syscall
  do_syscall-error e ret success m k failed number call =
      let test : (success == 0) ≡ false = ground arith in
      let same : negate ret ≡ code e = omega (arith, number, code-lt e) in
      rw call (rw (test, same, try_from-code e) refl)

  -- Where the kernel comes back with a1 other than 0 and a word in a0 that is the negated number of
  -- no error, the call panics with `ENOSYS`, the memory and the kernel being as the trap left them.
  pub do_syscall-unknown :
      (ret success : ℕ) (m : Memory) (k : P.Kernel)
      → success ≢ 0
      → ret < usize_mod
      → ((e : ErrorNum) → ret ≢ (usize_mod - code e) % usize_mod)
      → P.ecall r s.mem s.kernel ≡ back ret success m k
      → do_syscall r s ≡ panicked (unwrap_err enosys) (after m k)
  unfolding do_syscall
  do_syscall-unknown ret success m k failed bound none_fits call =
      let test : (success == 0) ≡ false = ground arith in
      rw call (
        rw
          (
            test,
            try_from_miss (negate ret) (λ e same. none_fits e (omega (arith, same, code-lt e))),
          )
          refl)
