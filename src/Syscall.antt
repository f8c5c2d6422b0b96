-- ===== src/Syscall.antt =====
-- usrlib_rust/src/syscall.rs: the trap itself, reading and writing. A slice or a `&mut` is its
-- address (and length), an `isize` its bit pattern, a text is encoded when its bytes are taken.
pub mod Argv
pub mod Calls
pub mod Cwd
pub mod Errors
pub mod Files
pub mod Footprint
pub mod Paths
pub mod Process
use parch_testbench.Prelude.{
  ℕ, ◌-◌, ◌%◌, ◌^◌, List, [], ◌∷◌, ◌++◌, Text, length, replicate, ◌==◌, if◌then◌else◌,
}
use parch_testbench.Utf8.{as_bytes}
use parch_testbench.ErrorNum.{Conversion, ok, err, try_from}
use parch_testbench.Types.{FileDecstiptor}
use parch_testbench.SyscallNum.{syscall_write, syscall_read}
use parch_testbench.Machine.{
  Registers, Trap, back, gone, Platform, Machine, unwrap_err, Outcome, value, error, panicked,
  ended, M, with_local, load_bytes, ◌>>=◌, ◌>>◌,
}
use parch_testbench.Allocator.{with_vec}

abbrev pub usize_mod : ℕ
usize_mod = 2 ^ 64

-- `-(r as isize) as usize`
abbrev pub negate : ℕ → ℕ
negate r = (usize_mod - r) % usize_mod

-- `s.as_bytes().to_vec()` and `push(0)`
abbrev pub nul_terminated : Text → List ℕ
nul_terminated s = as_bytes s ++ 0 ∷ []

module _ {P : Platform} where
  -- `Err(ErrorNum::try_from(…).unwrap())`
  abbrev pub error_of : Conversion → M P ℕ
  error_of (ok e) s = error e s
  error_of (err e) s = panicked (unwrap_err e) s

  abbrev pub returned : Trap P.Kernel → Machine P → Outcome P ℕ
  returned (back ret success m k) s =
      let s' = record s { mem = m; kernel = k } in
      if success == 0 then value ret s' else error_of (try_from (negate ret)) s'
  returned (gone k) s = ended k

  unfoldable pub do_syscall : Registers → M P ℕ
  do_syscall r s = returned (P.ecall r s.mem s.kernel) s

  unfoldable pub write_raw : FileDecstiptor → ℕ → ℕ → M P ℕ
  write_raw fd buf len =
      do_syscall
        (record { a0 = fd.inner; a1 = buf; a2 = len; a3 = 0; a4 = 0; a5 = 0; a7 = syscall_write })

  -- The slice lies somewhere in memory while the call runs.
  unfoldable pub write : FileDecstiptor → List ℕ → M P ℕ
  unfolding write_raw with_local
  write fd buf = with_local buf (λ p. write_raw fd p (length buf))

  unfoldable pub read_raw : FileDecstiptor → ℕ → ℕ → M P ℕ
  read_raw fd buf len =
      do_syscall
        (record { a0 = fd.inner; a1 = buf; a2 = len; a3 = 0; a4 = 0; a5 = 0; a7 = syscall_read })

  unfoldable pub read : FileDecstiptor → ℕ → ℕ → M P ℕ
  unfolding read_raw
  read fd buf len = read_raw fd buf len

  unfoldable pub read_vec : FileDecstiptor → ℕ → M P (List ℕ)
  unfolding read with_vec load_bytes
  read_vec fd len = with_vec (replicate len 0) (λ p. do read fd p len; load_bytes p len)
