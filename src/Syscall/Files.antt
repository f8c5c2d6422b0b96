-- ===== src/Syscall/Files.antt =====
-- usrlib_rust/src/syscall.rs: the calls on files and directories.
use parch_testbench.Prelude.{ℕ, Option, none, some, List, Text, length, replicate}
use parch_testbench.Utf8.{as_bytes, from_utf8}
use parch_testbench.ErrorNum.{ebadcodex}
use parch_testbench.Types.{FileDecstiptor, from}
use parch_testbench.Types.OpenMode.{OpenMode}
use parch_testbench.Types.Permission.{Permission}
use parch_testbench.SyscallNum.{
  syscall_open, syscall_openat, syscall_close, syscall_dup, syscall_getcwd, syscall_chdir,
  syscall_getdents, syscall_mkdir, syscall_ioctl, syscall_delete, syscall_seek,
}
use parch_testbench.Machine.{Platform, M, pure, fail, with_local, load_bytes, ◌>>=◌, ◌>>◌}
use parch_testbench.Allocator.{with_vec}
use parch_testbench.Syscall.{do_syscall, nul_terminated}

module _ {P : Platform} where
  abbrev pub with_path : Text → (ℕ → M P ℕ) → M P ℕ
  with_path path = with_vec (nul_terminated path)

  -- `.map(|f| f.into())`
  abbrev into_fd : M P ℕ → M P FileDecstiptor
  into_fd m = do f ← m; pure (from f)

  unfoldable pub open_file : Text → OpenMode → M P FileDecstiptor
  unfolding with_vec from
  open_file path open_mode = into_fd (
      with_path path (λ p.
        do_syscall
          (record { a0 = p; a1 = open_mode; a2 = 0; a3 = 0; a4 = 0; a5 = 0; a7 = syscall_open })))

  unfoldable pub openat : FileDecstiptor → Text → OpenMode → M P ℕ
  unfolding with_vec
  openat fd path open_mode = with_path path (λ p. do_syscall (record {
    a0 = fd.inner;
    a1 = p;
    a2 = length (as_bytes path);
    a3 = open_mode;
    a4 = 0;
    a5 = 0;
    a7 = syscall_openat;
  }))

  unfoldable pub close : FileDecstiptor → M P ℕ
  close fd =
      do_syscall
        (record { a0 = fd.inner; a1 = 0; a2 = 0; a3 = 0; a4 = 0; a5 = 0; a7 = syscall_close })

  unfoldable pub dup : FileDecstiptor → M P FileDecstiptor
  unfolding from
  dup fd = into_fd (
      do_syscall
        (record { a0 = fd.inner; a1 = 0; a2 = 0; a3 = 0; a4 = 0; a5 = 0; a7 = syscall_dup }))

  unfoldable pub getcwd_raw : ℕ → ℕ → M P ℕ
  getcwd_raw buf len =
      do_syscall
        (record { a0 = buf; a1 = len; a2 = 0; a3 = 0; a4 = 0; a5 = 0; a7 = syscall_getcwd })

  abbrev pub or_bad_codex : Option Text → M P Text
  or_bad_codex none = fail ebadcodex
  or_bad_codex (some t) = pure t

  unfoldable pub getcwd : M P Text
  unfolding with_local getcwd_raw load_bytes
  getcwd =
      with_local (replicate 1024 0)
        (λ p. do getcwd_raw p 1024; buffer ← load_bytes p 1024; or_bad_codex (from_utf8 buffer))

  unfoldable pub chdir : Text → M P ℕ
  unfolding with_vec
  chdir path = with_path path (λ p. do_syscall (record {
    a0 = p;
    a1 = length (as_bytes path);
    a2 = 0;
    a3 = 0;
    a4 = 0;
    a5 = 0;
    a7 = syscall_chdir;
  }))

  unfoldable pub getdents : FileDecstiptor → ℕ → ℕ → M P ℕ
  getdents fd buf len =
      do_syscall (record {
        a0 = fd.inner;
        a1 = buf;
        a2 = len;
        a3 = 0;
        a4 = 0;
        a5 = 0;
        a7 = syscall_getdents;
      })

  -- `param` is the bytes of the parameter, `res` the address and the size of the result.
  unfoldable pub ioctl : FileDecstiptor → ℕ → List ℕ → ℕ → ℕ → M P ℕ
  unfolding with_local
  ioctl fd op param r_ptr r_size = with_local param (λ p_ptr. do_syscall (record {
    a0 = fd.inner;
    a1 = op;
    a2 = p_ptr;
    a3 = length param;
    a4 = r_ptr;
    a5 = r_size;
    a7 = syscall_ioctl;
  }))

  unfoldable pub delete : Text → M P ℕ
  unfolding with_vec
  delete path = with_path path (λ p.
      do_syscall (record { a0 = p; a1 = 0; a2 = 0; a3 = 0; a4 = 0; a5 = 0; a7 = syscall_delete }))

  unfoldable pub mkdir : Text → Permission → M P ℕ
  unfolding with_vec
  mkdir path perm = with_path path (λ p.
      do_syscall (record { a0 = p; a1 = perm; a2 = 0; a3 = 0; a4 = 0; a5 = 0; a7 = syscall_mkdir }))

  unfoldable pub seek : FileDecstiptor → ℕ → M P ℕ
  seek fd offset =
      do_syscall
        (record { a0 = fd.inner; a1 = offset; a2 = 0; a3 = 0; a4 = 0; a5 = 0; a7 = syscall_seek })
