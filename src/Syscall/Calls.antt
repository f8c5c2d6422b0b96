-- ===== src/Syscall/Calls.antt =====
-- The system calls that the wrappers of usrlib_rust/src/syscall.rs make, for any set that allows them.
use parch_testbench.Prelude.{
  ℕ, List, [], ◌∷◌, ◌++◌, map, Text, Option, none, some, length, replicate,
}
use parch_testbench.Utf8.{as_bytes, from_utf8}
use parch_testbench.Types.{FileDecstiptor}
use parch_testbench.Types.OpenMode.{OpenMode}
use parch_testbench.Machine.{Registers, Platform, M, load_bytes}
use parch_testbench.Machine.Footprint.{
  Within, here, Within-bind, Within-unwrap, Within-local, load_bytes-Within,
}
use parch_testbench.Syscall.{nul_terminated}
use parch_testbench.Syscall.Files.{
  open_file, chdir, or_bad_codex, ioctl, getcwd, getcwd_raw, with_path,
}
use parch_testbench.Syscall.Process.{exec, exec_raw, with_vecs, words_bytes, exit}
use parch_testbench.Syscall.Footprint.{Within-do_syscall, Within-vec}
use parch_testbench.Syscall.Cwd.{getcwd_call}
use parch_testbench.Syscall.Paths.{open_call}
use parch_testbench.Syscall.Argv.{exec_call}
use parch_testbench.SyscallNum.{syscall_exit, syscall_ioctl, syscall_chdir}

abbrev pub chdir_call : ℕ → ℕ → Registers
chdir_call p len = record { a0 = p; a1 = len; a2 = 0; a3 = 0; a4 = 0; a5 = 0; a7 = syscall_chdir }

abbrev ioctl_call : ℕ → ℕ → ℕ → ℕ → ℕ → ℕ → Registers
ioctl_call fd op param size ptr room = record {
  a0 = fd;
  a1 = op;
  a2 = param;
  a3 = size;
  a4 = ptr;
  a5 = room;
  a7 = syscall_ioctl;
}

abbrev pub exit_call : ℕ → Registers
exit_call code = record { a0 = code; a1 = 0; a2 = 0; a3 = 0; a4 = 0; a5 = 0; a7 = syscall_exit }

module _ {P : Platform} (C : Registers → Type 0) where
  pub with_path-Within :
      (path : Text) (body : ℕ → M P ℕ)
      → ((p : ℕ) → Within C (body p))
      → Within C (with_path path body)
  with_path-Within path body h = Within-vec C (nul_terminated path) body h

  pub open_file-Within :
      (path : Text) (mode : OpenMode)
      → ((p : ℕ) → C (open_call p mode))
      → Within C (open_file {P = P} path mode)
  unfolding open_file
  open_file-Within path mode allowed =
      Within-bind C _ _ (with_path-Within path _ (λ p. Within-do_syscall C _ (allowed p)))
        (λ f s. here)

  pub exit-Within :
      (A : Type 0) (code : ℕ) → C (exit_call code) → Within C (exit {P = P} {A = A} code)
  unfolding exit
  exit-Within A code allowed =
      Within-bind C _ _ (Within-unwrap C _ (Within-do_syscall C _ allowed)) (λ n s. here)

  with_vecs-Within :
      (vs : List (List ℕ)) (body : List ℕ → M P ℕ)
      → ((ps : List ℕ) → Within C (body ps))
      → Within C (with_vecs vs body)
  unfolding with_vecs
  with_vecs-Within [] body h = h []
  with_vecs-Within (v ∷ vs) body h =
      Within-vec C v _ (λ p. with_vecs-Within vs _ (λ ps. h (p ∷ ps)))

  pub exec-Within :
      (path : Text) (argv : List Text)
      → ((p q : ℕ) → C (exec_call p q))
      → Within C (exec {P = P} path argv)
  unfolding exec exec_raw
  exec-Within path argv allowed = with_vecs-Within (map nul_terminated argv) _ (λ ps.
      Within-vec C (words_bytes (ps ++ 0 ∷ [])) _
        (λ q. with_path-Within path _ (λ p. Within-do_syscall C _ (allowed p q))))

  pub ioctl-Within :
      (fd : FileDecstiptor) (op : ℕ) (param : List ℕ) (ptr size : ℕ)
      → ((p : ℕ) → C (ioctl_call fd.inner op p (length param) ptr size))
      → Within C (ioctl {P = P} fd op param ptr size)
  unfolding ioctl
  ioctl-Within fd op param ptr size allowed =
      Within-local C param _ (λ p. Within-do_syscall C _ (allowed p))

  pub chdir-Within :
      (path : Text)
      → ((p : ℕ) → C (chdir_call p (length (as_bytes path))))
      → Within C (chdir {P = P} path)
  unfolding chdir
  chdir-Within path allowed = with_path-Within path _ (λ p. Within-do_syscall C _ (allowed p))

  or_bad_codex-Within : (o : Option Text) → Within C (or_bad_codex {P = P} o)
  or_bad_codex-Within none = λ s. here
  or_bad_codex-Within (some t) = λ s. here

  pub getcwd-Within : ((p : ℕ) → C (getcwd_call p 1024)) → Within C (getcwd {P = P})
  unfolding getcwd getcwd_raw
  getcwd-Within allowed = Within-local C (replicate 1024 0) _ (λ p.
      Within-bind C _ _ (Within-do_syscall C _ (allowed p)) (λ n.
        Within-bind C (load_bytes p 1024) _ (load_bytes-Within C p 1024)
          (λ buffer. or_bad_codex-Within (from_utf8 buffer))))
