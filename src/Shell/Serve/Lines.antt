-- ===== src/Shell/Serve/Lines.antt =====
-- `serve_command` of parch_utils/shell/src/main.rs: changing the directory, and lines with a pipe.
use parch_testbench.Prelude.{
  ℕ, ◌≡◌, ◌⊎◌, refl, false, inl, inr, ◌∷◌, ◌++◌, Text, codes, Lacks, length,
}
use parch_testbench.Strings.{strip_prefix, starts_with, trim}
use parch_testbench.Utf8.{as_bytes}
use parch_testbench.ErrorNum.{enoexec}
use parch_testbench.Syscall.Calls.{chdir_call}
use parch_testbench.Machine.{Platform, back, Machine, error, panicked, unwrap_failed, pure}
use parch_testbench.Machine.Blocks.{Memory}
use parch_testbench.Allocator.Laws.{AllocLaws, ReturnsAs, ReturnsAs-IsStable, ReturnsAs-bind}
use parch_testbench.Formats.{Formats}
use parch_testbench.Syscall.Files.{chdir}
use parch_testbench.Syscall.Argv.{CString}
use parch_testbench.Syscall.Paths.{path_call}
use parch_testbench.Shell.Command.Returns.{parse_pipe_fails}
use parch_testbench.Shell.Serve.{serve_cd, serve_exec, serve_command}

module _ {P : Platform} (f : Formats) (s : Machine P) where
  -- A line that starts with `cd ` changes to the directory that the rest names, less the white space
  -- around it: where the kernel accepts that path, which holds no NUL, the command succeeds after that
  -- call, or panics for want of memory.
  pub serve_command_cd :
      (laws : AllocLaws P) (t : Text) (ret : ℕ) (k : P.Kernel)
      → Lacks 0 (as_bytes (trim t))
      → ((p : ℕ) (m : Memory)
          → CString m p (as_bytes (trim t))
          → P.ecall (chdir_call p (length (as_bytes (trim t)))) m s.kernel ≡ back ret 0 m k)
      → ReturnsAs laws tt k (serve_command f (codes "cd " ++ t) s)
  unfolding serve_command serve_cd starts_with strip_prefix chdir
  serve_command_cd laws t ret k no_nul served =
      ReturnsAs-bind laws (ReturnsAs laws tt k) (ReturnsAs-IsStable laws tt k) (chdir (trim t))
        (λ n. pure tt) ret k s
        (path_call laws (trim t) (λ p. chdir_call p (length (as_bytes (trim t)))) s ret k no_nul
          served)
        (λ s' same. inl (s', refl, same))

-- A line that is none of the built-in commands.
pub record IsExternal (line : Text) : Type 0 where
  pub no_cd : starts_with (codes "cd ") line ≡ false
  pub no_help : starts_with (codes "help") line ≡ false
  pub no_exit : starts_with (codes "exit") line ≡ false
  pub no_shutdown : starts_with (codes "shutdown") line ≡ false
  pub no_reboot : starts_with (codes "reboot") line ≡ false

module _ {P : Platform} (f : Formats) (s : Machine P) where
  -- A line with a `|` that is no built-in command runs nothing: the machine, the kernel included, stays
  -- as it is, and the command fails with `ENOEXEC` or panics.
  pub serve_command_pipe :
      (e t : Text)
      → Lacks b'|' e
      → IsExternal (e ++ b'|' ∷ t)
      → (serve_command f (e ++ b'|' ∷ t) s ≡ error enoexec s)
        ⊎ (serve_command f (e ++ b'|' ∷ t) s ≡ panicked unwrap_failed s)
  unfolding serve_command serve_exec
  serve_command_pipe e t first external = elim (parse_pipe_fails e t first) [
    | inl refused ↦ inl (
        rw (external.no_cd, external.no_help, external.no_exit)
          (rw (external.no_shutdown, external.no_reboot, refused) refl))
    | inr stopped ↦ inr (
        rw (external.no_cd, external.no_help, external.no_exit)
          (rw (external.no_shutdown, external.no_reboot, stopped) refl))
  ]
