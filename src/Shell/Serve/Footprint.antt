-- ===== src/Shell/Serve/Footprint.antt =====
-- The system calls that the shell of parch_utils/shell/src/main.rs makes, and what it leaves alone.
use parch_testbench.Prelude.{
  ℕ, ◌≡◌, refl, Bool, true, false, ◌==◌, ◌||◌, if◌then◌else◌, List, [], ◌∷◌, Text, codes,
}
use parch_testbench.Strings.{starts_with}
use parch_testbench.Types.OpenMode
use parch_testbench.Types.OpenMode.{OpenMode}
use parch_testbench.SyscallNum.{
  syscall_write, syscall_open, syscall_close, syscall_fork, syscall_exec, syscall_exit,
  syscall_waitpid, syscall_ioctl,
}
use parch_testbench.Formats.{Formats}
use parch_testbench.Machine.{Registers, Platform, M, pure, unwrap, ◌>>◌}
use parch_testbench.Machine.Footprint.{
  Within, here, Within-bind, Within-then, Within-if, Within-unwrap, Within-local,
}
use parch_testbench.Syscall.Calls.{open_file-Within, exit-Within, ioctl-Within}
use parch_testbench.Syscall.Files.{open_file, ioctl}
use parch_testbench.Syscall.Process.{exit}
use parch_testbench.FmtIo.{print}
use parch_testbench.FmtIo.Footprint.{print-Within}
use parch_testbench.Shell.Command.{Command, Parse, ok, parse_err, panicked, starved, parse}
use parch_testbench.Shell.Execute.{execute}
use parch_testbench.Shell.Execute.Footprint.{execute-Within}
use parch_testbench.Shell.Serve.{
  serve_exit, serve_help, parsed, device_op, serve_shutdown, serve_reboot, serve_exec,
  serve_command,
}

abbrev pub one_of : List ℕ → ℕ → Bool
one_of [] n = false
one_of (m ∷ ms) n = n == m || one_of ms n

abbrev pub command_calls : List ℕ
command_calls =
    syscall_fork ∷ syscall_waitpid ∷ syscall_exec ∷ syscall_open ∷ syscall_close ∷ syscall_ioctl
    ∷ syscall_exit ∷ []

-- Writing goes to the descriptor 1; the other calls are those of the list.
abbrev pub CommandMay : Registers → Type 0
CommandMay r = (if r.a7 == syscall_write then r.a0 == 1 else one_of command_calls r.a7) ≡ true

module _ {P : Platform} where
  shown-Within : (pieces : List Text) → Within CommandMay (print {P = P} pieces)
  shown-Within = print-Within CommandMay (λ p n. refl)

  said-Within :
      {A : Type 0} (pieces : List Text) (m : M P A)
      → Within CommandMay m
      → Within CommandMay (print pieces >> m)
  said-Within pieces m = Within-then CommandMay (print pieces) m (shown-Within pieces)

  serve_exit-Within : (line : Text) → Within CommandMay (serve_exit {P = P} line)
  unfolding serve_exit
  serve_exit-Within line = said-Within _ (exit 0) (exit-Within CommandMay (Unit {0}) 0 refl)

  serve_help-Within : (line : Text) → Within CommandMay (serve_help {P = P} line)
  unfolding serve_help
  serve_help-Within line = said-Within _ _ (
      said-Within _ _
        (said-Within _ _ (said-Within _ _ (said-Within _ _ (said-Within _ _ (shown-Within _))))))

  parsed-Within : (r : Parse Command) → Within CommandMay (parsed {P = P} r)
  parsed-Within (ok c) = λ s. here
  parsed-Within parse_err = λ s. here
  parsed-Within panicked = λ s. here
  parsed-Within starved = λ s. here

  device_op-Within : (path : Text) (res : ℕ) → Within CommandMay (device_op {P = P} path res)
  unfolding device_op
  device_op-Within path res =
      Within-bind CommandMay (unwrap (open_file path OpenMode.read)) _
        (Within-unwrap CommandMay (open_file path OpenMode.read)
          (open_file-Within CommandMay path OpenMode.read (λ p. refl)))
        (λ fd.
          Within-bind CommandMay (ioctl fd 1 [] res 0) (λ n. pure tt)
            (ioctl-Within CommandMay fd 1 [] res 0 (λ p. refl)) (λ n s. here))

  serve_shutdown-Within : (line : Text) → Within CommandMay (serve_shutdown {P = P} line)
  unfolding serve_shutdown
  serve_shutdown-Within line = Within-local CommandMay [] _ (device_op-Within _)

  serve_reboot-Within : (line : Text) → Within CommandMay (serve_reboot {P = P} line)
  unfolding serve_reboot
  serve_reboot-Within line = Within-local CommandMay [] _ (device_op-Within _)

  serve_exec-Within : (f : Formats) (line : Text) → Within CommandMay (serve_exec {P = P} f line)
  unfolding serve_exec
  serve_exec-Within f line =
      Within-bind CommandMay (parsed (parse line)) _ (parsed-Within (parse line)) (λ c.
        Within-bind CommandMay (execute c) _
          (execute-Within CommandMay
            (record {
              forks = refl;
              waits = λ pid p. refl;
              execs = λ p q. refl;
              opens = λ p mode. refl;
              closes = λ fd. refl;
            })
            c)
          (λ ret. print-Within CommandMay (λ p n. refl) _))

  pub serve_command-Within :
      (f : Formats) (line : Text)
      → starts_with (codes "cd ") line ≡ false
      → Within CommandMay (serve_command {P = P} f line)
  unfolding serve_command
  serve_command-Within f line no_cd = rw no_cd (
      Within-if CommandMay (starts_with (codes "help") line) _ _ (serve_help-Within line) (
        Within-if CommandMay (starts_with (codes "exit") line) _ _ (serve_exit-Within line) (
          Within-if CommandMay (starts_with (codes "shutdown") line) _ _
            (serve_shutdown-Within line)
            (Within-if CommandMay (starts_with (codes "reboot") line) _ _ (serve_reboot-Within line)
              (serve_exec-Within f line)))))
