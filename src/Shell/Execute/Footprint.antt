-- ===== src/Shell/Execute/Footprint.antt =====
-- The system calls of `Command::execute` of parch_utils/shell/src/main.rs, on both sides of fork.
use Prim.Native.Nat.{bit_or}
use parch_testbench.Prelude.{ℕ, ◌==◌, Text}
use parch_testbench.Types.{FileDecstiptor}
use parch_testbench.Types.OpenMode
use parch_testbench.Types.OpenMode.{OpenMode}
use parch_testbench.Machine.{Registers, Platform, pure, panic, message}
use parch_testbench.Machine.Blocks.{le_bytes}
use parch_testbench.Machine.Footprint.{
  Within, here, Within-bind, Within-then, Within-if, Within-local, load_word-Within,
}
use parch_testbench.Syscall.Footprint.{Within-do_syscall}
use parch_testbench.Syscall.Calls.{open_file-Within, exec-Within}
use parch_testbench.Syscall.Files.{open_file, close}
use parch_testbench.Syscall.Process.{fork, exec, waitpid}
use parch_testbench.Syscall.Paths.{open_call, close_call}
use parch_testbench.Syscall.Argv.{exec_call}
use parch_testbench.FmtIo.{stdin, stdout}
use parch_testbench.Shell.Command.{
  Command, IoType, default, file, cmd, exec_path, args, input, output,
}
use parch_testbench.Shell.Execute.{
  reopen, redirect_input, redirect_output, input_cmd, child, parent, execute,
}
use parch_testbench.Shell.Execute.Child.{fork_call, waitpid_call}

-- The calls that running a command takes.
pub record RunsCommands (C : Registers → Type 0) : Type 0 where
  pub forks : C fork_call
  pub waits : (pid p : ℕ) → C (waitpid_call pid p)
  pub execs : (p q : ℕ) → C (exec_call p q)
  pub opens : (p mode : ℕ) → C (open_call p mode)
  pub closes : (fd : ℕ) → C (close_call fd)

module _ {P : Platform} (C : Registers → Type 0) (runs : RunsCommands C) where
  open runs use {forks, waits, execs, opens, closes}

  pub close-Within : (fd : FileDecstiptor) → Within C (close {P = P} fd)
  unfolding close
  close-Within fd = Within-do_syscall C _ (closes fd.inner)

  reopen-Within :
      (std : FileDecstiptor) (path : Text) (mode : OpenMode)
      → Within C (reopen {P = P} std path mode)
  unfolding reopen
  reopen-Within std path mode = Within-bind C (close std) _ (close-Within std) (λ n.
      Within-bind C (open_file path mode) _ (open_file-Within C path mode (λ p. opens p mode))
        (λ fd.
          Within-if C (fd.inner == std.inner) (pure tt) (panic message) (λ s. here) (λ s. here)))

  redirect_input-Within : (i : IoType) → Within C (redirect_input {P = P} i)
  unfolding redirect_input
  redirect_input-Within (file path) = reopen-Within stdin path OpenMode.read
  redirect_input-Within (cmd n) = λ s. here
  redirect_input-Within default = λ s. here

  input_cmd-Within : (i : IoType) → Within C (input_cmd {P = P} i)
  input_cmd-Within (file path) = λ s. here
  input_cmd-Within (cmd n) = λ s. here
  input_cmd-Within default = λ s. here

  redirect_output-Within : (o i : IoType) → Within C (redirect_output {P = P} o i)
  unfolding redirect_output
  redirect_output-Within (file path) i =
      reopen-Within stdout path (bit_or OpenMode.write OpenMode.create)
  redirect_output-Within (cmd n) i = input_cmd-Within i
  redirect_output-Within default i = input_cmd-Within i

  child-Within : (c : Command) → Within C (child {P = P} c)
  unfolding child
  child-Within c = Within-then C (redirect_input (input c)) _ (redirect_input-Within (input c)) (
      Within-then C (redirect_output (output c) (input c)) _
        (redirect_output-Within (output c) (input c))
        (Within-bind C (exec (exec_path c) (args c)) _ (exec-Within C (exec_path c) (args c) execs)
          (λ n s. here)))

  parent-Within : (pid : ℕ) → Within C (parent {P = P} pid)
  unfolding parent waitpid
  parent-Within pid =
      Within-local C (le_bytes 8 0) _
        (λ p. Within-bind C _ _ (Within-do_syscall C _ (waits pid p)) (λ n. load_word-Within C p))

  pub execute-Within : (c : Command) → Within C (execute {P = P} c)
  unfolding execute fork
  execute-Within c =
      Within-bind C _ _ (Within-do_syscall C _ forks)
        (λ pid. Within-if C (pid == 0) (child c) (parent pid) (child-Within c) (parent-Within pid))
