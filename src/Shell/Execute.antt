-- ===== src/Shell/Execute.antt =====
-- `Command::execute` of parch_utils/shell/src/main.rs.
pub mod Child
pub mod Footprint
pub mod Redirected
pub mod Unopened
use Prim.Native.Nat.{bit_or}
use parch_testbench.Prelude.{ℕ, Text, ◌==◌, if◌then◌else◌}
use parch_testbench.ErrorNum.{enosys}
use parch_testbench.Types.{FileDecstiptor}
use parch_testbench.Types.OpenMode
use parch_testbench.Types.OpenMode.{OpenMode}
use parch_testbench.Machine.{
  Platform, M, pure, fail, panic, not_implemented, message, with_local, load_word, ◌>>=◌, ◌>>◌,
}
use parch_testbench.Machine.Blocks.{le_bytes}
use parch_testbench.Syscall.Files.{open_file, close}
use parch_testbench.Syscall.Process.{fork, exec, waitpid}
use parch_testbench.FmtIo.{stdin, stdout}
use parch_testbench.Shell.Command.{
  Command, IoType, default, file, cmd, exec_path, args, input, output,
}

module _ {P : Platform} where
  -- Closes the descriptor and opens the file, which must take its place.
  unfoldable pub reopen : FileDecstiptor → Text → OpenMode → M P (Unit {0})
  reopen std path mode = do
    close std
    fd ← open_file path mode
    if fd.inner == std.inner then pure tt else panic message

  unfoldable pub redirect_input : IoType → M P (Unit {0})
  redirect_input (file path) = reopen stdin path OpenMode.read
  redirect_input (cmd next) = panic not_implemented
  redirect_input default = pure tt

  -- The second test is on the input, as in the source.
  abbrev pub input_cmd : IoType → M P (Unit {0})
  input_cmd (cmd next) = panic not_implemented
  input_cmd (file path) = pure tt
  input_cmd default = pure tt

  unfoldable pub redirect_output : IoType → IoType → M P (Unit {0})
  redirect_output (file path) i = reopen stdout path (bit_or OpenMode.write OpenMode.create)
  redirect_output (cmd next) i = input_cmd i
  redirect_output default i = input_cmd i

  unfoldable pub child : Command → M P ℕ
  child c = do
    redirect_input (input c)
    redirect_output (output c) (input c)
    exec (exec_path c) (args c)
    fail enosys

  unfoldable pub parent : ℕ → M P ℕ
  parent fork_res =
      with_local (le_bytes 8 0) (λ ret_code. do waitpid fork_res ret_code; load_word ret_code)

  unfoldable pub execute : Command → M P ℕ
  execute c = do fork_res ← fork; if fork_res == 0 then child c else parent fork_res
