-- ===== src/Shell/Serve/Programs.antt =====
-- `serve_command` of parch_utils/shell/src/main.rs at a line that names a program, in the shell's own
-- process.
use parch_testbench.Prelude.{ℕ, ◌^◌, ◌<◌, ◌≡◌, ◌≢◌, ◌∙◌, ap, List, [], ◌∷◌, ◌++◌, Text, codes, All}
use parch_testbench.Machine.{Platform, back, Machine, value}
use parch_testbench.Machine.Blocks.{Memory, store, le_bytes}
use parch_testbench.Formats.{Formats}
use parch_testbench.FmtIo.Console.{Console}
use parch_testbench.FmtIo.Printing.{all_bytes, print_shows}
use parch_testbench.Shell.Command.{command}
use parch_testbench.Shell.Command.Words.{
  IsWord, Redirect, IsRedirect, render, input_of, output_of, parse-render,
}
use parch_testbench.Shell.Execute.Child.{fork_call, waitpid_call, execute-parent}
use parch_testbench.Shell.Serve.{serve_exec, serve_command}
use parch_testbench.Shell.Serve.Lines.{IsExternal}

abbrev pub exit_report : Formats → ℕ → List Text
exit_report f exit_code =
    codes "Program exited with code " ∷ f.show_isize exit_code ∷ codes ".\r\n" ∷ []

module _ {P : Platform} (c : Console P) (f : Formats) (s : Machine P) where
  -- Where a line names a program with arguments and at most one redirection, is no built-in command,
  -- `fork` returns a number other than 0 and `waitpid` of that number stores an exit code, a word, the
  -- command succeeds after it has shown the exit code. It reads nothing itself.
  pub serve_command_runs :
      (w : Text) (ws : List Text) (r : Redirect) (pid exit_code ret : ℕ) (m : Memory)
      (k k' : P.Kernel)
      → All IsWord (w ∷ ws)
      → IsRedirect r
      → IsExternal (render (w ∷ ws) r)
      → pid ≢ 0
      → exit_code < 2 ^ 64
      → P.ecall fork_call s.mem s.kernel ≡ back pid 0 m k
      → ((p : ℕ) (m' : Memory)
          → P.ecall (waitpid_call pid p) m' k ≡ back ret 0 (store m' p (le_bytes 8 exit_code)) k')
      → (s' : Machine P) × (serve_command f (render (w ∷ ws) r) s ≡ value tt s')
        × (c.pending s'.kernel ≡ c.pending k')
        × (c.shown s'.kernel ≡ c.shown k' ++ all_bytes (exit_report f exit_code))
  unfolding serve_command serve_exec
  serve_command_runs w ws r pid exit_code ret m k k' words plain external child_id small forked
        waited =
      let (s1, run, same, heap) =
        execute-parent (command w ws (input_of r) (output_of r)) s pid exit_code ret m k k' child_id
          small forked waited in
      let (s2, shows, left, out) = print_shows c (exit_report f exit_code) s1 in
      (
        s2,
        rw (external.no_cd, external.no_help, external.no_exit)
            (rw (external.no_shutdown, external.no_reboot, parse-render w ws r words plain)
              (rw run shows)),
        left ∙ ap c.pending same,
        rw same at out,
      )
