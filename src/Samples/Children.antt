-- ===== src/Samples/Children.antt =====
-- The theorems on the shell and its children at concrete lines.
use parch_testbench.Prelude.{ℕ, ◌-◌, ◌%◌, ◌≡◌, ◌≢◌, refl, false, [], ◌∷◌, codes, Lacks, arith}
use parch_testbench.Utf8.{as_bytes, encode_char}
use parch_testbench.ErrorNum.{enoent, code}
use parch_testbench.Types.OpenMode
use parch_testbench.Machine.{Machine, back}
use parch_testbench.Machine.Blocks.{Memory}
use parch_testbench.Allocator.Laws.{FailsAs}
use parch_testbench.Strings.{starts_with, is_whitespace}
use parch_testbench.Syscall.{usize_mod}
use parch_testbench.Syscall.Argv.{CString}
use parch_testbench.Syscall.Paths.{open_call}
use parch_testbench.Shell.Command.{Command, command, default, file}
use parch_testbench.Shell.Command.Words.{IsWord, IsPlain, render, none_given}
use parch_testbench.Shell.Execute.{execute}
use parch_testbench.Shell.Execute.Unopened.{execute-unopened}
use parch_testbench.Shell.Serve.Lines.{IsExternal}
use parch_testbench.Samples.{
  Kernel, platform, fresh_kernel, booted, alloc_laws, files, read_path_lem,
}

-- A program with its input from an absolute path, which is refused.
abbrev from_s : Command
from_s = command (codes "s") [] (file (codes "/s")) default

pub path_bytes : as_bytes (codes "/s") ≡ codes "/s"
unfolding as_bytes encode_char
path_bytes = refl

pub path_text : Lacks 0 (as_bytes (codes "/s"))
path_text = rw path_bytes (omega arith, (omega arith, tt))

s_unopened :
    (p : ℕ) (m : Memory) (k : Kernel)
    → CString m p (as_bytes (codes "/s"))
    → platform.ecall (open_call p OpenMode.read) m k
      ≡ back ((usize_mod - code enoent) % usize_mod) 1 m k
s_unopened p m k string =
    rw (read_path_lem m p (codes "/s") (omega arith) (rw path_bytes at string)) refl

execute-unopened_example :
    FailsAs alloc_laws enoent (files.closed 0 fresh_kernel) (execute from_s (booted fresh_kernel))
unfolding files
execute-unopened_example =
    execute-unopened alloc_laws files enoent (codes "s") (codes "/s") [] default
      (booted fresh_kernel) fresh_kernel (files.closed 0 fresh_kernel) (booted fresh_kernel).mem
      refl tt path_text (λ p m string. s_unopened p m _ string)

-- The child has number 4, and exits with 3.
abbrev parent_machine : Machine platform
parent_machine = booted (record fresh_kernel { forked = 4 })

external : IsExternal (render (codes "/s" ∷ codes "-l" ∷ []) none_given)
unfolding starts_with render
external = record {
  no_cd = refl;
  no_help = refl;
  no_exit = refl;
  no_shutdown = refl;
  no_reboot = refl;
}

pub letter : (c : ℕ) → is_whitespace c ≡ false → c ≢ b'|' → c ≢ b'<' → c ≢ b'>' → IsPlain c
letter c visible not_bar not_in not_out = record {
  visible = visible;
  not_bar = not_bar;
  not_in = not_in;
  not_out = not_out;
}

pub slash_s : IsWord (codes "/s")
unfolding is_whitespace
slash_s = record {
  not_empty = λ e. cc;
  plain = (
    letter b'/' refl (omega arith) (omega arith) (omega arith),
    (letter b's' refl (omega arith) (omega arith) (omega arith), tt),
  );
}

pub dash_l : IsWord (codes "-l")
unfolding is_whitespace
dash_l = record {
  not_empty = λ e. cc;
  plain = (
    letter b'-' refl (omega arith) (omega arith) (omega arith),
    (letter b'l' refl (omega arith) (omega arith) (omega arith), tt),
  );
}
