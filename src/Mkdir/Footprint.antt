-- ===== src/Mkdir/Footprint.antt =====
-- The system calls of a process that runs parch_utils/mkdir, from `_start` of usrlib_rust/src/lib.rs
-- on.
use parch_testbench.Prelude.{
  ℕ, ◌-◌, ◌^◌, ◌≡◌, refl, true, Option, none, some, ◌==◌, ==_refl, if◌then◌else◌, List, Text,
}
use parch_testbench.SyscallNum.{syscall_mkdir, syscall_write, syscall_exit}
use parch_testbench.Types.Permission
use parch_testbench.Machine.{Registers, Platform, Machine, pure, panic, message, unwrap}
use parch_testbench.Machine.Arguments.{argument_text}
use parch_testbench.Machine.Arguments.Footprint.{argument_text-Within}
use parch_testbench.Machine.Footprint.{
  Within, After, here, Within-bind, Within-then, Within-if, Within-unwrap,
}
use parch_testbench.Syscall.Footprint.{Within-do_syscall}
use parch_testbench.Syscall.Calls.{with_path-Within, exit-Within}
use parch_testbench.Syscall.Files.{mkdir}
use parch_testbench.Formats.{Formats}
use parch_testbench.FmtIo.{print}
use parch_testbench.FmtIo.Footprint.{print-Within}
use parch_testbench.Machine.Handled.{Report, handled, Within-handled}
use parch_testbench.Syscall.Process.{exit}
use parch_testbench.Mkdir.{main, panic_handler}
use parch_testbench.Start.{start}
use parch_testbench.Start.Footprint.{start-Within}

-- Making a directory with the default permissions, writing to the descriptor 1, and exit.
abbrev pub MkdirMay : Registers → Type 0
MkdirMay r =
    (if r.a7 == syscall_mkdir
      then r.a1 == Permission.default
      else if r.a7 == syscall_write
      then r.a0 == 1
      else r.a7 == syscall_exit)
    ≡ true

module _ {P : Platform} where
  mkdir-Within : (path : Text) → Within MkdirMay (mkdir {P = P} path Permission.default)
  unfolding mkdir
  mkdir-Within path =
      with_path-Within MkdirMay path _
        (λ p. Within-do_syscall MkdirMay _ (==_refl Permission.default))

  main-Within : (argc : ℕ) (argv : List (List ℕ)) → Within MkdirMay (main {P = P} argc argv)
  unfolding main
  main-Within argc argv =
      Within-if MkdirMay (argc == 2) _ (panic message)
        (Within-bind MkdirMay (argument_text argv 1) _ (argument_text-Within MkdirMay argv 1)
          (λ path.
            Within-bind MkdirMay (unwrap (mkdir path Permission.default)) (λ n. pure 0)
              (Within-unwrap MkdirMay (mkdir path Permission.default) (mkdir-Within path))
              (λ n s. here)))
        (λ s. here)

module _ {P : Platform} (f : Formats) where
  shown-Within : (pieces : List Text) → Within MkdirMay (print {P = P} pieces)
  shown-Within = print-Within MkdirMay (λ p n. refl)

  panic_handler-Within :
      (place : Option (Text × ℕ)) (text : Text)
      → Within MkdirMay (panic_handler {P = P} f place text)
  unfolding panic_handler
  panic_handler-Within none text =
      Within-then MkdirMay (print _) (exit (2 ^ 64 - 1)) (shown-Within _)
        (exit-Within MkdirMay (Unit {0}) (2 ^ 64 - 1) refl)
  panic_handler-Within (some (name, line)) text =
      Within-then MkdirMay (print _) (exit (2 ^ 64 - 1)) (shown-Within _)
        (exit-Within MkdirMay (Unit {0}) (2 ^ 64 - 1) refl)

-- Whatever the kernel does, whatever arguments it passes and however far the process gets, a process
-- that runs mkdir from `_start` on makes no system calls but these, those of the handler of its panics
-- and of panics in the handler included: making a directory with the default permissions, writing to
-- the descriptor 1, and exit.
pub only_makes :
    {P : Platform} (f : Formats) (scans argc argv : ℕ) (reports : List Report) (s : Machine P)
    → After MkdirMay s.kernel (handled (panic_handler f) reports (start scans main argc argv) s)
only_makes f scans argc argv reports =
    Within-handled MkdirMay (panic_handler f) reports (start scans main argc argv)
      (panic_handler-Within f) (start-Within MkdirMay scans main argc argv (λ p. refl) main-Within)
