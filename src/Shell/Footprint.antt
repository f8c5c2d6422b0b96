-- ===== src/Shell/Footprint.antt =====
-- The system calls of a process that runs parch_utils/shell, from `_start` of usrlib_rust/src/lib.rs
-- on, and of the children that it forks until they run their program.
use parch_testbench.Prelude.{
  ℕ, zero, suc, ◌-◌, ◌^◌, ◌≡◌, refl, true, false, Bool-cases, inl, inr, ◌==◌, if◌then◌else◌, Option,
  none, some, List, ◌∷◌, Text, codes, ltb, replicate, arith,
}
use parch_testbench.Strings.{strip_prefix, starts_with, trim}
use parch_testbench.Types.{FileDecstiptor}
use parch_testbench.Types.OpenMode
use parch_testbench.SyscallNum.{syscall_write, syscall_read, syscall_getcwd, syscall_chdir}
use parch_testbench.Formats.{Formats}
use parch_testbench.Machine.{
  Registers, Platform, Machine, M, pure, panic, message, assertion, unwrap, Attempt, attempt,
  load_word,
}
use parch_testbench.Machine.Arguments.{argument_text}
use parch_testbench.Machine.Arguments.Footprint.{argument_text-Within}
use parch_testbench.Machine.Footprint.{
  Within, After, here, Within-bind, Within-then, Within-if, Within-unwrap, Within-attempt,
  Within-local, load_word-Within, Within-weaken,
}
use parch_testbench.Syscall.{read, read_raw}
use parch_testbench.Syscall.Footprint.{Within-do_syscall}
use parch_testbench.Syscall.Calls.{open_file-Within, getcwd-Within, chdir-Within, exit-Within}
use parch_testbench.Syscall.Process.{exit}
use parch_testbench.Machine.Handled.{Report, handled, Within-handled}
use parch_testbench.Syscall.Files.{open_file, close, getcwd, chdir}
use parch_testbench.FmtIo.{stdin, print, get_line}
use parch_testbench.FmtIo.Footprint.{print-Within, get_line-Within}
use parch_testbench.Shell.Serve.{
  serve_command, serve_cd, stripped, print_time, time_or_dollar, print_header, report, serve_line,
  main_loop, remap_stdin, main, panic_handler,
}
use parch_testbench.Shell.Serve.Footprint.{CommandMay, one_of, command_calls, serve_command-Within}
use parch_testbench.Start.{start}
use parch_testbench.Start.Footprint.{start-Within}

-- Writing goes to the descriptor 1; the other calls are those of commands, reading and asking for the
-- working directory.
abbrev pub StayMay : Registers → Type 0
StayMay r =
    (if r.a7 == syscall_write
      then r.a0 == 1
      else one_of (syscall_read ∷ syscall_getcwd ∷ command_calls) r.a7)
    ≡ true

-- The same, and changing the working directory.
abbrev pub ShellMay : Registers → Type 0
ShellMay r =
    (if r.a7 == syscall_write
      then r.a0 == 1
      else one_of (syscall_chdir ∷ syscall_read ∷ syscall_getcwd ∷ command_calls) r.a7)
    ≡ true

StayMay→ShellMay : (r : Registers) → StayMay r → ShellMay r
StayMay→ShellMay r h = ground (arith, h)

module _ {P : Platform} where
  fd_close-Within : (fd : FileDecstiptor) → Within StayMay (unwrap (close {P = P} fd))
  unfolding close
  fd_close-Within fd = Within-unwrap StayMay (close fd) (Within-do_syscall StayMay _ refl)

  print_time-Within : (f : Formats) (fd : FileDecstiptor) → Within StayMay (print_time {P = P} f fd)
  unfolding print_time read read_raw
  print_time-Within f fd =
      Within-bind StayMay _ _
        (Within-local StayMay (replicate 8 0) _ (λ buf.
          Within-bind StayMay _ _ (Within-unwrap StayMay _ (Within-do_syscall StayMay _ refl)) (λ n.
            Within-if StayMay (n == 8) (load_word buf) (panic assertion)
              (load_word-Within StayMay buf) (λ s. here))))
        (λ epoch.
          Within-bind StayMay (unwrap (close fd)) _ (fd_close-Within fd)
            (λ n. print-Within StayMay (λ p n. refl) _))

  time_or_dollar-Within :
      (f : Formats) (a : Attempt FileDecstiptor) → Within StayMay (time_or_dollar {P = P} f a)
  time_or_dollar-Within f (Attempt.ok fd) = print_time-Within f fd
  time_or_dollar-Within f (Attempt.err e) = print-Within StayMay (λ p n. refl) _

  pub print_header-Within : (f : Formats) → Within StayMay (print_header {P = P} f)
  unfolding print_header
  print_header-Within f =
      Within-bind StayMay (unwrap getcwd) _
        (Within-unwrap StayMay getcwd (getcwd-Within StayMay (λ p. refl)))
        (λ cwd. Within-then StayMay (print _) _ (print-Within StayMay (λ p n. refl) _) (
          Within-bind StayMay (attempt (open_file _ OpenMode.read)) (time_or_dollar f)
            (Within-attempt StayMay (open_file _ OpenMode.read)
              (open_file-Within StayMay _ OpenMode.read (λ p. refl)))
            (time_or_dollar-Within f)))

  pub no_cd-Within :
      (f : Formats) (line : Text)
      → starts_with (codes "cd ") line ≡ false
      → Within StayMay (serve_command {P = P} f line)
  no_cd-Within f line no_cd =
      Within-weaken CommandMay StayMay (λ r h. ground (arith, h)) (serve_command f line)
        (serve_command-Within f line no_cd)

  pub get_line-Stays : (fuel : ℕ) → Within StayMay (get_line {P = P} fuel)
  get_line-Stays fuel = get_line-Within StayMay (λ p n. refl) (λ p. refl) fuel

module _ {P : Platform} where
  may_stay : {A : Type 0} (m : M P A) → Within StayMay m → Within ShellMay m
  may_stay = Within-weaken StayMay ShellMay StayMay→ShellMay

  shown-Within : (pieces : List Text) → Within ShellMay (print {P = P} pieces)
  shown-Within = print-Within ShellMay (λ p n. refl)

  stripped-Within : (o : Option Text) → Within ShellMay (stripped {P = P} o)
  stripped-Within none = λ s. here
  stripped-Within (some t) = λ s. here

  serve_cd-Within : (line : Text) → Within ShellMay (serve_cd {P = P} line)
  unfolding serve_cd
  serve_cd-Within line =
      Within-bind ShellMay (stripped (strip_prefix (codes "cd ") line)) _ (stripped-Within _)
        (λ path.
          Within-bind ShellMay (chdir (trim path)) (λ n. pure tt)
            (chdir-Within ShellMay (trim path) (λ p. refl)) (λ n s. here))

  any_command-Within : (f : Formats) (line : Text) → Within ShellMay (serve_command {P = P} f line)
  any_command-Within f line = elim (Bool-cases (starts_with (codes "cd ") line)) [
    | inl cd ↦ unfold serve_command in rw cd (serve_cd-Within line)
    | inr no_cd ↦ may_stay (serve_command f line) (no_cd-Within f line no_cd)
  ]

  report-Within : (f : Formats) (a : Attempt (Unit {0})) → Within ShellMay (report {P = P} f a)
  report-Within f (Attempt.ok u) = λ s. here
  report-Within f (Attempt.err e) = shown-Within _

  serve_line-Within :
      (f : Formats) (line : Attempt Text) (again : M P (Unit {0}))
      → Within ShellMay again
      → Within ShellMay (serve_line f line again)
  serve_line-Within f (Attempt.ok line) again h =
      Within-bind ShellMay (attempt (serve_command f line)) _
        (Within-attempt ShellMay (serve_command f line) (any_command-Within f line))
        (λ r. Within-then ShellMay (report f r) again (report-Within f r) h)
  serve_line-Within f (Attempt.err e) again h = λ s. here

  main_loop-Within :
      (f : Formats) (rounds fuel : ℕ) → Within ShellMay (main_loop {P = P} f rounds fuel)
  unfolding main_loop
  main_loop-Within f zero fuel = λ s. here
  main_loop-Within f (suc rounds) fuel =
      Within-then ShellMay (print_header f) _ (may_stay (print_header f) (print_header-Within f)) (
        Within-bind ShellMay (attempt (get_line fuel)) _
          (Within-attempt ShellMay (get_line fuel) (may_stay (get_line fuel) (get_line-Stays fuel)))
          (λ line.
            serve_line-Within f line (main_loop f rounds fuel) (main_loop-Within f rounds fuel)))

  remap_stdin-Within :
      (f : Formats) (argv : List (List ℕ)) → Within ShellMay (remap_stdin {P = P} f argv)
  unfolding remap_stdin
  remap_stdin-Within f argv =
      Within-bind ShellMay (unwrap (close stdin)) _
        (may_stay (unwrap (close stdin)) (fd_close-Within stdin))
        (λ n.
          Within-bind ShellMay (argument_text argv 1) _ (argument_text-Within ShellMay argv 1)
            (λ path.
              Within-bind ShellMay (unwrap (open_file path OpenMode.read)) _
                (Within-unwrap ShellMay (open_file path OpenMode.read)
                  (open_file-Within ShellMay path OpenMode.read (λ p. refl)))
                (λ fd.
                  Within-if ShellMay (fd.inner == stdin.inner) (pure tt) (panic message) (λ s. here)
                    (λ s. here))))

  main-Within :
      (f : Formats) (rounds fuel argc : ℕ) (argv : List (List ℕ))
      → Within ShellMay (main {P = P} f rounds fuel argc argv)
  unfolding main
  main-Within f rounds fuel argc argv = Within-then ShellMay (print _) _ (shown-Within _) (
      Within-then ShellMay _ _
        (Within-if ShellMay (ltb 1 argc) (remap_stdin f argv) (pure tt) (remap_stdin-Within f argv)
          (λ s. here))
        (Within-then ShellMay (main_loop f rounds fuel) _ (main_loop-Within f rounds fuel)
          (Within-then ShellMay (print _) (pure 0) (shown-Within _) (λ s. here))))

  panic_handler-Within :
      (f : Formats) (place : Option (Text × ℕ)) (text : Text)
      → Within ShellMay (panic_handler {P = P} f place text)
  unfolding panic_handler
  panic_handler-Within f none text =
      Within-then ShellMay (print _) (exit (2 ^ 64 - 1)) (shown-Within _)
        (exit-Within ShellMay (Unit {0}) (2 ^ 64 - 1) refl)
  panic_handler-Within f (some (name, line)) text =
      Within-then ShellMay (print _) (exit (2 ^ 64 - 1)) (shown-Within _)
        (exit-Within ShellMay (Unit {0}) (2 ^ 64 - 1) refl)

-- Whatever the kernel does, whatever is typed, whatever arguments are passed and however far the
-- process gets, a process that runs the shell from `_start` on, and each child until it runs its
-- program, makes no system calls but these, those of the handler of its panics and of panics in the
-- handler included: writing to the descriptor 1, reading, opening and closing files, fork, waitpid,
-- exec, exit, ioctl, getcwd and chdir. So it deletes no file, makes no directory and sends no signal.
pub only_calls :
    {P : Platform} (f : Formats) (rounds fuel scans argc argv : ℕ) (reports : List Report)
    (s : Machine P)
    → After ShellMay s.kernel
        (handled (panic_handler f) reports (start scans (main f rounds fuel) argc argv) s)
only_calls f rounds fuel scans argc argv reports =
    Within-handled ShellMay (panic_handler f) reports (start scans (main f rounds fuel) argc argv)
      (panic_handler-Within f)
      (start-Within ShellMay scans (main f rounds fuel) argc argv (λ p. refl)
        (main-Within f rounds fuel))
