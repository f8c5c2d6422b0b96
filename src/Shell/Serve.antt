-- ===== src/Shell/Serve.antt =====
-- The built-in commands, the prompt and the loop of parch_utils/shell/src/main.rs.
pub mod Blank
pub mod Clock
pub mod Exits
pub mod Footprint
pub mod Lines
pub mod Moves
pub mod Panics
pub mod Programs
pub mod Prompt
pub mod Replies
pub mod Scripts
pub mod Session
pub mod Transcript
use parch_testbench.Prelude.{
  ℕ, zero, suc, ◌^◌, ◌-◌, List, [], ◌∷◌, ◌++◌, Text, codes, replicate, ltb, ◌==◌, Option, none,
  some, if◌then◌else◌,
}
use parch_testbench.Strings.{strip_prefix, starts_with, trim}
use parch_testbench.ErrorNum.{enoexec}
use parch_testbench.ErrorNum.Debug.{debug}
use parch_testbench.Types.{FileDecstiptor}
use parch_testbench.Types.OpenMode
use parch_testbench.Machine.{
  Platform, M, pure, fail, panic, unwrap, unwrap_failed, assertion, message, starved, with_local,
  load_word, Attempt, attempt, ◌>>=◌, ◌>>◌,
}
use parch_testbench.Machine.Arguments.{argument_text}
use parch_testbench.Formats.{Formats}
use parch_testbench.Syscall.{read}
use parch_testbench.Syscall.Files.{open_file, close, chdir, getcwd, ioctl}
use parch_testbench.Syscall.Process.{exit}
use parch_testbench.FmtIo.{stdin, print, get_line}
use parch_testbench.Shell.Command.{
  Command, Parse, ok, parse_err, panicked, starved as no_fuel, parse,
}
use parch_testbench.Shell.Execute.{execute}

-- A literal with the line end of `println!`.
abbrev pub ln : Text → Text
ln t = t ++ 13 ∷ 10 ∷ []

module _ {P : Platform} where
  abbrev pub println : Text → M P (Unit {0})
  println t = print (ln t ∷ [])

  abbrev pub stripped : Option Text → M P Text
  stripped none = panic unwrap_failed
  stripped (some t) = pure t

  unfoldable pub serve_cd : Text → M P (Unit {0})
  serve_cd line = do path ← stripped (strip_prefix (codes "cd ") line); chdir (trim path); pure tt

  unfoldable pub serve_exit : Text → M P (Unit {0})
  serve_exit line = do println (codes "Bye."); exit 0

  unfoldable pub serve_help : Text → M P (Unit {0})
  serve_help line = do
    println (codes "Built-in commands:")
    println (codes "\tcd [dir]\t: change current working directory.")
    println (codes "\thelp\t: display help message.")
    println (codes "\tshutdown\t: shutdown the computer.")
    println (codes "\treboot\t: reboot the computer.")
    println (codes "\texit\t: exit shell.")
    println (codes "\nPlease enter built-in commands, or path to elf file to execute.")

  -- `Command::parse(cmd).map_err(|_| ErrorNum::ENOEXEC)?`
  abbrev pub parsed : Parse Command → M P Command
  parsed (ok c) = pure c
  parsed parse_err = fail enoexec
  parsed panicked = panic unwrap_failed
  parsed no_fuel = λ s. starved s

  -- `ioctl(fd, 1, (), &mut ())?` on a device, whose result takes no room at some address.
  unfoldable pub device_op : Text → ℕ → M P (Unit {0})
  device_op path res = do fd ← unwrap (open_file path OpenMode.read); ioctl fd 1 [] res 0; pure tt

  unfoldable pub serve_shutdown : Text → M P (Unit {0})
  serve_shutdown line = with_local [] (device_op (codes "/dev/poweroff"))

  unfoldable pub serve_reboot : Text → M P (Unit {0})
  serve_reboot line = with_local [] (device_op (codes "/dev/reboot"))

module _ {P : Platform} (f : Formats) where
  unfoldable pub serve_exec : Text → M P (Unit {0})
  serve_exec line = do
    c ← parsed (parse line)
    ret ← execute c
    print (codes "Program exited with code " ∷ f.show_isize ret ∷ ln (codes ".") ∷ [])

  unfoldable pub serve_command : Text → M P (Unit {0})
  serve_command line =
      if starts_with (codes "cd ") line
      then serve_cd line
      else if starts_with (codes "help") line
      then serve_help line
      else if starts_with (codes "exit") line
      then serve_exit line
      else if starts_with (codes "shutdown") line
      then serve_shutdown line
      else if starts_with (codes "reboot") line
      then serve_reboot line
      else serve_exec line

  -- The time of the clock device, which is closed before it is printed.
  unfoldable pub print_time : FileDecstiptor → M P (Unit {0})
  print_time fd = do
    epoch ←
        with_local (replicate 8 0)
          (λ buf. do n ← unwrap (read fd buf 8); if n == 8 then load_word buf else panic assertion)
    unwrap (close fd)
    print (codes " " ∷ f.show_time epoch ∷ codes " $ " ∷ [])

  abbrev pub time_or_dollar : Attempt FileDecstiptor → M P (Unit {0})
  time_or_dollar (Attempt.ok fd) = print_time fd
  time_or_dollar (Attempt.err e) = print (codes " $ " ∷ [])

  unfoldable pub print_header : M P (Unit {0})
  print_header = do
    cwd ← unwrap getcwd
    print (codes "[ " ∷ cwd ∷ codes " ]" ∷ [])
    clock ← attempt (open_file (codes "/dev/rtc@101000") OpenMode.read)
    time_or_dollar clock

  abbrev pub report : Attempt (Unit {0}) → M P (Unit {0})
  report (Attempt.ok u) = pure tt
  report (Attempt.err e) = print (codes "Command failed with " ∷ debug e ∷ ln (codes ".") ∷ [])

  -- One line that was read, or none: `again` is the rest of the loop.
  abbrev pub serve_line : Attempt Text → M P (Unit {0}) → M P (Unit {0})
  serve_line (Attempt.ok line) again = do r ← attempt (serve_command line); report r; again
  serve_line (Attempt.err e) again = pure tt

  -- The loop of `main`: `rounds` bounds its rounds, `fuel` the characters of a line.
  unfoldable pub main_loop : ℕ → ℕ → M P (Unit {0})
  main_loop zero fuel = λ s. starved s
  main_loop (suc rounds) fuel = do
    print_header
    line ← attempt (get_line fuel)
    serve_line line (main_loop rounds fuel)

  unfoldable pub remap_stdin : List (List ℕ) → M P (Unit {0})
  remap_stdin argv = do
    unwrap (close stdin)
    path ← argument_text argv 1
    fd ← unwrap (open_file path OpenMode.read)
    if fd.inner == stdin.inner then pure tt else panic message

  unfoldable pub main : ℕ → ℕ → ℕ → List (List ℕ) → M P ℕ
  main rounds fuel argc argv = do
    println (codes "[shell] hello world!")
    if ltb 1 argc then remap_stdin argv else pure tt
    main_loop rounds fuel
    println (codes "Cannot read further input. Exiting.")
    pure 0

  -- The location is a file with a line where there is one.
  unfoldable pub panic_handler : Option (Text × ℕ) → Text → M P (Unit {0})
  panic_handler none e = do print (codes "Shell panicked: " ∷ e ∷ ln [] ∷ []); exit (2 ^ 64 - 1)
  panic_handler (some (name, line)) e = do
    print (
        codes "Shell panicked at "
        ∷ name
        ∷ codes ":"
        ∷ f.show_usize line
        ∷ codes ", "
        ∷ e
        ∷ ln []
        ∷ [])
    exit (2 ^ 64 - 1)
