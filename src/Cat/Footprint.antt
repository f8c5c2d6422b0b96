-- ===== src/Cat/Footprint.antt =====
-- The system calls that a process running parch_utils/cat makes, from `_start` of
-- usrlib_rust/src/lib.rs on.
use parch_testbench.Prelude.{
  ℕ, zero, suc, ◌≡◌, refl, Bool, true, ◌==◌, if◌then◌else◌, Option, none, some, List, [], ◌++◌,
  Text, leb, replicate, take,
}
use parch_testbench.Types.{FileDecstiptor}
use parch_testbench.Types.OpenMode
use parch_testbench.SyscallNum.{syscall_write, syscall_read, syscall_open, syscall_exit}
use parch_testbench.Formats.{Formats}
use parch_testbench.Utf8.{from_utf8}
use parch_testbench.Machine.{
  Registers, Platform, Machine, M, pure, panic, out_of_bounds, overflow, Attempt, ok, err, attempt,
  load_bytes,
}
use parch_testbench.Machine.Arguments.{get_elem?}
use parch_testbench.Machine.Footprint.{
  After, Within, here, Within-bind, Within-then, Within-if, Within-attempt, Within-local,
  load_bytes-Within,
}
use parch_testbench.Machine.Handled.{Report, handled, Within-handled}
use parch_testbench.Syscall.{read, read_raw}
use parch_testbench.Syscall.Footprint.{Within-do_syscall}
use parch_testbench.Syscall.Calls.{open_file-Within}
use parch_testbench.Syscall.Files.{open_file}
use parch_testbench.FmtIo.{print}
use parch_testbench.FmtIo.Footprint.{print-Within}
use parch_testbench.Cat.{
  CatResult, done, failed, first_bytes, read_chunk, extend, read_all, show_content, with_file,
  with_name, with_argument, rust_main, exit_code, main, spin, panic_handler,
}
use parch_testbench.Start.{start}
use parch_testbench.Start.Footprint.{start-Within}

-- Writing goes to the descriptor 1 and files are opened for reading; else there is reading and exit.
abbrev pub cat_may : Registers → Bool
cat_may r =
    if r.a7 == syscall_write
    then r.a0 == 1
    else if r.a7 == syscall_open
    then r.a1 == OpenMode.read
    else if r.a7 == syscall_read
    then true
    else r.a7 == syscall_exit

abbrev pub CatMay : Registers → Type 0
CatMay r = cat_may r ≡ true

module _ {P : Platform} where
  first_bytes-Within : (n : ℕ) (buffer : List ℕ) → Within CatMay (first_bytes {P = P} n buffer)
  first_bytes-Within n buffer =
      Within-if CatMay (leb n 128) (pure (take n buffer)) (panic out_of_bounds) (λ s. here)
        (λ s. here)

  read_chunk-Within : (fd : FileDecstiptor) → Within CatMay (read_chunk {P = P} fd)
  unfolding read_chunk read read_raw
  read_chunk-Within fd = Within-local CatMay (replicate 128 0) _ (λ p.
      Within-bind CatMay _ _ (Within-do_syscall CatMay _ refl) (λ n.
        Within-bind CatMay (load_bytes p 128) _ (load_bytes-Within CatMay p 128) (λ buffer.
          Within-if CatMay (n == 0) (pure none) _ (λ s. here)
            (Within-bind CatMay (first_bytes n buffer) _ (first_bytes-Within n buffer)
              (λ bytes s. here)))))

  extend-Within :
      (res : List ℕ) (more : List ℕ → M P (CatResult (List ℕ))) (a : Attempt (Option (List ℕ)))
      → ((l : List ℕ) → Within CatMay (more l))
      → Within CatMay (extend res more a)
  extend-Within res more (ok none) h = λ s. here
  extend-Within res more (ok (some bytes)) h = h (res ++ bytes)
  extend-Within res more (err e) h = λ s. here

  read_all-Within :
      (fuel : ℕ) (fd : FileDecstiptor) (res : List ℕ) → Within CatMay (read_all {P = P} fuel fd res)
  unfolding read_all
  read_all-Within zero fd res = λ s. here
  read_all-Within (suc fuel) fd res =
      Within-bind CatMay (attempt (read_chunk fd)) _
        (Within-attempt CatMay (read_chunk fd) (read_chunk-Within fd))
        (λ chunk. extend-Within res (read_all fuel fd) chunk (read_all-Within fuel fd))

module _ {P : Platform} (f : Formats) where
  prints-Within : (pieces : List Text) → Within CatMay (print {P = P} pieces)
  prints-Within = print-Within CatMay (λ p n. refl)

  show_content-Within : (r : CatResult (List ℕ)) → Within CatMay (show_content {P = P} f r)
  show_content-Within (done res) =
      Within-then CatMay (print _) (pure (done tt)) (prints-Within _) (λ s. here)
  show_content-Within (failed e) = λ s. here

  with_file-Within :
      (fuel : ℕ) (a : Attempt FileDecstiptor) → Within CatMay (with_file {P = P} f fuel a)
  with_file-Within fuel (err e) = λ s. here
  with_file-Within fuel (ok fd) =
      Within-bind CatMay (read_all fuel fd []) (show_content f) (read_all-Within fuel fd [])
        show_content-Within

  with_name-Within : (fuel : ℕ) (o : Option Text) → Within CatMay (with_name {P = P} f fuel o)
  with_name-Within fuel none = λ s. here
  with_name-Within fuel (some path) =
      Within-bind CatMay (attempt (open_file path OpenMode.read)) (with_file f fuel)
        (Within-attempt CatMay (open_file path OpenMode.read)
          (open_file-Within CatMay path OpenMode.read (λ p. refl)))
        (with_file-Within fuel)

  with_argument-Within :
      (fuel : ℕ) (o : Option (List ℕ)) → Within CatMay (with_argument {P = P} f fuel o)
  with_argument-Within fuel none = λ s. here
  with_argument-Within fuel (some path_bytes) = with_name-Within fuel (from_utf8 path_bytes)

  exit_code-Within : (r : CatResult (Unit {0})) → Within CatMay (exit_code {P = P} f r)
  exit_code-Within (done u) = λ s. here
  exit_code-Within (failed e) = Within-then CatMay (print _) (pure _) (prints-Within _) (λ s. here)

  main-Within :
      (fuel argc : ℕ) (argv : List (List ℕ)) → Within CatMay (main {P = P} f fuel argc argv)
  unfolding main rust_main
  main-Within fuel argc argv =
      Within-bind CatMay (rust_main f fuel argc argv) (exit_code f)
        (Within-if CatMay (argc == 2) _ _ (with_argument-Within fuel (get_elem? argv 1))
          (Within-if CatMay (argc == 0) (panic overflow) _ (λ s. here) (λ s. here)))
        exit_code-Within

  spin-Within : (fuel : ℕ) → Within CatMay (spin {P = P} fuel)
  unfolding spin
  spin-Within zero s = here
  spin-Within (suc fuel) s = spin-Within fuel s

  panic_handler-Within :
      (fuel : ℕ) (place : Option (Text × ℕ)) (text : Text)
      → Within CatMay (panic_handler {P = P} f fuel place text)
  unfolding panic_handler
  panic_handler-Within fuel none text =
      Within-then CatMay (print _) (spin fuel) (prints-Within _) (spin-Within fuel)
  panic_handler-Within fuel (some (name, line)) text =
      Within-then CatMay (print _) (spin fuel) (prints-Within _) (spin-Within fuel)

-- Whatever the kernel does, whatever arguments it passes and however far the process gets, a process
-- that runs cat from `_start` on makes no system calls but these, those of the handler of its panics
-- and of panics in the handler included: it opens files for reading, reads, writes to the descriptor 1
-- and exits. So it creates no file and runs no program.
pub only_reads :
    {P : Platform} (f : Formats) (fuel scans argc argv : ℕ) (reports : List Report) (s : Machine P)
    → After CatMay s.kernel
        (handled (panic_handler f fuel) reports (start scans (main f fuel) argc argv) s)
only_reads f fuel scans argc argv reports =
    Within-handled CatMay (panic_handler f fuel) reports (start scans (main f fuel) argc argv)
      (panic_handler-Within f fuel)
      (start-Within CatMay scans (main f fuel) argc argv (λ p. refl) (main-Within f fuel))
