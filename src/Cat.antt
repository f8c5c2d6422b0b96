-- ===== src/Cat.antt =====
-- parch_utils/cat/src/main.rs. Its `Result<(), String>` keeps the cause of the failure apart from the
-- text that is printed for it.
pub mod Footprint
pub mod Reading
pub mod Whole
use parch_testbench.Prelude.{
  ℕ, zero, suc, ◌+◌, ◌-◌, ◌%◌, ◌^◌, List, [], ◌∷◌, ◌++◌, Text, codes, Option, none, some, take,
  replicate, leb, ◌==◌, if◌then◌else◌,
}
use parch_testbench.Utf8.{from_utf8}
use parch_testbench.ErrorNum.{ErrorNum}
use parch_testbench.ErrorNum.Debug.{debug}
use parch_testbench.Types.{FileDecstiptor}
use parch_testbench.Types.OpenMode
use parch_testbench.Machine.{
  Platform, M, pure, panic, out_of_bounds, overflow, starved, with_local, load_bytes, Attempt, ok,
  err, attempt, ◌>>=◌, ◌>>◌,
}
use parch_testbench.Machine.Arguments.{get_elem?}
use parch_testbench.Formats.{Formats}
use parch_testbench.Syscall.{read}
use parch_testbench.Syscall.Files.{open_file}
use parch_testbench.FmtIo.{print}

pub data Failure : Type 0 where
  bad_count : ℕ → Failure
  bad_utf8 : Failure
  open_failed read_failed : ErrorNum → Failure

pub data CatResult (A : Type 0) : Type 0 where
  done : A → CatResult A
  failed : Failure → CatResult A

unfoldable pub describe : Formats → Failure → Text
describe f (bad_count n) =
    codes "Cat only accept 1 argument, but " ++ (f.show_usize n ++ codes " was received.")
describe f bad_utf8 = codes "Illegal utf-8 byte sequence"
describe f (open_failed e) = codes "Failed to open file, syscall return " ++ debug e
describe f (read_failed e) = codes "Read file failed with code " ++ debug e

module _ {P : Platform} where
  -- `buffer[0..length]` panics behind the end of the buffer.
  abbrev pub first_bytes : ℕ → List ℕ → M P (List ℕ)
  first_bytes n buffer = if leb n 128 then pure (take n buffer) else panic out_of_bounds

  -- One read: the bytes that arrived, or none at the end of the file.
  unfoldable pub read_chunk : FileDecstiptor → M P (Option (List ℕ))
  read_chunk fd = with_local (replicate 128 0) (λ p. do
    n ← read fd p 128
    buffer ← load_bytes p 128
    if n == 0 then pure none else (do bytes ← first_bytes n buffer; pure (some bytes)))

  -- `more` is the loop after the bytes were appended.
  abbrev pub extend :
      List ℕ
      → (List ℕ → M P (CatResult (List ℕ)))
      → Attempt (Option (List ℕ))
      → M P (CatResult (List ℕ))
  extend res more (ok none) = pure (done res)
  extend res more (ok (some bytes)) = more (res ++ bytes)
  extend res more (err e) = pure (failed (read_failed e))

  -- The fuel bounds the reads.
  unfoldable pub read_all : ℕ → FileDecstiptor → List ℕ → M P (CatResult (List ℕ))
  read_all zero fd res = λ s. starved s
  read_all (suc fuel) fd res = do
    chunk ← attempt (read_chunk fd)
    extend res (read_all fuel fd) chunk

  -- `loop {}`: the fuel bounds its rounds.
  unfoldable pub spin : ℕ → M P (Unit {0})
  spin zero = λ s. starved s
  spin (suc fuel) = spin fuel

module _ {P : Platform} (f : Formats) where
  abbrev pub show_content : CatResult (List ℕ) → M P (CatResult (Unit {0}))
  show_content (done res) = do
    print (f.lossy res ∷ codes "\n========== EOF ==========\r\n" ∷ [])
    pure (done tt)
  show_content (failed e) = pure (failed e)

  abbrev pub with_file : ℕ → Attempt FileDecstiptor → M P (CatResult (Unit {0}))
  with_file fuel (err e) = pure (failed (open_failed e))
  with_file fuel (ok fd) = do content ← read_all fuel fd []; show_content content

  abbrev pub with_name : ℕ → Option Text → M P (CatResult (Unit {0}))
  with_name fuel none = pure (failed bad_utf8)
  with_name fuel (some path) = do fd ← attempt (open_file path OpenMode.read); with_file fuel fd

  abbrev pub with_argument : ℕ → Option (List ℕ) → M P (CatResult (Unit {0}))
  with_argument fuel none = panic out_of_bounds
  with_argument fuel (some path_bytes) = with_name fuel (from_utf8 path_bytes)

  -- `argc - 1` panics below 0, as in the debug builds of the Makefile.
  unfoldable pub rust_main : ℕ → ℕ → List (List ℕ) → M P (CatResult (Unit {0}))
  rust_main fuel argc argv =
      if argc == 2
      then with_argument fuel (get_elem? argv 1)
      else if argc == 0
      then panic overflow
      else pure (failed (bad_count (argc - 1)))

  abbrev pub exit_code : CatResult (Unit {0}) → M P ℕ
  exit_code (done u) = pure 0
  exit_code (failed e) = do
    print (codes "Cat failed, " ∷ describe f e ∷ codes "\r\n" ∷ [])
    pure (2 ^ 64 - 1)

  unfoldable pub main : ℕ → ℕ → List (List ℕ) → M P ℕ
  main fuel argc argv = do r ← rust_main fuel argc argv; exit_code r

  -- The location is a file with a line where there is one.
  unfoldable pub panic_handler : ℕ → Option (Text × ℕ) → Text → M P (Unit {0})
  panic_handler fuel none e = do print (codes "Shell panicked: " ∷ e ∷ codes "\r\n" ∷ []); spin fuel
  panic_handler fuel (some (name, line)) e = do
    print (
        codes "Shell panicked at "
        ∷ name
        ∷ codes ":"
        ∷ f.show_usize line
        ∷ codes ", "
        ∷ e
        ∷ codes "\r\n"
        ∷ [])
    spin fuel
