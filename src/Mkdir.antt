-- ===== src/Mkdir.antt =====
-- parch_utils/mkdir/src/main.rs
pub mod Creates
pub mod Footprint
pub mod Refused
use parch_testbench.Prelude.{
  ℕ, ◌-◌, ◌^◌, List, [], ◌∷◌, Option, none, some, Text, codes, ◌==◌, if◌then◌else◌,
}
use parch_testbench.Formats.{Formats}
use parch_testbench.FmtIo.{print}
use parch_testbench.Syscall.Process.{exit}
use parch_testbench.Types.Permission
use parch_testbench.Machine.{Platform, M, pure, panic, unwrap, message, ◌>>=◌, ◌>>◌}
use parch_testbench.Syscall.Files.{mkdir}
use parch_testbench.Machine.Arguments.{argument_text}

-- The end of the format of `println!`.
abbrev line_end : Text
line_end = codes "\r\n"

module _ {P : Platform} where
  unfoldable pub main : ℕ → List (List ℕ) → M P ℕ
  main argc argv =
      if argc == 2
      then (do path ← argument_text argv 1; unwrap (mkdir path Permission.default); pure 0)
      else panic message

  -- The location is a file with a line where there is one.
  unfoldable pub panic_handler : Formats → Option (Text × ℕ) → Text → M P (Unit {0})
  panic_handler f none e = do
    print (codes "Mkdir panicked: " ∷ e ∷ line_end ∷ [])
    exit (2 ^ 64 - 1)
  panic_handler f (some (name, line)) e = do
    print (
        codes "Mkdir panicked at "
        ∷ name
        ∷ codes ":"
        ∷ f.show_usize line
        ∷ codes ", "
        ∷ e
        ∷ line_end
        ∷ [])
    exit (2 ^ 64 - 1)
