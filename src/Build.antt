-- ===== src/Build.antt =====
-- usrlib_rust/build.rs, which writes usrlib_rust/src/utils/syscall_num.rs. The rows are what the `csv`
-- crate reads of syscall_num.csv; a file that is open takes all that is written to it. What is
-- printed for cargo is left out.
pub mod Constants
mod Fields
use parch_testbench.Prelude.{
  ℕ, zero, suc, ◌+◌, ◌-◌, Bool, true, false, ◌&&◌, Option, none, some, List, [], ◌∷◌, ◌++◌, map,
  Text, codes, length, replicate, leb, if◌then◌else◌,
}

-- `Result<StringRecord>`
pub data Row : Type 0 where
  row : List Text → Row
  bad_row : Row

-- How the script ends, with the contents of the file.
pub data Build : Type 0 where
  built failed panicked : Text → Build

-- `{:<n}` and `{:>n}`
abbrev pub pad_right : ℕ → Text → Text
pad_right n t = t ++ replicate (n - length t) b' '

abbrev pub pad_left : ℕ → Text → Text
pad_left n t = replicate (n - length t) b' ' ++ t

abbrev pub upper : ℕ → ℕ
upper c = if leb b'a' c && leb c b'z' then c - 32 else c

abbrev pub to_ascii_uppercase : Text → Text
to_ascii_uppercase = map upper

unfoldable pub constant_line : Text → Text → Text
constant_line name number =
    codes "pub const SYSCALL_"
    ++ (pad_right 10 (to_ascii_uppercase name)
        ++ (codes ": usize = " ++ (pad_left 3 number ++ codes ";\n")))

-- `record.get(0).unwrap()`, `record.get(1).unwrap()` and the `writeln!` of the round, before the
-- rounds `rest` on the file that it leaves.
abbrev write_record : Text → (Text → Build) → List Text → Build
write_record fo rest (name ∷ number ∷ fields) = rest (fo ++ constant_line name number)
write_record fo rest (name ∷ []) = panicked fo
write_record fo rest [] = panicked fo

-- The loop over the rows; `fo` is the file so far.
unfoldable pub write_rows : Text → List Row → Build
write_rows fo [] = built fo
write_rows fo (bad_row ∷ rows) = failed fo
write_rows fo (row fields ∷ rows) = write_record fo (λ fo'. write_rows fo' rows) fields

-- The rows if the table can be opened; whether the file can be opened, which truncates it; the file
-- as it was.
unfoldable pub update_syscall_number : Option (List Row) → Bool → Text → Build
update_syscall_number none opens old = failed old
update_syscall_number (some rows) false old = failed old
update_syscall_number (some rows) true old = write_rows [] rows

abbrev unwrapped : Build → Build
unwrapped (built fo) = built fo
unwrapped (failed fo) = panicked fo
unwrapped (panicked fo) = panicked fo

unfoldable pub main : Option (List Row) → Bool → Text → Build
main fi opens old = unwrapped (update_syscall_number fi opens old)
