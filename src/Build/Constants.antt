-- ===== src/Build/Constants.antt =====
-- The file that usrlib_rust/build.rs writes, against a reader of such constants.
use parch_testbench.Prelude.{
  ℕ, ◌-◌, ◌≡◌, ◌∙◌, refl, sym, ap, true, false, Option, none, some, List, [], ◌∷◌, ◌++◌,
  append_assoc, append-nil, map, Text, codes, All, All-append, Lacks, length, take, drop,
  take-append, drop-append, replicate, arith,
}
use parch_testbench.Strings.{find, strip_prefix, is_whitespace, trim, split, non_empty}
use parch_testbench.Strings.Positions.{find-append}
use parch_testbench.Strings.Split.{split-append}
use parch_testbench.Strings.Trim.{trim_space}
use parch_testbench.Build.Fields.{
  IsToken-Lacks, IsToken-visible, upper-IsToken, trim_right, trim_left, Lacks-spaces, visible-Lacks,
  IsToken,
}
use parch_testbench.Build.{
  Row, row, built, constant_line, to_ascii_uppercase, pad_left, pad_right, write_rows,
  update_syscall_number,
}

-- Reads `pub const SYSCALL_<name>: usize = <number>;`, with spaces around the name and the number.
abbrev value_at : Text → Text → Option ℕ → Option (Text × Text)
value_at name s none = none
value_at name s (some n) = some (name, trim (take n s))

abbrev value_of : Text → Option Text → Option (Text × Text)
value_of name none = none
value_of name (some s) = value_at name s (find b';' s)

abbrev name_at : Text → Option ℕ → Option (Text × Text)
name_at s none = none
name_at s (some n) = value_of (trim (take n s)) (strip_prefix (codes ": usize =") (drop n s))

abbrev name_of : Option Text → Option (Text × Text)
name_of none = none
name_of (some s) = name_at s (find b':' s)

unfoldable pub read_constant : Text → Option (Text × Text)
read_constant s = name_of (strip_prefix (codes "pub const SYSCALL_") s)

-- The constants of a file, one to a line.
unfoldable pub read_constants : Text → List (Option (Text × Text))
read_constants file = map read_constant (non_empty (split b'\n' file))

-- The line without its end.
abbrev line_body : Text → Text → Text
line_body name number =
    codes "pub const SYSCALL_"
    ++ (pad_right 10 (to_ascii_uppercase name)
        ++ (codes ": usize = " ++ (pad_left 3 number ++ codes ";")))

constant_line_lem :
    (name number : Text) → constant_line name number ≡ line_body name number ++ b'\n' ∷ []
unfolding constant_line
constant_line_lem name number = simp append_assoc

abbrev value_rest : Text → Text
value_rest number = codes " usize = " ++ (pad_left 3 number ++ codes ";")

read_value :
    (name number : Text)
    → IsToken b';' number
    → value_of name (strip_prefix (codes ": usize =") (b':' ∷ value_rest number))
      ≡ some (name, number)
unfolding strip_prefix
read_value name number h =
    let spaces : Text = replicate (3 - length number) b' ' in
    let front : Text = b' ' ∷ (spaces ++ number) in
    let none_in : Lacks b';' front =
      All-append _ (b' ' ∷ spaces) number ((omega arith), Lacks-spaces b';' _ (omega arith))
        (IsToken-Lacks b';' number h) in
    rw (find-append b';' front [] none_in, take-append front (b';' ∷ []))
      (ap (λ t. some (name, t))
        (trim_space (spaces ++ number) ∙ trim_left _ number (IsToken-visible b';' number h)))

read_line :
    (name number : Text)
    → IsToken b':' name
    → IsToken b';' number
    → read_constant (line_body name number) ≡ some (to_ascii_uppercase name, number)
unfolding read_constant strip_prefix
read_line name number hn hv =
    let big : Text = to_ascii_uppercase name in
    let token : IsToken b':' big = upper-IsToken name hn in
    let front : Text = pad_right 10 big in
    let none_in : Lacks b':' front =
      All-append _ big _ (IsToken-Lacks b':' big token) (Lacks-spaces b':' _ (omega arith)) in
    rw
      (
        find-append b':' front (value_rest number) none_in,
        take-append front (b':' ∷ value_rest number),
        drop-append front (b':' ∷ value_rest number),
        trim_right (10 - length big) big (IsToken-visible b':' big token),
      )
      (read_value big number hv)

body-Lacks :
    (name number : Text)
    → IsToken b':' name
    → IsToken b';' number
    → Lacks b'\n' (line_body name number)
body-Lacks name number hn hv =
    let big : Text = to_ascii_uppercase name in
    let clear : (w : Text) → All (λ c. is_whitespace c ≡ false) w → Lacks b'\n' w = visible-Lacks in
    let in_name : Lacks b'\n' (pad_right 10 big) =
      All-append _ big _ (clear big (IsToken-visible b':' big (upper-IsToken name hn)))
        (Lacks-spaces b'\n' _ (omega arith)) in
    let in_number : Lacks b'\n' (pad_left 3 number) =
      All-append _ (replicate (3 - length number) b' ') number (Lacks-spaces b'\n' _ (omega arith))
        (clear number (IsToken-visible b';' number hv)) in
    All-append _ (codes "pub const SYSCALL_") _ (omega arith) (
      All-append _ (pad_right 10 big) _ in_name (
        All-append _ (codes ": usize = ") _ (omega arith)
          (All-append _ (pad_left 3 number) (codes ";") in_number (omega arith))))

-- A table of names and numbers as the rows of syscall_num.csv, and as a file.
abbrev pub table_rows : List (Text × Text) → List Row
table_rows [] = []
table_rows ((name, number) ∷ table) = row (name ∷ number ∷ []) ∷ table_rows table

abbrev pub table_file : List (Text × Text) → Text
table_file [] = []
table_file ((name, number) ∷ table) = constant_line name number ++ table_file table

abbrev pub table_constants : List (Text × Text) → List (Option (Text × Text))
table_constants [] = []
table_constants ((name, number) ∷ table) =
    some (to_ascii_uppercase name, number) ∷ table_constants table

abbrev pub IsEntry : Text × Text → Type 0
IsEntry e = IsToken b':' e.0 × IsToken b';' e.1

write_rows_lem :
    (fo : Text) (table : List (Text × Text))
    → write_rows fo (table_rows table) ≡ built (fo ++ table_file table)
unfolding write_rows
write_rows_lem fo [] = ap built (sym (append-nil fo))
write_rows_lem fo ((name, number) ∷ table) =
    write_rows_lem (fo ++ constant_line name number) table
    ∙ ap built (append_assoc fo (constant_line name number) (table_file table))

keep_line :
    (name number : Text) (rest : List Text)
    → non_empty (line_body name number ∷ rest) ≡ line_body name number ∷ non_empty rest
unfolding non_empty
keep_line name number rest = refl

read_file :
    (table : List (Text × Text))
    → All IsEntry table
    → read_constants (table_file table) ≡ table_constants table
unfolding read_constants
read_file [] h = unfold split non_empty in refl
read_file ((name, number) ∷ table) h =
    let line : Text = line_body name number in
    rw
      (
        constant_line_lem name number,
        append_assoc line (b'\n' ∷ []) (table_file table),
        split-append b'\n' line (table_file table) (body-Lacks name number h.0.0 h.0.1),
        keep_line name number (split b'\n' (table_file table)),
        read_line name number h.0.0 h.0.1,
      )
      (ap (λ l. some (to_ascii_uppercase name, number) ∷ l) (read_file table h.1))

-- For a table of names without white space and `:` and numbers without white space and `;`, the script
-- writes a file from which the constants are read back: one for each row of the table, in order, the
-- name in upper case, whatever the file held before.
pub update_syscall_number_reads :
    (old : Text) (table : List (Text × Text))
    → All IsEntry table
    → (file : Text) × (update_syscall_number (some (table_rows table)) true old ≡ built file)
      × (read_constants file ≡ table_constants table)
unfolding update_syscall_number
update_syscall_number_reads old table h =
    (table_file table, write_rows_lem [] table, read_file table h)
