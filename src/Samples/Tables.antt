-- ===== src/Samples/Tables.antt =====
-- The theorem on the build script of usrlib_rust at a table of two calls.
use parch_testbench.Prelude.{◌≡◌, true, All, some, List, [], ◌∷◌, Text, codes, arith}
use parch_testbench.Strings.{is_whitespace}
use parch_testbench.Build.{built, update_syscall_number}
use parch_testbench.Build.Constants.{
  IsEntry, read_constants, table_rows, table_constants, update_syscall_number_reads,
}

abbrev table : List (Text × Text)
table = (codes "write", codes "1") ∷ (codes "fork", codes "10") ∷ []

table-IsEntry : All IsEntry table
unfolding is_whitespace
table-IsEntry = ground arith

update_syscall_number_reads_example :
    (file : Text) × (update_syscall_number (some (table_rows table)) true (codes "old")
      ≡ built file)
    × (read_constants file ≡ table_constants table)
update_syscall_number_reads_example = update_syscall_number_reads (codes "old") table table-IsEntry
