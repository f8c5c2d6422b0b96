-- ===== src/Shell/Tests.antt =====
-- Runs of `Command::parse` of parch_utils/shell/src/main.rs.
use parch_testbench.Prelude.{◌≡◌, refl, [], ◌∷◌, codes, Text}
use parch_testbench.Shell.Command.{
  Parse, ok, parse_err, panicked, command, default, file, parse, parse_fuel, parse_found,
  parse_simple, redirections, cut_at, split_at, Command,
}
use parch_testbench.Strings.{
  find, strip_char, trim, trim_start, trim_end, is_whitespace, split, non_empty,
}

-- `parse`, opened for tests.
run : Text → Parse Command
unfolding parse parse_fuel parse_found parse_simple redirections cut_at split_at find strip_char
    trim trim_start trim_end is_whitespace split non_empty
run = parse

run_words :
    run (codes "ls  -l /dev ")
    ≡ ok (command (codes "ls") (codes "-l" ∷ codes "/dev" ∷ []) default default)
unfolding run
run_words = refl

run_input : run (codes "cat < a b ") ≡ ok (command (codes "cat") [] (file (codes "a b")) default)
unfolding run
run_input = refl

run_both : run (codes "cat < a > b") ≡ panicked
unfolding run
run_both = refl

run_pipe : run (codes "ls | cat") ≡ parse_err
unfolding run
run_pipe = refl

run_doubled :
    run (codes "a<b>>c") ≡ ok (command (codes "a") [] (file (codes "b>")) (file (codes "c")))
unfolding run
run_doubled = refl
