-- ===== src/Samples/Footprints.antt =====
-- The theorems on the system calls of the programs, at the sample machines.
use parch_testbench.Prelude.{refl, codes, List, [], ◌∷◌, none, some}
use parch_testbench.Strings.{starts_with}
use parch_testbench.Cat
use parch_testbench.Cat.Footprint.{CatMay, only_reads}
use parch_testbench.Machine.Footprint.{After}
use parch_testbench.Machine.Handled.{Report, handled}
use parch_testbench.Mkdir
use parch_testbench.Mkdir.Footprint.{MkdirMay, only_makes}
use parch_testbench.Shell.Directory.{Unchanged, serve_command_stays}
use parch_testbench.Shell.Footprint.{ShellMay, only_calls}
use parch_testbench.Shell.Serve
use parch_testbench.Start.{start}
use parch_testbench.Samples.{blank}
use parch_testbench.Samples.Folders.{tree, folder, only_chdir, typing}
use parch_testbench.Samples.Loading.{image}

-- A panic at a known place, and one in the handler.
abbrev reports : List Report
reports = (some (codes "main.rs", 31), codes "out of range") ∷ (none, codes "write failed") ∷ []

only_reads_example :
    After CatMay image.kernel
      (handled (Cat.panic_handler blank 4) reports (start 4 (Cat.main blank 4) 2 0x200) image)
only_reads_example = only_reads blank 4 4 2 0x200 reports image

only_makes_example :
    After MkdirMay image.kernel
      (handled (Mkdir.panic_handler blank) reports (start 4 Mkdir.main 2 0x200) image)
only_makes_example = only_makes blank 4 2 0x200 reports image

only_calls_example :
    After ShellMay typing.kernel
      (handled (Serve.panic_handler blank) reports (start 4 (Serve.main blank 4 9) 0 0x200) typing)
only_calls_example = only_calls blank 4 9 4 0 0x200 reports typing

serve_command_stays_example :
    Unchanged tree folder typing.kernel (Serve.serve_command blank (codes "/s -l > o") typing)
unfolding starts_with
serve_command_stays_example =
    serve_command_stays folder blank (codes "/s -l > o") typing only_chdir refl
