-- ===== src/System.antt =====
-- The programs together: a line of the shell (parch_utils/shell/src/main.rs), the child that `fork`
-- leaves, the program that `exec` loads and its start in usrlib_rust/src/lib.rs.
pub mod Started
use parch_testbench.Prelude.{ℕ, ◌<◌, ◌≡◌, List, ◌∷◌}
use parch_testbench.Machine.{Platform, Machine}
use parch_testbench.FmtIo.Console.{Console}
use parch_testbench.FmtIo.Opens.{Quiet}
use parch_testbench.Syscall.Argv.{Argv, Execs}

-- The kernel starts the program of the path with its arguments in memory, the path being the first, and
-- leaves the terminal alone. A start needs a memory, a heap and the address of the arguments.
pub record Loaded {P : Platform} (execs : Execs P) (c : Console P) (path : List ℕ)
    (argv : List (List ℕ)) (k : P.Kernel) : Type 0 where
  pub image : Machine P
  pub stack : ℕ
  pub arguments : Argv image.mem stack (path ∷ argv)
  pub runs_in : image.kernel ≡ execs.program path argv k
  pub quiet : Quiet c k image.kernel
