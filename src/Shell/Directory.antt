-- ===== src/Shell/Directory.antt =====
-- What the commands of parch_utils/shell/src/main.rs leave of the kernel's state as it is: whatever
-- only chdir changes, such as the working directory.
use parch_testbench.Prelude.{ℕ, ◌≡◌, ◌≢◌, false, Text, codes, arith}
use parch_testbench.Strings.{starts_with}
use parch_testbench.SyscallNum.{syscall_chdir}
use parch_testbench.Formats.{Formats}
use parch_testbench.Machine.{
  Registers, back, Platform, Machine, Outcome, value, error, panicked, ended, starved,
}
use parch_testbench.Machine.Blocks.{Memory}
use parch_testbench.Machine.Footprint.{After, Calls-view}
use parch_testbench.Shell.Footprint.{StayMay}
use parch_testbench.Shell.Serve.{serve_command}
use parch_testbench.Shell.Serve.Footprint.{CommandMay, serve_command-Within}

module _ (P : Platform) {V : Type 0} (view : P.Kernel → V) where
  -- The view stays as it is over a call with the registers that comes back.
  abbrev Stays : Registers → Type 0
  Stays r =
      (m m' : Memory) (k k' : P.Kernel) (ret success : ℕ)
      → P.ecall r m k ≡ back ret success m' k'
      → view k' ≡ view k

  -- Only chdir changes the view.
  abbrev pub MovedByChdir : Type 0
  MovedByChdir = (r : Registers) → r.a7 ≢ syscall_chdir → Stays r

  -- Where the process goes on, the view is that of the kernel `k`.
  abbrev pub Unchanged : {A : Type 0} → P.Kernel → Outcome P A → Type 0
  Unchanged k (value a s) = view s.kernel ≡ view k
  Unchanged k (error e s) = view s.kernel ≡ view k
  Unchanged k (panicked x s) = view s.kernel ≡ view k
  Unchanged k (ended k') = Unit
  Unchanged k (starved s) = view s.kernel ≡ view k

  pub After-Unchanged :
      {A : Type 0} (C : Registers → Type 0) (k : P.Kernel) (o : Outcome P A)
      → ((r : Registers) → C r → Stays r)
      → After C k o
      → Unchanged k o
  After-Unchanged C k (value a s) stays h =
      Calls-view view (λ r m m' k1 k2 ret success c. stays r c m m' k1 k2 ret success) h
  After-Unchanged C k (error e s) stays h =
      Calls-view view (λ r m m' k1 k2 ret success c. stays r c m m' k1 k2 ret success) h
  After-Unchanged C k (panicked x s) stays h =
      Calls-view view (λ r m m' k1 k2 ret success c. stays r c m m' k1 k2 ret success) h
  After-Unchanged C k (ended k') stays h = tt
  After-Unchanged C k (starved s) stays h =
      Calls-view view (λ r m m' k1 k2 ret success c. stays r c m m' k1 k2 ret success) h

CommandMay-ne-chdir : (r : Registers) → CommandMay r → r.a7 ≢ syscall_chdir
CommandMay-ne-chdir r c e = ground (arith, c, e)

pub StayMay-ne-chdir : (r : Registers) → StayMay r → r.a7 ≢ syscall_chdir
StayMay-ne-chdir r c e = ground (arith, c, e)

-- What only chdir changes of the kernel, such as the working directory, is the same after a line that
-- does not start with `cd `, whether the command succeeds, fails or panics, and whatever program it
-- runs: in the shell, and in a child that goes on because its program could not be run.
pub serve_command_stays :
    {P : Platform} {V : Type 0} (view : P.Kernel → V) (f : Formats) (line : Text) (s : Machine P)
    → MovedByChdir P view
    → starts_with (codes "cd ") line ≡ false
    → Unchanged P view s.kernel (serve_command f line s)
serve_command_stays {P} view f line s moved no_cd =
    After-Unchanged P view CommandMay s.kernel (serve_command f line s)
      (λ r c. moved r (CommandMay-ne-chdir r c)) (serve_command-Within f line no_cd s)
