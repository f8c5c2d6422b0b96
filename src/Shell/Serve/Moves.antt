-- ===== src/Shell/Serve/Moves.antt =====
-- Sessions of parch_utils/shell/src/main.rs in which `cd` changes the directory that the prompt names:
-- what the kernel has to do, and what the terminal may show.
pub mod Chdir
pub mod Sessions
pub mod Stays
pub mod Steps
use parch_testbench.Prelude.{
  ℕ, ◌-◌, ◌%◌, ◌≤◌, ◌≡◌, ◌⊎◌, true, Option, none, some, List, [], ◌∷◌, ◌++◌, Text, codes, All,
  Lacks, length,
}
use parch_testbench.Utf8.{is_char, as_bytes}
use parch_testbench.Strings.{strip_prefix, trim}
use parch_testbench.ErrorNum.{code}
use parch_testbench.ErrorNum.Debug.{debug}
use parch_testbench.Machine.{Platform, Registers, back, Attempt, ok, err}
use parch_testbench.Machine.Blocks.{Memory, store}
use parch_testbench.Formats.{Formats}
use parch_testbench.Syscall.{usize_mod}
use parch_testbench.Syscall.Argv.{CString}
use parch_testbench.Syscall.Calls.{chdir_call}
use parch_testbench.Syscall.Cwd.{getcwd_call}
use parch_testbench.FmtIo.Console.{Console}
use parch_testbench.FmtIo.Lines.{echo, echo_edit}
use parch_testbench.FmtIo.Opens.{Quiet}
use parch_testbench.FmtIo.Printing.{all_bytes}
use parch_testbench.FmtIo.Specs.{Then, Behind}
use parch_testbench.Shell.Directory.{MovedByChdir}
use parch_testbench.Shell.Serve.{ln}
use parch_testbench.Shell.Serve.Clock.{IsPromptAt}
use parch_testbench.Shell.Serve.Replies.{IsQuiet}
use parch_testbench.Shell.Serve.Session.{Entry, line_of, IsEntered}
use parch_testbench.Shell.Serve.Transcript.{Children, IsProgram, IsReply}

-- The directory behind a chdir that led to another or failed.
abbrev pub next_folder : Text → Attempt Text → Text
next_folder path (ok other) = other
next_folder path (err e) = path

module _ {P : Platform} (c : Console P) (cwd : P.Kernel → Text) where
  -- The kernel serves the call as the directory structure says, without a change of the terminal.
  abbrev pub Leads : Registers → Memory → P.Kernel → Attempt Text → Type 0
  Leads r m k (ok path) =
      (ret : ℕ) × (k' : P.Kernel) × (P.ecall r m k ≡ back ret 0 m k')
      × Quiet c k k'
      × (cwd k' ≡ path)
  Leads r m k (err e) =
      (k' : P.Kernel) × (P.ecall r m k ≡ back ((usize_mod - code e) % usize_mod) 1 m k')
      × Quiet c k k'
      × (cwd k' ≡ cwd k)

-- A kernel that knows the working directory. Only chdir changes it, and goes where `enter` says that a
-- path leads from a directory.
pub record Folders {P : Platform} (c : Console P) : Type 0 where
  pub cwd : P.Kernel → Text
  pub enter : Text → Text → Attempt Text
  pub cwd_valid : (k : P.Kernel) → All (λ r. is_char r ≡ true) (cwd k)
  pub cwd_fits : (k : P.Kernel) → length (as_bytes (cwd k)) ≤ 1024
  pub gives_cwd :
      (p : ℕ) (m : Memory) (k : P.Kernel)
      → (ret : ℕ) × (k' : P.Kernel) × (P.ecall (getcwd_call p 1024) m k
          ≡ back ret 0 (store m p (as_bytes (cwd k))) k')
        × Quiet c k k'
  pub moves :
      (path : Text) (p : ℕ) (m : Memory) (k : P.Kernel)
      → CString m p (as_bytes path)
      → Leads c cwd (chdir_call p (length (as_bytes path))) m k (enter (cwd k) path)
  pub moved_by_chdir : MovedByChdir P cwd

-- The path that a `cd` line names.
abbrev trimmed : Option Text → Option Text
trimmed none = none
trimmed (some t) = some (trim t)

abbrev pub destination : Text → Option Text
destination line = trimmed (strip_prefix (codes "cd ") line)

-- A `cd` line whose path holds no NUL.
abbrev pub IsCd : Text → Type 0
IsCd line = (path : Text) × (destination line ≡ some path) × Lacks 0 (as_bytes path)

-- A line of white space, or one that begins with `help`, names a program or is a `cd` line.
abbrev pub IsHandled : ℕ → Entry → Type 0
IsHandled fuel e =
    IsEntered fuel e × ((IsQuiet (line_of e) ⊎ IsProgram (line_of e)) ⊎ IsCd (line_of e))

module _ (enter : Text → Text → Attempt Text) where
  -- Where a line leads from a directory.
  abbrev moved : Text → Option Text → Text
  moved path none = path
  moved path (some other) = next_folder path (enter path other)

  abbrev pub folder_behind : Text → Text → Text
  folder_behind path line = moved path (destination line)

  -- What the shell shows for a `cd` line.
  abbrev pub cd_reply : Attempt Text → List ℕ
  cd_reply (ok path) = []
  cd_reply (err e) = all_bytes (codes "Command failed with " ∷ debug e ∷ ln (codes ".") ∷ [])

module _ {P : Platform} {c : Console P} (children : Children c)
    (enter : Text → Text → Attempt Text) where
  -- What the terminal may show for a line in a directory.
  abbrev Answered : Formats → Text → Text → Option Text → List ℕ → Type 0
  Answered f path line none out = IsReply children f line out
  Answered f path line (some other) out = out ≡ cd_reply enter (enter path other)

  abbrev pub IsAnswer : Formats → Text → Text → List ℕ → Type 0
  IsAnswer f path line = Answered f path line (destination line)

  -- What the terminal may show of a session that begins in a directory: for each entry the prompt that
  -- names the directory, the echo and an answer, then the prompt in the last directory and the echo of
  -- what is typed last.
  unfoldable pub IsJourney : Formats → Text → List Entry → Text → List ℕ → Type 0
  IsJourney f path [] last = Then (IsPromptAt f path) (λ out. out ≡ echo_edit [] last)
  IsJourney f path (e ∷ entries) last = Then (IsPromptAt f path) (
      Behind (echo_edit [] e.typed ++ echo e.ending) (
        Then (IsAnswer f path (line_of e))
          (IsJourney f (folder_behind enter path (line_of e)) entries last)))
