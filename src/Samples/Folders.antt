-- ===== src/Samples/Folders.antt =====
-- The theorem on sessions with `cd`, at a machine with two directories: `u` leads to `/u` from both.
use parch_testbench.Prelude.{
  ℕ, ◌-◌, ◌%◌, ◌≤◌, ◌≡◌, ◌≢◌, ◌∙◌, refl, sym, Bool, true, false, inl, inr, List, [], ◌∷◌, ◌++◌,
  Text, codes, All, length, arith, ◌==◌, ==_iff, if◌then◌else◌,
}
use parch_testbench.Utf8.{is_char, as_bytes, encode_char}
use parch_testbench.ErrorNum.{enoent, code}
use parch_testbench.Strings.{strip_prefix, trim, trim_start, trim_end, is_whitespace}
use parch_testbench.SyscallNum.{syscall_getcwd, syscall_chdir}
use parch_testbench.Machine.{Registers, Trap, back, gone, Platform, Machine, Attempt, ok, err}
use parch_testbench.Machine.Blocks.{Memory, store, load, load-append}
use parch_testbench.Allocator.Laws.{AllocLaws}
use parch_testbench.Syscall.{usize_mod}
use parch_testbench.Syscall.Argv.{CString}
use parch_testbench.Syscall.Calls.{chdir_call}
use parch_testbench.FmtIo.Console.{Console}
use parch_testbench.FmtIo.Lines.{edit}
use parch_testbench.FmtIo.Printing.{all_bytes}
use parch_testbench.FmtIo.Runs.{ValueWith}
use parch_testbench.FmtIo.Specs.{Shown, Behind, Before}
use parch_testbench.Shell.Directory.{MovedByChdir}
use parch_testbench.Shell.Serve
use parch_testbench.Shell.Serve.Moves.{Folders, Leads, IsHandled, IsCd, IsJourney}
use parch_testbench.Shell.Serve.Moves.Sessions.{main-IsJourney}
use parch_testbench.Shell.Serve.Session.{Entry, IsEntered, line_of, session_input}
use parch_testbench.Shell.Serve.Transcript.{Children}
use parch_testbench.Samples.{alloc_laws, blank, read_path_lem}
use parch_testbench.Samples.Disk.{Disk, serve, disk, at_terminal}
use parch_testbench.Samples.Sessions.{
  clock_bytes, letters, help_keys, asks_help, served_help, help-IsQuiet,
}
use parch_testbench.Types.OpenMode
use parch_testbench.FmtIo.Opens.{RefusesOpen}
use parch_testbench.Shell.Serve.Prompt.{clock_path}

pub record Tree : Type 0 where
  disk : Disk
  inside : Bool

abbrev pub folder : Tree → Text
folder k = if k.inside then codes "/u" else codes "/"

-- The only path that leads anywhere.
abbrev leads_to : List ℕ → Bool
leads_to [] = false
leads_to (b ∷ []) = b == b'u'
leads_to (b ∷ d ∷ bytes) = false

abbrev from_disk : Tree → Trap Disk → Trap Tree
from_disk k (back ret success m d) = back ret success m (record k { disk = d })
from_disk k (gone d) = gone (record k { disk = d })

abbrev change : List ℕ → Memory → Tree → Trap Tree
change path m k =
    if leads_to path
    then back 0 0 m (record k { inside = true })
    else back ((usize_mod - code enoent) % usize_mod) 1 m k

abbrev serve_tree : Registers → Memory → Tree → Trap Tree
serve_tree r m k =
    if r.a7 == syscall_chdir
    then change (load m r.a0 r.a1) m k
    else if r.a7 == syscall_getcwd
    then back 1 0 (store m r.a0 (as_bytes (folder k))) k
    else from_disk k (serve r m k.disk)

abbrev pub tree : Platform
tree = record {
  Kernel = Tree;
  Heap = ℕ;
  ecall = serve_tree;
  alloc = disk.alloc;
  dealloc = disk.dealloc;
  init = disk.init;
  heap_space = disk.heap_space;
  frame = disk.frame;
}

tree_laws : AllocLaws tree
unfolding alloc_laws
tree_laws = record { Live = alloc_laws.Live; fresh = alloc_laws.fresh; apart = alloc_laws.apart }

abbrev tree_console : Console tree
tree_console = record {
  pending = λ k. k.disk.pending;
  shown = λ k. k.disk.shown;
  reads = λ p m k b rest h.
      (record k { disk = record k.disk { pending = rest } }, rw h refl, refl, refl);
  reads_end = λ p m k h. (k, rw h refl, h, refl);
  writes = λ p n m k.
      (record k { disk = record k.disk { shown = k.disk.shown ++ load m p n } }, refl, refl, refl);
}

folder_valid : (b : Bool) → All (λ r. is_char r ≡ true) (if b then codes "/u" else codes "/")
folder_valid true = (refl, (refl, tt))
folder_valid false = (refl, tt)

folder_fits : (b : Bool) → length (as_bytes (if b then codes "/u" else codes "/")) ≤ 1024
unfolding as_bytes encode_char
folder_fits true = omega arith
folder_fits false = omega arith

abbrev entered : Bool → Attempt Text
entered b = if b then ok (codes "/u") else err enoent

string_bytes :
    (m : Memory) (p : ℕ) (bytes : List ℕ) → CString m p bytes → load m p (length bytes) ≡ bytes
string_bytes m p bytes string = (load-append m p bytes (0 ∷ []) string.text).0

change-Leads :
    (path : Text) (p : ℕ) (m : Memory) (k : Tree) (b : Bool)
    → leads_to (load m p (length (as_bytes path))) ≡ b
    → Leads tree_console folder (chdir_call p (length (as_bytes path))) m k (entered b)
change-Leads path p m k true e = (0, record k { inside = true }, rw e refl, (refl, refl), refl)
change-Leads path p m k false e = (k, rw e refl, (refl, refl), refl)

-- The directory behind a trap.
abbrev folder_after : Trap Tree → Text
folder_after (back ret success m k) = folder k
folder_after (gone k) = folder k

from_disk-folder : (k : Tree) (t : Trap Disk) → folder_after (from_disk k t) ≡ folder k
from_disk-folder k (back ret success m d) = refl
from_disk-folder k (gone d) = refl

folder_after-if :
    (b : Bool) (t u : Trap Tree) (there : Text)
    → (b ≡ true → folder_after t ≡ there)
    → folder_after u ≡ there
    → folder_after (if b then t else u) ≡ there
folder_after-if true t u there same other = same refl
folder_after-if false t u there same other = other

serve_tree-folder :
    (r : Registers) (m : Memory) (k : Tree)
    → r.a7 ≢ syscall_chdir
    → folder_after (serve_tree r m k) ≡ folder k
serve_tree-folder r m k not_chdir =
    folder_after-if (r.a7 == syscall_chdir) _ _ (folder k)
      (λ e. absurd (not_chdir ((==_iff r.a7 syscall_chdir).0 e)))
      (folder_after-if (r.a7 == syscall_getcwd) _ _ (folder k) (λ e. refl)
        (from_disk-folder k (serve r m k.disk)))

pub only_chdir : MovedByChdir tree folder
only_chdir r not_chdir m m' k k' ret success e =
    let at : folder_after (serve_tree r m k) ≡ folder k' = rw e refl in
    sym at ∙ serve_tree-folder r m k not_chdir

abbrev tree_folders : Folders tree_console
tree_folders = record {
  cwd = folder;
  enter = λ here path. entered (leads_to (as_bytes path));
  cwd_valid = λ k. folder_valid k.inside;
  cwd_fits = λ k. folder_fits k.inside;
  gives_cwd = λ p m k. (1, k, refl, (refl, refl));
  moves = λ path p m k string.
      change-Leads path p m k (leads_to (as_bytes path))
        (rw (string_bytes m p (as_bytes path) string) refl);
  moved_by_chdir = only_chdir;
}

tree-Children : Children tree_console
tree-Children = record {
  exit_code = λ m k. 3;
  printed = λ m k. b'x' ∷ [];
  forks = λ m k. (
    4,
    4,
    m,
    k,
    record k { disk = record k.disk { shown = k.disk.shown ++ b'x' ∷ [] } },
    refl,
    omega arith,
    omega arith,
    (λ p m'. refl),
    refl,
    refl,
  );
}

clock_missing : RefusesOpen tree_console clock_path OpenMode.read enoent
clock_missing p m k string = (
  k,
  rw (read_path_lem m p clock_path (omega arith) (rw clock_bytes at string)) refl,
  (refl, refl),
)

-- One path that leads to the other directory, and one that leads nowhere.
abbrev goes : Entry
goes = record { typed = codes "cd u"; ending = b'\n' }

abbrev fails : Entry
fails = record { typed = codes "cd  w"; ending = b'\n' }

abbrev entries : List Entry
entries = goes ∷ asks_help ∷ fails ∷ []

goes-IsEntered : IsEntered 9 goes
goes-IsEntered = record {
  short = omega arith;
  goes_on = letters (codes "cd u") (omega arith);
  valid = refl;
  ends = refl;
}

fails-IsEntered : IsEntered 9 fails
fails-IsEntered = record {
  short = omega arith;
  goes_on = letters (codes "cd  w") (omega arith);
  valid = refl;
  ends = refl;
}

goes-IsCd : IsCd (line_of goes)
unfolding edit strip_prefix trim trim_start trim_end is_whitespace as_bytes encode_char
goes-IsCd = (codes "u", refl, omega arith)

fails-IsCd : IsCd (line_of fails)
unfolding edit strip_prefix trim trim_start trim_end is_whitespace as_bytes encode_char
fails-IsCd = (codes "w", refl, omega arith)

handled : All (IsHandled 9) entries
handled = (
  (goes-IsEntered, inr goes-IsCd),
  ((served_help, inl (inl help-IsQuiet)), ((fails-IsEntered, inr fails-IsCd), tt)),
)

-- What is typed.
abbrev keys : List ℕ
keys = codes "cd u\n" ++ (help_keys ++ 13 ∷ codes "cd  w\nl")

-- The tree at whose terminal these are typed.
abbrev pub typing : Machine tree
typing = record {
  mem = λ a. 0;
  heap = 0x10000;
  kernel = record { disk = (at_terminal keys).kernel; inside = false };
}

typed_bytes : session_input entries (codes "l") ≡ keys
unfolding session_input as_bytes encode_char
typed_bytes = refl

main-IsJourney_example :
    ValueWith
      (Shown tree_console
        (Behind (all_bytes (codes "[shell] hello world!\r\n" ∷ [])) (
          Before
            (IsJourney tree-Children tree_folders.enter blank (codes "/") entries (codes "l"))
            (all_bytes (codes "Cannot read further input. Exiting.\r\n" ∷ []))))
        []
        [])
      0
      (Serve.main blank 4 9 1 (as_bytes (codes "sh") ∷ []) typing)
main-IsJourney_example =
    main-IsJourney tree_folders tree_laws (inl (enoent, clock_missing)) tree-Children blank typing 4
      9 1 (as_bytes (codes "sh") ∷ []) entries (codes "l") (omega arith) (omega arith) handled
      (omega arith) (letters (codes "l") (omega arith)) (sym typed_bytes)
