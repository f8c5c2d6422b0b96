-- ===== src/Samples.antt =====
-- A small platform on which the theorems are run: a kernel with a terminal and a table of opened
-- files, and an allocator that never reuses an address.
mod Children
mod Clocked
mod Disk
mod Folders
mod Footprints
mod Images
mod Loading
mod Parser
mod Programs
mod Terminal
mod Sessions
mod Tables
mod Transcripts
mod Utilities
use parch_testbench.Prelude.{
  ℕ, zero, suc, ◌+◌, ◌-◌, ◌%◌, ◌^◌, ◌≤◌, ◌<◌, ◌≡◌, ◌≢◌, refl, Bool, true, false, Bool-cases, ◌⊎◌,
  inl, inr, Option, none, some, List, [], ◌∷◌, ◌++◌, length, take, arith, ltb, ◌&&◌, ◌==◌,
  if◌then◌else◌, Lacks, length-append,
}
use parch_testbench.ErrorNum.{enoent, code}
use parch_testbench.SyscallNum.{
  syscall_write, syscall_read, syscall_open, syscall_close, syscall_fork, syscall_exec,
  syscall_waitpid, syscall_getcwd, syscall_chdir, syscall_mkdir,
}
use parch_testbench.Machine.{Registers, Trap, back, gone, Platform, Machine}
use parch_testbench.Machine.Blocks.{Memory, store, load, le_bytes, load-append}
use parch_testbench.Allocator.Laws.{AllocLaws}
use parch_testbench.Syscall.{usize_mod}
use parch_testbench.Types.{FileDecstiptor}
use parch_testbench.Cat.Reading.{Reads, read_call}
use parch_testbench.Syscall.Argv.{CString, Execs, exec_call}
use parch_testbench.Formats.{Formats}
use parch_testbench.Start.{scan}
use parch_testbench.Start.Arguments.{scan_text}
use parch_testbench.FmtIo.Console.{Console}
use parch_testbench.Shell.Execute.Redirected.{Descriptors}

-- Formats that print nothing.
abbrev pub blank : Formats
blank = record {
  show_usize = λ n. [];
  show_isize = λ n. [];
  show_time = λ n. [];
  lossy = λ bytes. bytes;
  debug_str = λ t. t;
}

pub record Kernel : Type 0 where
  pub pending : List ℕ
  pub shown : List ℕ
  -- what `fork` returns here
  pub forked : ℕ
  pub last_closed : ℕ
  -- the working directory, and the directories made with their permissions
  pub cwd : List ℕ
  pub made : List (ℕ × List ℕ)
  pub table : List (ℕ × List ℕ)
  -- the path of the program that took the place of the process
  pub ran : Option (List ℕ)

-- The bytes of the string at the address, of fewer than 64 bytes.
abbrev pub load_counted : Option ℕ → Memory → ℕ → List ℕ
load_counted none m p = []
load_counted (some n) m p = load m p n

unfoldable pub read_path : Memory → ℕ → List ℕ
read_path m p = load_counted (scan 64 m p) m p

abbrev pub serve_read : List ℕ → ℕ → Memory → Kernel → Trap Kernel
serve_read [] p m k = back 0 0 m k
serve_read (b ∷ rest) p m k = back 1 0 (store m p (b ∷ [])) (record k { pending = rest })

abbrev pub close_file : ℕ → Kernel → Kernel
close_file fd k = record k { last_closed = fd }

abbrev pub open_file : ℕ → List ℕ → Kernel → Kernel
open_file fd path k = record k { table = (fd, path) ∷ k.table }

abbrev pub run_program : List ℕ → Kernel → Kernel
run_program path k = record k { ran = some path }

-- The programs are those of the absolute paths.
abbrev pub is_program : List ℕ → Bool
is_program [] = false
is_program (b ∷ path) = b == b'/'

abbrev pub serve_exec : List ℕ → Bool → Memory → Kernel → Trap Kernel
serve_exec path true m k = gone (run_program path k)
serve_exec path false m k = back ((usize_mod - code enoent) % usize_mod) 1 m k

-- A file that is opened has the descriptor that was closed last; absolute paths are no files.
abbrev serve_open : List ℕ → Bool → Memory → Kernel → Trap Kernel
serve_open path true m k = back ((usize_mod - code enoent) % usize_mod) 1 m k
serve_open path false m k = back k.last_closed 0 m (open_file k.last_closed path k)

abbrev pub serve : Registers → Memory → Kernel → Trap Kernel
serve r m k =
    if r.a7 == syscall_read
    then serve_read k.pending r.a1 m k
    else if r.a7 == syscall_write
    then back r.a2 0 m (record k { shown = k.shown ++ load m r.a1 r.a2 })
    else if r.a7 == syscall_fork
    then back k.forked 0 m k
    else if r.a7 == syscall_waitpid
    then back k.forked 0 (store m r.a1 (le_bytes 8 3)) k
    else if r.a7 == syscall_close
    then back 0 0 m (close_file r.a0 k)
    else if r.a7 == syscall_open
    then serve_open (read_path m r.a0) (is_program (read_path m r.a0)) m k
    else if r.a7 == syscall_getcwd
    then back (length k.cwd) 0 (store m r.a0 k.cwd) k
    else if r.a7 == syscall_chdir
    then back 0 0 m (record k { cwd = read_path m r.a0 })
    else if r.a7 == syscall_mkdir
    then back 0 0 m (record k { made = (r.a1, read_path m r.a0) ∷ k.made })
    else if r.a7 == syscall_exec
    then serve_exec (read_path m r.a0) (is_program (read_path m r.a0)) m k
    else back 5 1 m k

abbrev pub new_block : ℕ → ℕ → Option (ℕ × ℕ)
new_block n h = if ltb 0 h && ltb h (2 ^ 64) then some (h, h + n) else none

abbrev pub platform : Platform
platform = record {
  Kernel = Kernel;
  Heap = ℕ;
  ecall = serve;
  alloc = new_block;
  dealloc = λ p n h. h;
  init = λ p n h. p;
  heap_space = 0x10000;
  frame = λ n. 0x7000;
}

abbrev pub fresh_kernel : Kernel
fresh_kernel = record {
  pending = [];
  shown = [];
  forked = 0;
  last_closed = 9;
  cwd = b'/' ∷ [];
  made = [];
  table = [];
  ran = none;
}

abbrev pub booted : Kernel → Machine platform
booted k = record { mem = λ a. 0; heap = 0x10000; kernel = k }

pub console : Console platform
console = record {
  pending = λ k. k.pending;
  shown = λ k. k.shown;
  reads = λ p m k b rest h. (record k { pending = rest }, rw h refl, refl, refl);
  reads_end = λ p m k h. (k, rw h refl, h, refl);
  writes = λ p n m k. (record k { shown = k.shown ++ load m p n }, refl, refl, refl);
}

pub read_path_lem :
    (m : Memory) (p : ℕ) (path : List ℕ)
    → length path < 64
    → CString m p path
    → read_path m p ≡ path
unfolding read_path
read_path_lem m p path lt s =
    rw (scan_text 64 p m path lt s.no_nul s.text) (load-append m p path (0 ∷ []) s.text).0

pub alloc_laws : AllocLaws platform
alloc_laws = record {
  Live = λ h p n. p + n ≤ h;
  fresh = λ n h p h' e. new_fresh n h p h' e;
  apart = λ n h p h' q k e live. new_apart n h p h' q k e live;
}
  where
    new_block_lem :
        (n h p h' : ℕ)
        → new_block n h ≡ some (p, h')
        → (p ≡ h) × (h' ≡ h + n) × (0 < h) × (h < 2 ^ 64)
    new_block_lem n h p h' e = elim (Bool-cases (ltb 0 h && ltb h (2 ^ 64))) [
      | inl t ↦
          let made : Option (ℕ × ℕ) = some (h, h + n) in
          let same : made ≡ some (p, h') = rw t at e in
          (cc, cc, ground (arith, t), ground (arith, t))
      | inr t ↦ let same : none ≡ some (p, h') = rw t at e in absurd (cc same)
    ]

    new_fresh :
        (n h p h' : ℕ) → new_block n h ≡ some (p, h') → (p + n ≤ h') × (0 < p) × (p < 2 ^ 64)
    new_fresh n h p h' e =
        let (a, b, x, y) = new_block_lem n h p h' e in (omega arith, omega arith, omega arith)

    new_apart :
        (n h p h' q k : ℕ)
        → new_block n h ≡ some (p, h')
        → q + k ≤ h
        → (q + k ≤ h') × ((q + k ≤ p) ⊎ (p + n ≤ q))
    new_apart n h p h' q k e live =
        let (a, b, x, y) = new_block_lem n h p h' e in (omega arith, inl (omega arith))

pub files : Descriptors platform
files = record {
  IsOpen = λ k fd. Unit;
  CanOpen = λ path mode. (length path < 64) × (is_program path ≡ false);
  closed = close_file;
  opened = λ fd path mode k. open_file fd path k;
  closes = λ fd m k h. refl;
  reopens =
      λ fd p mode m k path lower can string. rw (read_path_lem m p path can.0 string, can.1) refl;
  stays = λ fd mode k path j h. tt;
}

pub execs : Execs platform
execs = record {
  IsProgram = λ path. (length path < 64) × (is_program path ≡ true);
  program = λ path argv k. run_program path k;
  runs = λ p q m k path argv h string array. rw (read_path_lem m p path h.0 string, h.1) refl;
}

-- A path that is no program's is refused with `ENOENT`.
pub refuses :
    (p q : ℕ) (m : Memory) (k : Kernel) (path : List ℕ)
    → length path < 64
    → is_program path ≡ false
    → CString m p path
    → serve (exec_call p q) m k ≡ back ((usize_mod - code enoent) % usize_mod) 1 m k
refuses p q m k path lt h string = rw (read_path_lem m p path lt string, h) refl
