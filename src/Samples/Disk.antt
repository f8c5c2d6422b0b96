-- ===== src/Samples/Disk.antt =====
-- A second small platform: a kernel with a terminal, one file and one script, which refuses absolute
-- paths and makes no directory. Its children show a letter and exit with 3.
use parch_testbench.Prelude.{
  codes, ℕ, ◌-◌, ◌%◌, ◌<◌, ◌≤◌, ◌≡◌, ◌≢◌, refl, false, Bool, List, [], ◌∷◌, ◌++◌, length, arith,
  ◌==◌, if◌then◌else◌,
}
use parch_testbench.ErrorNum.{enoent, code}
use parch_testbench.SyscallNum.{
  syscall_write, syscall_read, syscall_open, syscall_getcwd, syscall_exit, syscall_close,
  syscall_fork, syscall_waitpid,
}
use parch_testbench.Types.{from}
use parch_testbench.Machine.{Registers, Trap, back, gone, Platform, Machine}
use parch_testbench.Machine.Blocks.{Memory, store, load, le_bytes}
use parch_testbench.Allocator.Laws.{AllocLaws}
use parch_testbench.Syscall.{usize_mod}
use parch_testbench.Cat.Reading.{Reads, read_call}
use parch_testbench.Cat.Whole.{terminal}
use parch_testbench.FmtIo.Console.{Console}
use parch_testbench.Shell.Serve.Transcript.{Children}
use parch_testbench.Samples.{alloc_laws, new_block, read_path, is_program}

pub record Disk : Type 0 where
  pub pending : List ℕ
  pub shown : List ℕ
  pub file : List ℕ

-- The next byte of a file, and what stores the rest.
abbrev serve_next : List ℕ → (List ℕ → Disk) → ℕ → Memory → Disk → Trap Disk
serve_next [] next p m k = back 0 0 m k
serve_next (b ∷ rest) next p m k = back 1 0 (store m p (b ∷ [])) (next rest)

-- The content of every file.
abbrev pub stored : List ℕ
stored = b'h' ∷ b'i' ∷ []

-- The script: a line that names a program, a blank line and an unfinished one.
abbrev pub script : List ℕ
script = codes "/s -l\n \nl"

-- Paths that begin with `s` are names of the script, which is opened on the descriptor 0.
abbrev is_script : List ℕ → Bool
is_script [] = false
is_script (b ∷ path) = b == b's'

abbrev serve_open : List ℕ → Memory → Disk → Trap Disk
serve_open path m k =
    if is_program path
    then back ((usize_mod - code enoent) % usize_mod) 1 m k
    else if is_script path
    then back 0 0 m (record k { pending = script })
    else back 3 0 m (record k { file = stored })

abbrev pub serve : Registers → Memory → Disk → Trap Disk
serve r m k =
    if r.a7 == syscall_read
    then if r.a0 == 0
      then serve_next k.pending (λ rest. record k { pending = rest }) r.a1 m k
      else serve_next k.file (λ rest. record k { file = rest }) r.a1 m k
    else if r.a7 == syscall_write
    then back r.a2 0 m (record k { shown = k.shown ++ load m r.a1 r.a2 })
    else if r.a7 == syscall_open
    then serve_open (read_path m r.a0) m k
    else if r.a7 == syscall_getcwd
    then back 1 0 (store m r.a0 (b'/' ∷ [])) k
    else if r.a7 == syscall_exit
    then gone k
    else if r.a7 == syscall_close
    then back 0 0 m k
    else if r.a7 == syscall_fork
    then back 4 0 m k
    else if r.a7 == syscall_waitpid
    then back 4 0 (store m r.a1 (le_bytes 8 3)) (record k { shown = k.shown ++ b'x' ∷ [] })
    else back ((usize_mod - code enoent) % usize_mod) 1 m k

abbrev pub disk : Platform
disk = record {
  Kernel = Disk;
  Heap = ℕ;
  ecall = serve;
  alloc = new_block;
  dealloc = λ p n h. h;
  init = λ p n h. p;
  heap_space = 0x10000;
  frame = λ n. 0x7000;
}

-- A machine at whose terminal the bytes are typed.
abbrev pub at_terminal : List ℕ → Machine disk
at_terminal bytes = record {
  mem = λ a. 0;
  heap = 0x10000;
  kernel = record { pending = bytes; shown = []; file = [] };
}

pub disk_laws : AllocLaws disk
unfolding alloc_laws
disk_laws = record { Live = alloc_laws.Live; fresh = alloc_laws.fresh; apart = alloc_laws.apart }

abbrev pub disk_console : Console disk
disk_console = record {
  pending = λ k. k.pending;
  shown = λ k. k.shown;
  reads = λ p m k b rest h. (record k { pending = rest }, rw h refl, refl, refl);
  reads_end = λ p m k h. (k, rw h refl, h, refl);
  writes = λ p n m k. (record k { shown = k.shown ++ load m p n }, refl, refl, refl);
}

unfoldable pub reads_file : Reads disk (from 3) (terminal disk_console)
unfolding from
reads_file = record {
  left = λ k. k.file;
  gives = λ p m k more. first_piece p m k k.file refl more;
  ends = λ p m k end. (k, rw end refl, end, refl);
}
  where
    first_piece :
        (p : ℕ) (m : Memory) (k : Disk) (l : List ℕ)
        → k.file ≡ l
        → k.file ≢ []
        → (piece : List ℕ) × (rest : List ℕ) × (k' : Disk) × (k.file ≡ piece ++ rest)
          × (0 < length piece)
          × (length piece ≤ 128)
          × (serve (read_call (from 3) p) m k ≡ back (length piece) 0 (store m p piece) k')
          × (k'.file ≡ rest)
          × (terminal disk_console k' ≡ terminal disk_console k)
    first_piece p m k [] e more = absurd (more e)
    first_piece p m k (b ∷ rest) e more =
        (b ∷ [], rest, record k { file = rest }, e, omega arith, omega arith, rw e refl, refl, refl)

pub disk-Children : Children disk_console
disk-Children = record {
  exit_code = λ m k. 3;
  printed = λ m k. b'x' ∷ [];
  forks = λ m k. (
    4,
    4,
    m,
    k,
    record k { shown = k.shown ++ b'x' ∷ [] },
    refl,
    omega arith,
    omega arith,
    (λ p m'. refl),
    refl,
    refl,
  );
}
