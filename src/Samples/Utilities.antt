-- ===== src/Samples/Utilities.antt =====
-- The theorems on paths, printing, lines of the shell, cat and mkdir at concrete machines.
use parch_testbench.Prelude.{
  ℕ, ◌≤◌, ◌<◌, ◌≢◌, List, ◌-◌, ◌≡◌, refl, [], ◌∷◌, ◌++◌, map, codes, length, replicate, arith,
}
use parch_testbench.Utf8.{as_bytes, encode_char}
use parch_testbench.Machine.{Machine, back, value}
use parch_testbench.Machine.Blocks.{Memory, store}
use parch_testbench.Types.{FileDecstiptor}
use parch_testbench.Allocator.Laws.{ReturnsAs}
use parch_testbench.Start.{unused}
use parch_testbench.Strings.{starts_with, trim, trim_start, trim_end, is_whitespace}
use parch_testbench.Syscall.Files.{getcwd}
use parch_testbench.Syscall.Cwd.{getcwd_pads}
use parch_testbench.Shell.Serve.Lines.{IsExternal}
use parch_testbench.Cat.Reading.{Reads, read_call}
use parch_testbench.Mkdir
use parch_testbench.Mkdir.Creates.{main_creates}
use parch_testbench.Samples.{
  Kernel, serve, platform, fresh_kernel, booted, alloc_laws, read_path_lem,
}

abbrev machine : Machine platform
machine = booted fresh_kernel

path_bytes : as_bytes (codes "d") ≡ codes "d"
unfolding as_bytes encode_char
path_bytes = refl

root_bytes : as_bytes (codes "/") ≡ codes "/"
unfolding as_bytes encode_char
root_bytes = refl

getcwd_pads_example :
    (s' : Machine platform) × (getcwd machine
      ≡ value (codes "/" ++ replicate (1024 - length (as_bytes (codes "/"))) 0) s')
    × (s'.kernel ≡ fresh_kernel)
getcwd_pads_example =
    getcwd_pads machine (codes "/") 1 fresh_kernel (refl, tt) (rw root_bytes (omega arith))
      (λ p m. rw root_bytes refl)

-- `d` between spaces.
trimmed : trim (codes " d ") ≡ codes "d"
unfolding trim trim_start trim_end is_whitespace
trimmed = refl

external : IsExternal (codes "ls" ++ b'|' ∷ codes "wc")
unfolding starts_with
external = record {
  no_cd = refl;
  no_help = refl;
  no_exit = refl;
  no_shutdown = refl;
  no_reboot = refl;
}

-- The bytes at the terminal as a file, read one at a time.
reads : (fd : FileDecstiptor) → Reads platform fd (λ k. k.shown)
reads fd = record {
  left = λ k. k.pending;
  gives = λ p m k more. first_piece p m k k.pending refl more;
  ends = λ p m k end. (k, rw end refl, end, refl);
}
  where
    first_piece :
        (p : ℕ) (m : Memory) (k : Kernel) (l : List ℕ)
        → k.pending ≡ l
        → k.pending ≢ []
        → (piece : List ℕ) × (rest : List ℕ) × (k' : Kernel) × (k.pending ≡ piece ++ rest)
          × (0 < length piece)
          × (length piece ≤ 128)
          × (serve (read_call fd p) m k ≡ back (length piece) 0 (store m p piece) k')
          × (k'.pending ≡ rest)
          × (k'.shown ≡ k.shown)
    first_piece p m k [] e more = absurd (more e)
    first_piece p m k (b ∷ rest) e more = (
      b ∷ [],
      rest,
      record k { pending = rest },
      e,
      omega arith,
      omega arith,
      rw e refl,
      refl,
      refl,
    )

-- A file of two bytes on descriptor 3.
abbrev two_bytes : Machine platform
two_bytes = booted (record fresh_kernel { pending = codes "hi" })

main_creates_example :
    ReturnsAs alloc_laws 0
      (record fresh_kernel { made = (0o644, codes "d") ∷ [] })
      (Mkdir.main 2 (map as_bytes (codes "m" ∷ codes "d" ∷ []) ++ unused ∷ []) machine)
main_creates_example =
    main_creates alloc_laws machine (codes "m") (codes "d") (unused ∷ []) 0
      (record fresh_kernel { made = (0o644, codes "d") ∷ [] }) (refl, tt)
      (rw path_bytes (omega arith, tt))
      (λ p m string.
        rw (read_path_lem m p (codes "d") (omega arith) (rw path_bytes at string)) refl)
