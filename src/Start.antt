-- ===== src/Start.antt =====
-- usrlib_rust/src/lib.rs: the entry point, which collects the arguments and runs `main`.
pub mod Arguments
pub mod Footprint
use parch_testbench.Prelude.{
  ℕ, zero, suc, ◌+◌, ◌*◌, List, [], ◌∷◌, set, replicate, ltb, ◌==◌, if◌then◌else◌, Option, none,
  some,
}
use parch_testbench.Machine.{
  Platform, M, starved, panic, pure, out_of_bounds, load_word, load_bytes, message, ◌>>=◌, ◌>>◌,
}
use parch_testbench.Machine.Blocks.{Memory}
use parch_testbench.Syscall.Process.{exit}
use parch_testbench.Allocator.{init_heap}

abbrev pub one_more : Option ℕ → Option ℕ
one_more none = none
one_more (some n) = some (suc n)

-- The bytes before the first 0, counted on fuel.
unfoldable pub scan : ℕ → Memory → ℕ → Option ℕ
scan zero m p = none
scan (suc fuel) m p = let rest = one_more (scan fuel m (p + 1)) in if m p == 0 then some 0 else rest

-- The slots of `argv_buf`.
abbrev pub argv_slots : ℕ
argv_slots = 16

-- The one-byte slice that stands in the slots without an argument.
abbrev pub unused : List ℕ
unused = 0 ∷ []

module _ {P : Platform} where
  abbrev pub or_starved : Option ℕ → M P ℕ
  or_starved none = λ s. starved s
  or_starved (some n) = pure n

  unfoldable pub strlen : ℕ → ℕ → M P ℕ
  strlen fuel p s = or_starved (scan fuel s.mem p) s

  -- `from_raw_parts(argv_ptr[i], strlen(argv_ptr[i]))`
  unfoldable pub argument : ℕ → ℕ → ℕ → M P (List ℕ)
  argument fuel argv i = do p ← load_word (argv + 8 * i); n ← strlen fuel p; load_bytes p n

  -- The rounds of `for i in 0..argc` that are left. The right side is computed before the index is
  -- checked.
  unfoldable pub fill : ℕ → ℕ → ℕ → ℕ → List (List ℕ) → M P (List (List ℕ))
  fill fuel argv zero i argv_buf = pure argv_buf
  fill fuel argv (suc left) i argv_buf = do
    a ← argument fuel argv i
    let rest = fill fuel argv left (i + 1) (set argv_buf i a)
    if ltb i argv_slots then rest else panic out_of_bounds

  -- `main` of the user program has the count and the buffer, and returns an exit code.
  unfoldable pub start : ℕ → (ℕ → List (List ℕ) → M P ℕ) → ℕ → ℕ → M P (Unit {0})
  start fuel main argc argv_raw = do
    argv_buf ← fill fuel argv_raw argc 0 (replicate argv_slots unused)
    init_heap
    ret ← main argc argv_buf
    exit ret

  -- The weak `main` that is linked where the program has none.
  unfoldable pub default_main : ℕ → List (List ℕ) → M P ℕ
  default_main argc argv = panic message
