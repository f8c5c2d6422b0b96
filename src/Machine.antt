-- ===== src/Machine.antt =====
-- The machine that the user programs run on, as far as the sources see it. The kernel, the
-- allocator of `alloc` and the compiler's choice of stack addresses are parameters (`Platform`).
-- An action is a Rust function with its effects: it returns, returns `Err`, panics, or leaves the
-- process.
pub mod Arguments
pub mod Blocks
pub mod Buffers
pub mod Footprint
pub mod Handled
use parch_testbench.Prelude.{ℕ, ◌+◌, Option, none, some, List, length}
use parch_testbench.ErrorNum.{ErrorNum}
use Blocks.{Memory, store, load, of_le_bytes}

-- The registers a0 to a5 and a7 at an `ecall`.
pub record Registers : Type 0 where
  pub a0 : ℕ
  pub a1 : ℕ
  pub a2 : ℕ
  pub a3 : ℕ
  pub a4 : ℕ
  pub a5 : ℕ
  pub a7 : ℕ

-- The kernel comes back with a0, a1 and the memory, or never returns to the process.
pub data Trap (K : Type 0) : Type 0 where
  back : ℕ → ℕ → Memory → K → Trap K
  gone : K → Trap K

pub record Platform : Type 1 where
  pub Kernel : Type 0
  pub Heap : Type 0
  pub ecall : Registers → Memory → Kernel → Trap Kernel
  -- `alloc n` is the address of a new block of `n` bytes
  pub alloc : ℕ → Heap → Option (ℕ × Heap)
  pub dealloc : ℕ → ℕ → Heap → Heap
  -- the allocator's `init` with the address and the size of its space
  pub init : ℕ → ℕ → Heap → Heap
  -- the address of the static `HEAP_SPACE`
  pub heap_space : ℕ
  -- the address of a local array of so many bytes
  pub frame : ℕ → ℕ

pub record Machine (P : Platform) : Type 0 where
  pub mem : Memory
  pub heap : P.Heap
  pub kernel : P.Kernel

pub data Panic : Type 0 where
  unwrap_failed fmt_error out_of_bounds overflow out_of_memory assertion not_implemented : Panic
  unwrap_err : ErrorNum → Panic
  message : Panic

pub data Outcome (P : Platform) (A : Type 0) : Type 0 where
  value : A → Machine P → Outcome P A
  error : ErrorNum → Machine P → Outcome P A
  panicked : Panic → Machine P → Outcome P A
  -- the process has exited, or runs another program
  ended : P.Kernel → Outcome P A
  -- the bound on the rounds of a loop was reached, with what was done until then
  starved : Machine P → Outcome P A

abbrev pub M : Platform → Type 0 → Type 0
M P A = Machine P → Outcome P A

module _ {P : Platform} {A : Type 0} where
  abbrev pub pure : A → M P A
  pure a s = value a s

  -- `return Err(e)`
  abbrev pub fail : ErrorNum → M P A
  fail e s = error e s

  abbrev pub panic : Panic → M P A
  panic p s = panicked p s

  abbrev pub unwrapped : Outcome P A → Outcome P A
  unwrapped (value a s) = value a s
  unwrapped (error e s) = panicked (unwrap_err e) s
  unwrapped (panicked p s) = panicked p s
  unwrapped (ended k) = ended k
  unwrapped (starved s) = starved s

  abbrev pub unwrap : M P A → M P A
  unwrap m s = unwrapped (m s)

  -- A local array with these bytes; the body has its address.
  unfoldable pub with_local : List ℕ → (ℕ → M P A) → M P A
  with_local bytes body s =
      let p = P.frame (length bytes) in body p (record s { mem = store s.mem p bytes })

module _ {P : Platform} {A B : Type 0} where
  abbrev pub continue : Outcome P A → (A → M P B) → Outcome P B
  continue (value a s) f = f a s
  continue (error e s) f = error e s
  continue (panicked p s) f = panicked p s
  continue (ended k) f = ended k
  continue (starved s) f = starved s

  -- `let a = m?; …`
  infixl 5 ◌>>=◌ ◌>>◌
  abbrev pub ◌>>=◌ : M P A → (A → M P B) → M P B
  ◌>>=◌ m f s = continue (m s) f

  abbrev pub ◌>>◌ : M P A → M P B → M P B
  m >> n = m >>= λ _. n

-- The bytes of a slice, as they stand when it is read.
unfoldable pub load_bytes : {P : Platform} → ℕ → ℕ → M P (List ℕ)
load_bytes p n s = value (load s.mem p n) s

-- The byte at an address.
unfoldable pub load_byte : {P : Platform} → ℕ → M P ℕ
load_byte p s = value (s.mem p) s

-- A `Result` that is kept as a value, for `if let` and `map_err`.
pub data Attempt (A : Type 0) : Type 0 where
  ok : A → Attempt A
  err : ErrorNum → Attempt A

module _ {P : Platform} {A : Type 0} where
  abbrev pub attempted : Outcome P A → Outcome P (Attempt A)
  attempted (value a s) = value (ok a) s
  attempted (error e s) = value (err e) s
  attempted (panicked p s) = panicked p s
  attempted (ended k) = ended k
  attempted (starved s) = starved s

  abbrev pub attempt : M P A → M P (Attempt A)
  attempt m s = attempted (m s)

-- The little-endian word at an address.
unfoldable pub load_word : {P : Platform} → ℕ → M P ℕ
load_word p s = value (of_le_bytes (load s.mem p 8)) s
