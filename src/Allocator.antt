-- ===== src/Allocator.antt =====
-- usrlib_rust/src/allocator.rs, and how a `Vec` takes and gives back its block. The buddy allocator
-- itself is a parameter (`Platform`).
pub mod Laws
use parch_testbench.Prelude.{ℕ, ◌*◌, List, Option, none, some, length}
use parch_testbench.Machine.{
  Platform, Outcome, value, error, panicked, ended, starved, M, out_of_memory, panic,
}
use parch_testbench.Machine.Blocks.{store}

abbrev pub heap_size : ℕ
heap_size = 4096 * 8

module _ {P : Platform} where
  unfoldable pub init_heap : M P (Unit {0})
  init_heap s = value tt (record s { heap = P.init P.heap_space heap_size s.heap })

module _ {P : Platform} {A : Type 0} where
  abbrev pub on_alloc_error : M P A
  on_alloc_error = panic out_of_memory

  -- The block is given back when its owner goes out of scope, also by `?`; a panic does not unwind.
  abbrev pub release : ℕ → ℕ → Outcome P A → Outcome P A
  release p n (value a s) = value a (record s { heap = P.dealloc p n s.heap })
  release p n (error e s) = error e (record s { heap = P.dealloc p n s.heap })
  release p n (panicked x s) = panicked x s
  release p n (ended k) = ended k
  release p n (starved s) = starved s

  abbrev pub in_block : List ℕ → Option (ℕ × P.Heap) → (ℕ → M P A) → M P A
  in_block bytes none body s = on_alloc_error s
  in_block bytes (some (p, h)) body s =
      release p (length bytes) (body p (record s { mem = store s.mem p bytes; heap = h }))

  -- A `Vec<u8>` with these bytes, which lives as long as the body runs.
  unfoldable pub with_vec : List ℕ → (ℕ → M P A) → M P A
  with_vec bytes body s = in_block bytes (P.alloc (length bytes) s.heap) body s
