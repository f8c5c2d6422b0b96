-- ===== src/Syscall/Footprint.antt =====
-- The system calls that the blocks of the allocator and the trap of usrlib_rust/src/syscall.rs make.
use parch_testbench.Prelude.{
  ℕ, ◌≡◌, refl, Bool-cases, inl, inr, ◌==◌, List, length, Option, none, some,
}
use parch_testbench.ErrorNum.{Conversion, ok, err, try_from}
use parch_testbench.Machine.{
  Registers, Trap, back, gone, Platform, Machine, Outcome, value, error, panicked, ended, starved,
  M,
}
use parch_testbench.Machine.Blocks.{store}
use parch_testbench.Machine.Footprint.{Calls, here, next, After, Within}
use parch_testbench.Allocator.{release, in_block, with_vec}
use parch_testbench.Syscall.{do_syscall, returned, error_of, negate}

module _ {P : Platform} (C : Registers → Type 0) where
  released-After :
      {A : Type 0} (k : P.Kernel) (p n : ℕ) (o : Outcome P A)
      → After C k o
      → After C k (release p n o)
  released-After k p n (value a s) h = h
  released-After k p n (error e s) h = h
  released-After k p n (panicked x s) h = h
  released-After k p n (ended k') h = h
  released-After k p n (starved s) h = h

  in_block-Within :
      {A : Type 0} (bytes : List ℕ) (block : Option (ℕ × P.Heap)) (body : ℕ → M P A)
      → ((p : ℕ) → Within C (body p))
      → Within C (in_block bytes block body)
  in_block-Within bytes none body h s = here
  in_block-Within bytes (some (p, heap)) body h s =
      released-After s.kernel p (length bytes) _
        (h p (record s { mem = store s.mem p bytes; heap = heap }))

  pub Within-vec :
      {A : Type 0} (bytes : List ℕ) (body : ℕ → M P A)
      → ((p : ℕ) → Within C (body p))
      → Within C (with_vec bytes body)
  unfolding with_vec
  Within-vec bytes body h s = in_block-Within bytes (P.alloc (length bytes) s.heap) body h s

  error_of-After :
      (k : P.Kernel) (c : Conversion) (s : Machine P)
      → Calls P C k s.kernel
      → After C k (error_of c s)
  error_of-After k (ok e) s h = h
  error_of-After k (err e) s h = h

  returned-After :
      (r : Registers) (s : Machine P) (t : Trap P.Kernel)
      → C r
      → P.ecall r s.mem s.kernel ≡ t
      → After C s.kernel (returned t s)
  returned-After r s (back ret success m k) allowed e =
      let s' : Machine P = record s { mem = m; kernel = k } in
      let made : Calls P C s.kernel k = next r s.mem m ret success here allowed e in
      elim (Bool-cases (success == 0)) [
        | inl z ↦ rw z made
        | inr z ↦ rw z (error_of-After s.kernel (try_from (negate ret)) s' made)
      ]
  returned-After r s (gone k) allowed e = record {
    before = s.kernel;
    registers = r;
    memory = s.mem;
    calls = here;
    allowed = allowed;
    leaves = e;
  }

  pub Within-do_syscall : (r : Registers) → C r → Within C (do_syscall {P = P} r)
  unfolding do_syscall
  Within-do_syscall r allowed s = returned-After r s (P.ecall r s.mem s.kernel) allowed refl
