-- ===== src/Start/Footprint.antt =====
-- The system calls that `_start` of usrlib_rust/src/lib.rs makes: those of `main`, and exit.
use parch_testbench.Prelude.{ℕ, zero, suc, ◌+◌, ◌*◌, List, Option, none, some, replicate, ltb, set}
use parch_testbench.Machine.{Registers, Platform, M, panic, out_of_bounds, load_word, load_bytes}
use parch_testbench.Machine.Footprint.{
  Within, here, Within-bind, Within-then, Within-if, load_word-Within, load_bytes-Within,
}
use parch_testbench.Allocator.{init_heap}
use parch_testbench.Syscall.Calls.{exit_call, exit-Within}
use parch_testbench.Syscall.Process.{exit}
use parch_testbench.Start.{start, fill, argument, strlen, scan, or_starved, argv_slots, unused}

module _ {P : Platform} (C : Registers → Type 0) where
  or_starved-Within : (o : Option ℕ) → Within C (or_starved {P = P} o)
  or_starved-Within none = λ s. here
  or_starved-Within (some n) = λ s. here

  argument-Within : (fuel argv i : ℕ) → Within C (argument {P = P} fuel argv i)
  unfolding argument strlen
  argument-Within fuel argv i =
      Within-bind C (load_word (argv + 8 * i)) _ (load_word-Within C (argv + 8 * i)) (λ p.
        Within-bind C (strlen fuel p) (load_bytes p) (λ s. or_starved-Within (scan fuel s.mem p) s)
          (load_bytes-Within C p))

  fill-Within :
      (fuel argv left i : ℕ) (buf : List (List ℕ)) → Within C (fill {P = P} fuel argv left i buf)
  unfolding fill
  fill-Within fuel argv zero i buf = λ s. here
  fill-Within fuel argv (suc left) i buf =
      Within-bind C (argument fuel argv i) _ (argument-Within fuel argv i) (λ a.
        Within-if C (ltb i argv_slots) _ (panic out_of_bounds)
          (fill-Within fuel argv left (i + 1) (set buf i a)) (λ s. here))

  pub start-Within :
      (fuel : ℕ) (main : ℕ → List (List ℕ) → M P ℕ) (argc argv : ℕ)
      → ((code : ℕ) → C (exit_call code))
      → ((n : ℕ) (buf : List (List ℕ)) → Within C (main n buf))
      → Within C (start fuel main argc argv)
  unfolding start init_heap
  start-Within fuel main argc argv exits h =
      Within-bind C (fill fuel argv argc 0 (replicate argv_slots unused)) _
        (fill-Within fuel argv argc 0 _)
        (λ buf.
          Within-then C init_heap _ (λ s. here)
            (Within-bind C (main argc buf) exit (h argc buf)
              (λ ret. exit-Within C (Unit {0}) ret (exits ret))))
