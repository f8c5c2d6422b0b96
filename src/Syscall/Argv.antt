-- ===== src/Syscall/Argv.antt =====
-- `exec` of usrlib_rust/src/syscall.rs: how the path and the arguments stand in memory at the trap.
use parch_testbench.Prelude.{
  ℕ, ◌^◌, ◌<◌, ◌≡◌, ◌∙◌, refl, inl, List, [], ◌∷◌, ◌++◌, map, Text, Lacks, All, length,
}
use parch_testbench.Utf8.{as_bytes}
use parch_testbench.SyscallNum.{syscall_exec}
use parch_testbench.Machine.{Platform, Registers, gone, Machine, M, Outcome}
use parch_testbench.Machine.Blocks.{Memory, load}
use parch_testbench.Allocator.Laws.{
  AllocLaws, Placed, EndsAs, EndsAs-IsStable, IsStable, with_vec-IsStable,
}
use parch_testbench.Syscall.{nul_terminated, do_syscall}
use parch_testbench.Syscall.Process.{words_bytes, with_vecs, exec_raw, exec}

-- At the address stand the bytes and a 0, and no 0 is among them.
pub record CString (m : Memory) (p : ℕ) (bytes : List ℕ) : Type 0 where
  pub text : load m p (length (bytes ++ 0 ∷ [])) ≡ bytes ++ 0 ∷ []
  pub no_nul : Lacks 0 bytes
  pub not_null : 0 < p
  pub address : p < 2 ^ 64

-- At each address stands the string.
abbrev pub Strings : Memory → List ℕ → List (List ℕ) → Type 0
Strings m [] [] = Unit
Strings m [] (a ∷ as') = ⊥
Strings m (p ∷ ps) [] = ⊥
Strings m (p ∷ ps) (a ∷ as') = CString m p a × Strings m ps as'

-- A null-terminated array of the addresses of the strings.
pub record Argv (m : Memory) (q : ℕ) (strings : List (List ℕ)) : Type 0 where
  pub addresses : List ℕ
  pub array :
      load m q (length (words_bytes (addresses ++ 0 ∷ []))) ≡ words_bytes (addresses ++ 0 ∷ [])
  pub strings_there : Strings m addresses strings

abbrev pub exec_call : ℕ → ℕ → Registers
exec_call p q = record { a0 = p; a1 = q; a2 = 0; a3 = 0; a4 = 0; a5 = 0; a7 = syscall_exec }

-- A kernel that runs the program of the path with the arguments, in place of the process, where
-- there is a program at the path.
pub record Execs (P : Platform) : Type 1 where
  pub IsProgram : List ℕ → Type 0
  pub program : List ℕ → List (List ℕ) → P.Kernel → P.Kernel
  pub runs :
      (p q : ℕ) (m : Memory) (k : P.Kernel) (path : List ℕ) (argv : List (List ℕ))
      → IsProgram path
      → CString m p path
      → Argv m q argv
      → P.ecall (exec_call p q) m k ≡ gone (program path argv k)

module _ {P : Platform} (laws : AllocLaws P) where
  with_vecs-IsStable :
      (Q : Outcome P ℕ → Type 0) (stable : IsStable laws Q) (new : List (List ℕ))
      (body : List ℕ → M P ℕ) (s : Machine P) (ps : List ℕ) (vs : List (List ℕ))
      → Placed laws s.heap s.mem ps vs
      → ((qs : List ℕ) (s' : Machine P)
          → s'.kernel ≡ s.kernel
          → Placed laws s'.heap s'.mem ps vs
          → Placed laws s'.heap s'.mem qs new
          → Q (body qs s'))
      → Q (with_vecs new body s)
  unfolding with_vecs
  with_vecs-IsStable Q stable [] body s ps vs placed h = h [] s refl placed tt
  with_vecs-IsStable Q stable (v ∷ new) body s ps vs placed h =
      with_vec-IsStable laws Q stable v (λ p. with_vecs new (λ qs. body (p ∷ qs))) s ps vs placed
        (λ p s1 same1 placed1.
          with_vecs-IsStable Q stable new (λ qs. body (p ∷ qs)) s1 (p ∷ ps) (v ∷ vs) placed1
            (λ qs s2 same2 (live, bytes, pos, small, rest) placed2.
              h (p ∷ qs) s2 (same2 ∙ same1) rest (live, bytes, pos, small, placed2)))

  Strings-of :
      (argv : List Text) (h : P.Heap) (m : Memory) (ps : List ℕ)
      → All (λ a. Lacks 0 (as_bytes a)) argv
      → Placed laws h m ps (map nul_terminated argv)
      → Strings m ps (map as_bytes argv)
  Strings-of [] h m [] none_nul placed = tt
  Strings-of [] h m (p ∷ ps) none_nul placed = placed
  Strings-of (a ∷ argv) h m [] none_nul placed = placed
  Strings-of (a ∷ argv) h m (p ∷ ps) (no_nul, rest) (live, bytes, pos, small, placed) = (
    record { text = bytes; no_nul = no_nul; not_null = pos; address = small },
    Strings-of argv h m ps rest placed,
  )

  -- Whatever holds of the trap, with the path and the arguments in memory, holds of `exec`.
  pub exec-IsStable :
      (Q : Outcome P ℕ → Type 0) (stable : IsStable laws Q) (path : Text) (argv : List Text)
      (s : Machine P)
      → Lacks 0 (as_bytes path)
      → All (λ a. Lacks 0 (as_bytes a)) argv
      → ((p q : ℕ) (s' : Machine P)
          → s'.kernel ≡ s.kernel
          → CString s'.mem p (as_bytes path)
          → Argv s'.mem q (map as_bytes argv)
          → Q (do_syscall (exec_call p q) s'))
      → Q (exec path argv s)
  unfolding exec exec_raw
  exec-IsStable Q stable path argv s no_nul none_nul h =
      with_vecs-IsStable Q stable (map nul_terminated argv) _ s [] [] tt (λ ps s1 same1 _ placed1.
        let array : List ℕ = words_bytes (ps ++ 0 ∷ []) in
        with_vec-IsStable laws Q stable array _ s1 ps (map nul_terminated argv) placed1
          (λ q s2 same2 placed2.
            with_vec-IsStable laws Q stable (nul_terminated path) _ s2 (q ∷ ps)
              (array ∷ map nul_terminated argv) placed2
              (λ p s3 same3
                  (live, bytes, pos, small, (live_q, array_there, pos_q, small_q, strings)).
                h p q s3 (same3 ∙ (same2 ∙ same1))
                  (record { text = bytes; no_nul = no_nul; not_null = pos; address = small })
                  (record {
                    addresses = ps;
                    array = array_there;
                    strings_there = Strings-of argv s3.heap s3.mem ps none_nul strings;
                  }))))

  -- `exec` of texts without NUL, at a path where there is a program, runs it with just these arguments,
  -- in order, or panics because there is no memory for them; it never returns.
  pub exec_runs :
      (execs : Execs P) (path : Text) (argv : List Text) (s : Machine P)
      → execs.IsProgram (as_bytes path)
      → Lacks 0 (as_bytes path)
      → All (λ a. Lacks 0 (as_bytes a)) argv
      → EndsAs laws (execs.program (as_bytes path) (map as_bytes argv) s.kernel) (exec path argv s)
  unfolding do_syscall
  exec_runs execs path argv s exists no_nul none_nul =
      exec-IsStable (EndsAs laws k) (EndsAs-IsStable laws k) path argv s no_nul none_nul
        (λ p q s' same string array. inl (
          rw
            (
              execs.runs p q s'.mem s'.kernel (as_bytes path) (map as_bytes argv) exists string
                  array,
              same,
            )
            refl))
    where
      k : P.Kernel
      k = execs.program (as_bytes path) (map as_bytes argv) s.kernel
