-- ===== src/Mkdir/Refused.antt =====
-- What parch_utils/mkdir/src/main.rs does where the kernel makes no directory.
use parch_testbench.Prelude.{
  ℕ, ◌-◌, ◌%◌, ◌≡◌, ◌⊎◌, refl, true, inl, inr, [], ◌∷◌, ◌++◌, List, map, Text, All, Lacks,
}
use parch_testbench.Utf8.{is_char, as_bytes}
use parch_testbench.ErrorNum.{ErrorNum, code}
use parch_testbench.Types.Permission
use parch_testbench.Machine.{
  Platform, back, Machine, Outcome, M, panicked, unwrap_err, out_of_memory, unwrap, pure, ◌>>=◌,
}
use parch_testbench.Machine.Blocks.{Memory}
use parch_testbench.Machine.Arguments.Texts.{argument_text-as_bytes}
use parch_testbench.Allocator.Laws.{AllocLaws, FailsAs}
use parch_testbench.Syscall.{usize_mod}
use parch_testbench.Syscall.Files.{mkdir}
use parch_testbench.Syscall.Argv.{CString}
use parch_testbench.Syscall.Paths.{path_refused}
use parch_testbench.Mkdir.{main}
use parch_testbench.Mkdir.Creates.{mkdir_call}

module _ {P : Platform} (laws : AllocLaws P) where
  -- A run that panics with the error of an `unwrap`, the kernel being `k`, or for want of memory.
  abbrev pub PanicsAs : {A : Type 0} → ErrorNum → P.Kernel → Outcome P A → Type 0
  PanicsAs e k o =
      ((s : Machine P) × (o ≡ panicked (unwrap_err e) s) × (s.kernel ≡ k))
      ⊎ ((s : Machine P) × (o ≡ panicked out_of_memory s))

  FailsAs-unwrap :
      {A B : Type 0} (e : ErrorNum) (k : P.Kernel) (m : M P A) (f : A → M P B) (s : Machine P)
      → FailsAs laws e k (m s)
      → PanicsAs e k ((unwrap m >>= f) s)
  FailsAs-unwrap e k m f s (inl (s1, q, same)) = inl (s1, rw q refl, same)
  FailsAs-unwrap e k m f s (inr (s1, q)) = inr (s1, rw q refl)

  -- With two arguments, the second being a text without NUL, and a kernel that refuses to make a
  -- directory with the permissions 0644 at the path of that text, `main` does not return: it panics
  -- with the kernel's error after that one call, or for want of memory.
  pub main_refused :
      (s : Machine P) (name path : Text) (rest : List (List ℕ)) (e : ErrorNum) (k : P.Kernel)
      → All (λ r. is_char r ≡ true) path
      → Lacks 0 (as_bytes path)
      → ((p : ℕ) (m : Memory)
          → CString m p (as_bytes path)
          → P.ecall (mkdir_call p) m s.kernel ≡ back ((usize_mod - code e) % usize_mod) 1 m k)
      → PanicsAs e k (main 2 (map as_bytes (name ∷ path ∷ []) ++ rest) s)
  unfolding main mkdir Permission.default
  main_refused s name path rest e k valid no_nul refused =
      rw (argument_text-as_bytes s (name ∷ path ∷ []) rest 1 path refl valid) (
        FailsAs-unwrap e k (mkdir path Permission.default) (λ n. pure 0) s
          (path_refused laws path mkdir_call s e k no_nul refused))
