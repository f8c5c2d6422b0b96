-- ===== src/Mkdir/Creates.antt =====
-- What parch_utils/mkdir/src/main.rs does with its argument.
use parch_testbench.Prelude.{ℕ, ◌≡◌, refl, true, inl, [], ◌∷◌, ◌++◌, List, map, Text, All, Lacks}
use parch_testbench.Utf8.{is_char, as_bytes}
use parch_testbench.SyscallNum.{syscall_mkdir}
use parch_testbench.Types.Permission
use parch_testbench.Machine.{Platform, Registers, back, Machine, unwrap, pure}
use parch_testbench.Machine.Blocks.{Memory}
use parch_testbench.Machine.Arguments.Texts.{argument_text-as_bytes}
use parch_testbench.Allocator.Laws.{AllocLaws, ReturnsAs, ReturnsAs-IsStable, ReturnsAs-bind}
use parch_testbench.Syscall.Files.{mkdir}
use parch_testbench.Syscall.Argv.{CString}
use parch_testbench.Syscall.Paths.{path_call, ReturnsAs-unwrap}
use parch_testbench.Mkdir.{main}

-- The call with the permissions 0644.
abbrev pub mkdir_call : ℕ → Registers
mkdir_call p = record { a0 = p; a1 = 0o644; a2 = 0; a3 = 0; a4 = 0; a5 = 0; a7 = syscall_mkdir }

module _ {P : Platform} (laws : AllocLaws P) (s : Machine P) where
  -- With two arguments, the second being a text without NUL, and a kernel that makes a directory with
  -- the permissions 0644 at the path of that text, `main` returns 0 after that call, or panics for
  -- want of memory.
  pub main_creates :
      (name path : Text) (rest : List (List ℕ)) (ret : ℕ) (k : P.Kernel)
      → All (λ r. is_char r ≡ true) path
      → Lacks 0 (as_bytes path)
      → ((p : ℕ) (m : Memory)
          → CString m p (as_bytes path)
          → P.ecall (mkdir_call p) m s.kernel ≡ back ret 0 m k)
      → ReturnsAs laws 0 k (main 2 (map as_bytes (name ∷ path ∷ []) ++ rest) s)
  unfolding main mkdir Permission.default
  main_creates name path rest ret k valid no_nul served =
      rw (argument_text-as_bytes s (name ∷ path ∷ []) rest 1 path refl valid) (
        ReturnsAs-bind laws (ReturnsAs laws 0 k) (ReturnsAs-IsStable laws 0 k)
          (unwrap (mkdir path Permission.default)) (λ n. pure 0) ret k s
          (ReturnsAs-unwrap laws ret k (mkdir path Permission.default) s
            (path_call laws path mkdir_call s ret k no_nul served))
          (λ s' same. inl (s', refl, same)))
