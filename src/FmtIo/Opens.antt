-- ===== src/FmtIo/Opens.antt =====
-- Opening files on a machine with a console: `open` of usrlib_rust/src/syscall.rs.
use parch_testbench.Prelude.{
  ℕ, ◌-◌, ◌%◌, ◌≡◌, ◌∙◌, refl, sym, ap, inl, inr, List, [], append-nil, Text, Lacks, arith,
}
use parch_testbench.Utf8.{as_bytes}
use parch_testbench.ErrorNum.{ErrorNum, code}
use parch_testbench.Types.{from}
use parch_testbench.Types.OpenMode.{OpenMode}
use parch_testbench.Machine.{Platform, back, Machine, M, ◌>>=◌}
use parch_testbench.Machine.Blocks.{Memory}
use parch_testbench.Allocator.Laws.{AllocLaws}
use parch_testbench.Syscall.{usize_mod, do_syscall}
use parch_testbench.Syscall.Argv.{CString}
use parch_testbench.Syscall.Errors.{do_syscall-error}
use parch_testbench.Syscall.Files.{open_file, with_path}
use parch_testbench.Syscall.Paths.{open_call, with_path-IsStable}
use parch_testbench.FmtIo.Console.{Console}
use parch_testbench.FmtIo.Runs.{
  ErrorAt, ErrorAt-IsStable, ValueWith, ValueWith-IsStable, ValueWith-bind, Refuses,
}

module _ (P : Platform) where
  -- The kernel opens the path on the descriptor, and goes from one state to another as `V` says.
  abbrev pub OpensTo : Text → OpenMode → ℕ → (P.Kernel → P.Kernel → Type 0) → Type 0
  OpensTo path mode fd V =
      (p : ℕ) (m : Memory) (k : P.Kernel)
      → CString m p (as_bytes path)
      → (k' : P.Kernel) × (P.ecall (open_call p mode) m k ≡ back fd 0 m k') × V k k'

module _ {P : Platform} where
  pub open_file-OpensTo :
      (laws : AllocLaws P) (path : Text) (mode : OpenMode) (fd : ℕ)
      (V : P.Kernel → P.Kernel → Type 0) (s : Machine P)
      → Lacks 0 (as_bytes path)
      → OpensTo P path mode fd V
      → ValueWith (V s.kernel) (from fd) (open_file path mode s)
  unfolding open_file
  open_file-OpensTo laws path mode fd V s no_nul served =
      let R : P.Kernel → Type 0 = V s.kernel in
      ValueWith-bind R R fd (from fd) (with_path path (λ p. do_syscall (open_call p mode))) _ s
        (with_path-IsStable laws (ValueWith R fd) (ValueWith-IsStable laws R fd) path _ s no_nul
          (λ p s' same string.
            let (k', call, v) = served p s'.mem s'.kernel string in
            inl (record s' { kernel = k' }, unfold do_syscall in rw call refl, rw (← same) v)))
        (λ s' q. inl (s', refl, q))

module _ {P : Platform} (c : Console P) where
  -- The kernel leaves the terminal as it was.
  abbrev pub Quiet : P.Kernel → P.Kernel → Type 0
  Quiet k k' = (c.pending k' ≡ c.pending k) × (c.shown k' ≡ c.shown k)

  -- The kernel refuses to open the path.
  abbrev pub RefusesOpen : Text → OpenMode → ErrorNum → Type 0
  RefusesOpen path mode e =
      (p : ℕ) (m : Memory) (k : P.Kernel)
      → CString m p (as_bytes path)
      → (k' : P.Kernel) × (P.ecall (open_call p mode) m k
          ≡ back ((usize_mod - code e) % usize_mod) 1 m k')
        × Quiet k k'

  -- It leaves the terminal as it was, and is then as `Q` says.
  abbrev pub ServesOpen : Text → OpenMode → ℕ → (P.Kernel → Type 0) → Type 0
  ServesOpen path mode fd Q = OpensTo P path mode fd (λ k k'. Quiet k k' × Q k')

  ErrorAt-bind :
      {A B : Type 0} (e : ErrorNum) (left out : List ℕ) (m : M P A) (f : A → M P B) (s : Machine P)
      → ErrorAt c e left out (m s)
      → ErrorAt c e left out ((m >>= f) s)
  ErrorAt-bind e left out m f s (inl (s1, q, at)) = inl (s1, rw q refl, at)
  ErrorAt-bind e left out m f s (inr (s1, q)) = inr (s1, rw q refl)

  pub Refuses-open_file :
      (laws : AllocLaws P) (path : Text) (mode : OpenMode) (e : ErrorNum)
      → Lacks 0 (as_bytes path)
      → RefusesOpen path mode e
      → Refuses c (open_file path mode) e []
  unfolding open_file
  Refuses-open_file laws path mode e no_nul refused s =
      ErrorAt-bind e _ _ (with_path path (λ p. do_syscall (open_call p mode))) _ s (
        with_path-IsStable laws (ErrorAt c e _ _) (ErrorAt-IsStable c laws e _ _) path _ s no_nul
          (λ p s' same string.
            let (k', call, (left, out)) = refused p s'.mem s'.kernel string in
            inl (
              record s' { kernel = k' },
              do_syscall-error (open_call p mode) s' e _ 1 s'.mem k' (omega arith) refl call,
              (left ∙ ap c.pending same, out ∙ (ap c.shown same ∙ sym (append-nil _))),
            )))
