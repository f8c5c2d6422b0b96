-- ===== src/Shell/Serve/Moves/Chdir.antt =====
-- `cd` lines of parch_utils/shell/src/main.rs: where they lead, and what is shown when that fails.
use parch_testbench.Prelude.{
  ℕ, ◌≡◌, ◌∙◌, ◌⊎◌, refl, sym, ap, inl, inr, true, Bool-cases, none, some, [], ◌∷◌, ◌++◌,
  append-nil, Text, codes, Lacks, length, arith, ◌==◌,
}
use parch_testbench.Utf8.{as_bytes}
use parch_testbench.Strings.{strip_prefix, starts_with, trim}
use parch_testbench.ErrorNum.{ErrorNum}
use parch_testbench.ErrorNum.Debug.{debug}
use parch_testbench.Machine.{
  Platform, Machine, Outcome, error, panicked, out_of_memory, attempt, Attempt, ok, err, ◌>>=◌,
}
use parch_testbench.Allocator.Laws.{AllocLaws, IsStable}
use parch_testbench.Formats.{Formats}
use parch_testbench.Syscall.{do_syscall}
use parch_testbench.Syscall.Calls.{chdir_call}
use parch_testbench.Syscall.Errors.{do_syscall-error}
use parch_testbench.Syscall.Files.{chdir}
use parch_testbench.Syscall.Paths.{with_path-IsStable}
use parch_testbench.FmtIo.Console.{Console}
use parch_testbench.FmtIo.Footprint.{print-Within}
use parch_testbench.FmtIo.Opens.{Quiet}
use parch_testbench.FmtIo.Runs.{ValueWith, ValueWith-IsStable, Shows-print}
use parch_testbench.FmtIo.Specs.{Shown, ValueWith-map}
use parch_testbench.Shell.Footprint.{StayMay}
use parch_testbench.Shell.Serve.{ln, serve_command, serve_cd, report}
use parch_testbench.Shell.Serve.Moves.{Folders, Leads, next_folder, cd_reply}
use parch_testbench.Shell.Serve.Moves.Stays.{Within-cwd, Goes}

strip_prefix-starts_with : (p s t : Text) → strip_prefix p s ≡ some t → starts_with p s ≡ true
unfolding strip_prefix starts_with
strip_prefix-starts_with [] s t e = refl
strip_prefix-starts_with (x ∷ p) [] t e = absurd (cc e)
strip_prefix-starts_with (x ∷ p) (y ∷ s) t e = elim (Bool-cases (y == x)) [
  | inl same ↦ rw same (strip_prefix-starts_with p s t (rw same at e))
  | inr differ ↦ let no : none ≡ some t = rw differ at e in absurd (cc no)
]

module _ {P : Platform} {c : Console P} (folders : Folders c) where
  open folders use {cwd, enter, cwd_valid, cwd_fits, gives_cwd, moves, moved_by_chdir}

  -- Changing the directory, where the path leads to another.
  chdir-leads :
      (laws : AllocLaws P) (path other : Text) (s : Machine P)
      → Lacks 0 (as_bytes path)
      → enter (cwd s.kernel) path ≡ ok other
      → (ret : ℕ) × ValueWith (λ k. Quiet c s.kernel k × (cwd k ≡ other)) ret (chdir path s)
  unfolding chdir
  chdir-leads laws path other s no_nul e =
      with_path-IsStable laws (λ o. (ret : ℕ) × ValueWith Q ret o) stable path _ s no_nul
        (λ p s' same string.
          let led : Leads c cwd (chdir_call p (length (as_bytes path))) s'.mem s.kernel (ok other) =
            rw (same, e) at (moves path p s'.mem s'.kernel string) in
          let (ret, k', call, quiet, there) = led in
          (
            ret,
            inl (
              record s' { kernel = k' },
              unfold do_syscall in rw (same, call) refl,
              (quiet, there),
            ),
          ))
    where
      Q : P.Kernel → Type 0
      Q k = Quiet c s.kernel k × (cwd k ≡ other)

      stable : IsStable laws (λ o. (ret : ℕ) × ValueWith Q ret o)
      stable = record {
        no_memory = λ s1. (0, inr (s1, refl));
        released = λ p n o (ret, h). (ret, (ValueWith-IsStable laws Q ret).released p n o h);
      }

  -- The run fails with `e` and a kernel of the property, or panics for want of memory.
  abbrev ErrorWith : {A : Type 0} → (P.Kernel → Type 0) → ErrorNum → Outcome P A → Type 0
  ErrorWith Q e o =
      ((s' : Machine P) × (o ≡ error e s') × Q s'.kernel)
      ⊎ ((s' : Machine P) × (o ≡ panicked out_of_memory s'))

  -- Changing the directory, where the path leads nowhere.
  chdir-fails :
      (laws : AllocLaws P) (path : Text) (x : ErrorNum) (s : Machine P)
      → Lacks 0 (as_bytes path)
      → enter (cwd s.kernel) path ≡ err x
      → ErrorWith (λ k. Quiet c s.kernel k × (cwd k ≡ cwd s.kernel)) x (chdir path s)
  unfolding chdir
  chdir-fails laws path x s no_nul e =
      with_path-IsStable laws (ErrorWith Q x) stable path _ s no_nul (λ p s' same string.
        let led : Leads c cwd (chdir_call p (length (as_bytes path))) s'.mem s.kernel (err x) =
          rw (same, e) at (moves path p s'.mem s'.kernel string) in
        let (k', call, quiet, there) = led in
        inl (
          record s' { kernel = k' },
          do_syscall-error (chdir_call p (length (as_bytes path))) s' x _ 1 s'.mem k' (omega arith)
              refl (rw same call),
          (quiet, there),
        ))
    where
      Q : P.Kernel → Type 0
      Q k = Quiet c s.kernel k × (cwd k ≡ cwd s.kernel)

      stable : IsStable laws (ErrorWith {A = ℕ} Q x)
      stable = record {
        no_memory = λ s1. inr (s1, refl);
        released = λ p n o h. elim h [
          | inl (s1, q, at) ↦ inl (record s1 { heap = P.dealloc p n s1.heap }, rw q refl, at)
          | inr (s1, q) ↦ inr (s1, rw q refl)
        ];
      }

  serve_cd-report :
      (laws : AllocLaws P) (f : Formats) (line t : Text) (s : Machine P) (a : Attempt Text)
      → strip_prefix (codes "cd ") line ≡ some t
      → Lacks 0 (as_bytes (trim t))
      → enter (cwd s.kernel) (trim t) ≡ a
      → ValueWith
          (λ k.
            Shown c (λ out. out ≡ cd_reply enter a) (c.pending s.kernel) (c.shown s.kernel) k
            × (cwd k ≡ next_folder (cwd s.kernel) a))
          tt
          ((attempt (serve_cd line) >>= report f) s)
  unfolding serve_cd
  serve_cd-report laws f line t s (ok other) prefix no_nul e =
      let (ret, led) = chdir-leads laws (trim t) other s no_nul e in
      elim led [
        | inl (s', run, ((left, out), there)) ↦ inl (
          s',
          rw (prefix, run) refl,
          ((left, ([], refl, out ∙ sym (append-nil (c.shown s.kernel)))), there),
        )
        | inr (s', run) ↦ inr (s', rw (prefix, run) refl)
      ]
  serve_cd-report laws f line t s (err x) prefix no_nul e =
      elim (chdir-fails laws (trim t) x s no_nul e) [
        | inl (s', run, ((left, out), same)) ↦
            rw (prefix, run)
              (ValueWith-map c _ _ tt (report f (err x) s')
                (λ k ((left', out'), same'). (
                  (left' ∙ left, (_, refl, out' ∙ ap (λ l. l ++ cd_reply enter (err x)) out)),
                  same' ∙ same,
                ))
                (Within-cwd cwd moved_by_chdir _ (report f (err x)) tt s'
                  (print-Within StayMay (λ p n. refl) _)
                  (Shows-print c (codes "Command failed with " ∷ debug x ∷ ln (codes ".") ∷ [])
                    s')))
        | inr (s', run) ↦ inr (s', rw (prefix, run) refl)
      ]

  -- The command of a `cd` line and the report of its error.
  pub cd-Goes :
      (laws : AllocLaws P) (f : Formats) (line t here : Text)
      → strip_prefix (codes "cd ") line ≡ some t
      → Lacks 0 (as_bytes (trim t))
      → Goes c cwd here
          (next_folder here (enter here (trim t)))
          (λ out. out ≡ cd_reply enter (enter here (trim t)))
          (attempt (serve_command f line) >>= report f)
          tt
  cd-Goes laws f line t here prefix no_nul s at =
      let test : starts_with (codes "cd ") line ≡ true = strip_prefix-starts_with _ line t prefix in
      let served : serve_command {P = P} f line ≡ serve_cd line =
        unfold serve_command in rw test refl in
      rw (served, ← at)
        (serve_cd-report laws f line t s (enter (cwd s.kernel) (trim t)) prefix no_nul refl)
