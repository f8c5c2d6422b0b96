-- ===== src/Shell/Serve/Moves/Steps.antt =====
-- The prompt and the commands of parch_utils/shell/src/main.rs in a directory: what they show, and the
-- directory behind them.
use parch_testbench.Prelude.{
  ℕ, ◌≡◌, ◌⊎◌, refl, inl, inr, false, Bool-cases, Option-cases, none, some, [], ◌∷◌, Text, codes,
  Lacks, replicate, ◌==◌,
}
use parch_testbench.Utf8.{as_bytes}
use parch_testbench.Strings.{strip_prefix, starts_with, trim}
use parch_testbench.ErrorNum.{ErrorNum}
use parch_testbench.Types.OpenMode
use parch_testbench.Machine.{Platform, Machine, attempt, unwrap, Attempt, ok, err, ◌>>=◌}
use parch_testbench.Machine.Blocks.{store}
use parch_testbench.Machine.Footprint.{Within, Within-bind, Within-attempt}
use parch_testbench.Allocator.Laws.{AllocLaws}
use parch_testbench.Formats.{Formats}
use parch_testbench.Syscall.Cwd.{getcwd_lem}
use parch_testbench.Syscall.Files.{getcwd}
use parch_testbench.FmtIo.{print}
use parch_testbench.FmtIo.Console.{Console}
use parch_testbench.FmtIo.Footprint.{print-Within}
use parch_testbench.FmtIo.Opens.{Quiet, RefusesOpen}
use parch_testbench.FmtIo.Runs.{ValueWith, ValueWith-bind, Shows-print}
use parch_testbench.FmtIo.Specs.{Shows-ShowsOf}
use parch_testbench.Shell.Footprint.{StayMay, print_header-Within, no_cd-Within}
use parch_testbench.Shell.Serve.{print_header, serve_command, report}
use parch_testbench.Shell.Serve.Clock.{Clock, IsPromptAt, IsTime, time_or_dollar-IsTime}
use parch_testbench.Shell.Serve.Moves.{Folders}
use parch_testbench.Shell.Serve.Moves.Stays.{Within-cwd, Goes, ShowsOf-Goes}
use parch_testbench.Shell.Serve.Prompt.{clock_path, padded_text, folder_pieces}
use parch_testbench.Shell.Serve.Moves.Chdir.{cd-Goes}
use parch_testbench.Strings.{is_whitespace}
use parch_testbench.Shell.Serve.Moves.{folder_behind, IsAnswer, IsCd}
use parch_testbench.Shell.Serve.Blank.{starts_with-IsBlank}
use parch_testbench.Shell.Serve.Replies.{IsQuiet, help-ne-cd}
use parch_testbench.Shell.Serve.Transcript.{Children, IsProgram, Shows-taken}
use parch_testbench.Machine.Footprint.{Within-bind, Within-attempt, here as no_call}

starts_with-strip_prefix : (p s : Text) → starts_with p s ≡ false → strip_prefix p s ≡ none
unfolding strip_prefix starts_with
starts_with-strip_prefix [] s e = absurd (cc e)
starts_with-strip_prefix (x ∷ p) [] e = refl
starts_with-strip_prefix (x ∷ p) (y ∷ s) e = elim (Bool-cases (y == x)) [
  | inl same ↦ rw same (starts_with-strip_prefix p s (rw same at e))
  | inr differ ↦ rw differ refl
]

IsTaken-no_cd :
    (line : Text) → IsQuiet line ⊎ IsProgram line → starts_with (codes "cd ") line ≡ false
unfolding is_whitespace
IsTaken-no_cd line (inl (inl help)) = help-ne-cd line help
IsTaken-no_cd line (inl (inr blank)) = starts_with-IsBlank b'c' (codes "d ") line refl blank
IsTaken-no_cd line (inr (w, ws, r, words, plain, same, external)) = external.no_cd

module _ {P : Platform} {c : Console P} (folders : Folders c) where
  open folders use {cwd, enter, cwd_valid, cwd_fits, gives_cwd, moves, moved_by_chdir}

  getcwd-Quiet :
      (s : Machine P) → ValueWith (Quiet c s.kernel) (padded_text (cwd s.kernel)) (unwrap getcwd s)
  getcwd-Quiet s =
      let p : ℕ = P.frame 1024 in
      let (ret, k', call, quiet) = gives_cwd p (store s.mem p (replicate 1024 0)) s.kernel in
      let (s', run, same) =
        getcwd_lem s (cwd s.kernel) ret k' (cwd_valid s.kernel) (cwd_fits s.kernel) call in
      inl (s', rw run refl, rw same quiet)

  pub header-Goes :
      (laws : AllocLaws P)
      (clock : ((e : ErrorNum) × RefusesOpen c clock_path OpenMode.read e) ⊎ Clock c) (f : Formats)
      (here : Text)
      → Goes c cwd here here (IsPromptAt f here) (print_header f) tt
  header-Goes laws clock f here s at = rw (← at) (
      Within-cwd cwd moved_by_chdir _ (print_header f) tt s (print_header-Within f) (
        unfold print_header in
        ValueWith-bind (Quiet c s.kernel) _ (padded_text (cwd s.kernel)) tt (unwrap getcwd) _ s
          (getcwd-Quiet s)
          (λ s' (left, out).
            rw (← left, ← out)
              (Shows-ShowsOf c (IsTime f) (print (folder_pieces (cwd s.kernel))) _ tt tt _
                (Shows-print c (folder_pieces (cwd s.kernel))) (time_or_dollar-IsTime f laws clock)
                s'))))

  report-Within : (f : Formats) (a : Attempt (Unit {0})) → Within StayMay (report {P = P} f a)
  report-Within f (ok u) = λ s. no_call
  report-Within f (err e) = print-Within StayMay (λ p n. refl) _

  pub command-Goes :
      (laws : AllocLaws P) (children : Children c) (f : Formats) (line here : Text)
      → (IsQuiet line ⊎ IsProgram line) ⊎ IsCd line
      → Goes c cwd here
          (folder_behind enter here line)
          (IsAnswer children enter f here line)
          (attempt (serve_command f line) >>= report f)
          tt
  command-Goes laws children f line here (inl taken) =
      let no_cd : starts_with (codes "cd ") line ≡ false = IsTaken-no_cd line taken in
      rw (starts_with-strip_prefix (codes "cd ") line no_cd) (
        ShowsOf-Goes c cwd moved_by_chdir here _ (attempt (serve_command f line) >>= report f) tt
          (Within-bind StayMay (attempt (serve_command f line)) (report f)
            (Within-attempt StayMay (serve_command f line) (no_cd-Within f line no_cd))
            (report-Within f))
          (Shows-taken children f line taken))
  command-Goes laws children f line here (inr (path, named, no_nul)) =
      elim (Option-cases (strip_prefix (codes "cd ") line)) [
        | inl missing ↦ let never : none ≡ some path = rw missing at named in absurd (cc never)
        | inr (t, prefix) ↦
            let same : some (trim t) ≡ some path = rw prefix at named in
            let it : trim t ≡ path = cc same in
            let plain : Lacks 0 (as_bytes (trim t)) = rw (← it) at no_nul in
            rw prefix (cd-Goes folders laws f line t here prefix plain)
      ]
