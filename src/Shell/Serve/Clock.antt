-- ===== src/Shell/Serve/Clock.antt =====
-- The prompt of parch_utils/shell/src/main.rs on a machine that may have the clock device.
use parch_testbench.Prelude.{
  ℕ, ◌^◌, ◌<◌, ◌≡◌, ◌∙◌, refl, sym, ap, ◌⊎◌, inl, inr, List, [], ◌∷◌, ◌++◌, append-nil, Text, codes,
  replicate,
}
use parch_testbench.ErrorNum.{ErrorNum}
use parch_testbench.SyscallNum.{syscall_read}
use parch_testbench.Types.{from}
use parch_testbench.Types.OpenMode
use parch_testbench.Machine.{
  Platform, Registers, back, with_local, load_word, attempt, unwrap, ok, err, ◌>>=◌,
}
use parch_testbench.Machine.Blocks.{Memory, store, le_bytes, load-store_word}
use parch_testbench.Allocator.Laws.{AllocLaws}
use parch_testbench.Formats.{Formats}
use parch_testbench.Syscall.{do_syscall, read}
use parch_testbench.Syscall.Files.{open_file, close, getcwd}
use parch_testbench.Syscall.Paths.{close_call}
use parch_testbench.FmtIo.{print}
use parch_testbench.FmtIo.Console.{Console}
use parch_testbench.FmtIo.Opens.{Quiet, RefusesOpen, OpensTo, Refuses-open_file, open_file-OpensTo}
use parch_testbench.FmtIo.Printing.{all_bytes, print_shows}
use parch_testbench.FmtIo.Runs.{Shows, Shows-print, Shows-attempt, Refuses-attempt}
use parch_testbench.FmtIo.Specs.{
  Behind, ShowsOf, Shows-Of, Shows-ShowsOf, then-ShowsOf, ValueWith-map,
}
use parch_testbench.Shell.Serve.{print_time, time_or_dollar, print_header}
use parch_testbench.Shell.Serve.Prompt.{
  Place, padded, place_bytes, folder_pieces, Shows-getcwd, clock_path, clock_text,
}

abbrev pub time_call : ℕ → ℕ → Registers
time_call fd p = record { a0 = fd; a1 = p; a2 = 8; a3 = 0; a4 = 0; a5 = 0; a7 = syscall_read }

-- A clock device that can be opened, gives the time as eight bytes and can be closed, without a change
-- of the terminal.
pub record Clock {P : Platform} (c : Console P) : Type 0 where
  pub fd : ℕ
  pub opens : OpensTo P clock_path OpenMode.read fd (Quiet c)
  pub gives_time :
      (p : ℕ) (m : Memory) (k : P.Kernel)
      → (epoch : ℕ) × (k' : P.Kernel) × (epoch < 2 ^ 64)
        × (P.ecall (time_call fd p) m k ≡ back 8 0 (store m p (le_bytes 8 epoch)) k')
        × Quiet c k k'
  pub closes :
      (m : Memory) (k : P.Kernel)
      → (ret : ℕ) × (k' : P.Kernel) × (P.ecall (close_call fd) m k ≡ back ret 0 m k') × Quiet c k k'

-- The working directory, and the clock device where there is one.
pub record Header {P : Platform} (c : Console P) : Type 0 where
  pub place : Place c
  pub clock : ((e : ErrorNum) × RefusesOpen c clock_path OpenMode.read e) ⊎ Clock c

abbrev pub time_text : Formats → ℕ → List Text
time_text f epoch = codes " " ∷ f.show_time epoch ∷ codes " $ " ∷ []

-- The end of a prompt: `$`, with some time in front or without.
abbrev pub IsTime : Formats → List ℕ → Type 0
IsTime f out =
    (out ≡ all_bytes (codes " $ " ∷ []))
    ⊎ ((epoch : ℕ) × (epoch < 2 ^ 64) × (out ≡ all_bytes (time_text f epoch)))

module _ {P : Platform} {c : Console P} (f : Formats) where
  print_time-IsTime : (clock : Clock c) → ShowsOf c (IsTime f) (print_time f (from clock.fd)) tt
  unfolding print_time with_local read do_syscall close load_word from
  print_time-IsTime clock s =
      let p : ℕ = P.frame 8 in
      let m1 : Memory = store s.mem p (replicate 8 0) in
      let (epoch, k1, small, call, (left1, out1)) = clock.gives_time p m1 s.kernel in
      let m2 : Memory = store m1 p (le_bytes 8 epoch) in
      let (ret, k2, closed, (left2, out2)) = clock.closes m2 k1 in
      let (s3, run, left3, out3) =
        print_shows c (time_text f epoch) (record s { mem = m2; kernel = k2 }) in
      let before : c.shown k2 ≡ c.shown s.kernel = out2 ∙ out1 in
      inl (
        s3,
        rw (call, load-store_word m1 p epoch small, closed) run,
        (
          left3 ∙ (left2 ∙ left1),
          (
            all_bytes (time_text f epoch),
            inr (epoch, small, refl),
            out3 ∙ ap (λ l. l ++ all_bytes (time_text f epoch)) before,
          ),
        ),
      )

  Shows-Clock :
      (laws : AllocLaws P) (clock : Clock c)
      → Shows c (attempt (open_file clock_path OpenMode.read)) (ok (from clock.fd)) []
  Shows-Clock laws clock =
      Shows-attempt c (open_file clock_path OpenMode.read) (from clock.fd) [] (λ s.
        ValueWith-map c _ _ (from clock.fd) (open_file clock_path OpenMode.read s)
          (λ k (left, out). (left, out ∙ sym (append-nil _)))
          (open_file-OpensTo laws clock_path OpenMode.read clock.fd (Quiet c) s clock_text
            clock.opens))

  pub time_or_dollar-IsTime :
      (laws : AllocLaws P)
      → ((e : ErrorNum) × RefusesOpen c clock_path OpenMode.read e) ⊎ Clock c
      → ShowsOf c (IsTime f) (attempt (open_file clock_path OpenMode.read) >>= time_or_dollar f) tt
  time_or_dollar-IsTime laws (inl (e, no_clock)) =
      then-ShowsOf c (IsTime f) (attempt (open_file clock_path OpenMode.read)) (time_or_dollar f)
        (err e) tt
        (Refuses-attempt c _ e []
          (Refuses-open_file c laws clock_path OpenMode.read e clock_text no_clock))
        (Shows-Of c (IsTime f) (print (codes " $ " ∷ [])) tt _ (inl refl)
          (Shows-print c (codes " $ " ∷ [])))
  time_or_dollar-IsTime laws (inr clock) =
      then-ShowsOf c (IsTime f) (attempt (open_file clock_path OpenMode.read)) (time_or_dollar f)
        (ok (from clock.fd)) tt (Shows-Clock laws clock) (print_time-IsTime clock)

-- A prompt in a directory: its name, and the end.
abbrev pub IsPromptAt : Formats → Text → List ℕ → Type 0
IsPromptAt f path = Behind (all_bytes (folder_pieces path)) (IsTime f)

-- A prompt in the working directory.
abbrev pub IsPrompt : {P : Platform} {c : Console P} → Formats → Place c → List ℕ → Type 0
IsPrompt f place = IsPromptAt f place.cwd

module _ {P : Platform} {c : Console P} (laws : AllocLaws P) (header : Header c) where
  open header use {place, clock}

  pub print_header-IsPrompt : (f : Formats) → ShowsOf c (IsPrompt f place) (print_header f) tt
  unfolding print_header
  print_header-IsPrompt f =
      then-ShowsOf c (IsPrompt f place) (unwrap getcwd) _ (padded place) tt (Shows-getcwd place) (
        Shows-ShowsOf c (IsTime f) (print (codes "[ " ∷ padded place ∷ codes " ]" ∷ [])) _ tt tt
          (place_bytes place) (Shows-print c (codes "[ " ∷ padded place ∷ codes " ]" ∷ []))
          (time_or_dollar-IsTime f laws clock))
