-- ===== src/Shell/Serve/Prompt.antt =====
-- The prompt of parch_utils/shell/src/main.rs on a machine without the clock device.
use parch_testbench.Prelude.{
  ℕ, ◌-◌, ◌≤◌, ◌≡◌, ◌∙◌, refl, sym, ap, true, inl, List, [], ◌∷◌, ◌++◌, append-nil, Text, codes,
  All, length, replicate, arith, Lacks,
}
use parch_testbench.Utf8.{is_char, as_bytes, encode_char}
use parch_testbench.ErrorNum.{enoent}
use parch_testbench.Types.OpenMode
use parch_testbench.Machine.{Platform, back, unwrap, attempt}
use parch_testbench.Machine.Blocks.{Memory, store}
use parch_testbench.Allocator.Laws.{AllocLaws}
use parch_testbench.Syscall.Cwd.{getcwd_call, getcwd_lem}
use parch_testbench.Syscall.Files.{open_file, getcwd}
use parch_testbench.FmtIo.{print}
use parch_testbench.FmtIo.Console.{Console}
use parch_testbench.FmtIo.Printing.{all_bytes}
use parch_testbench.FmtIo.Opens.{RefusesOpen, Refuses-open_file}
use parch_testbench.FmtIo.Runs.{Shows, Shows-bind, Shows-print, Shows-cast, Refuses-attempt}
use parch_testbench.Formats.{Formats}
use parch_testbench.Shell.Serve.{print_header, time_or_dollar}

abbrev pub clock_path : Text
clock_path = codes "/dev/rtc@101000"

-- The text that `getcwd` returns for a path: the NUL characters of the buffer stand behind it.
abbrev pub padded_text : Text → Text
padded_text path = path ++ replicate (1024 - length (as_bytes path)) 0

-- The pieces of a prompt up to the directory.
abbrev pub folder_pieces : Text → List Text
folder_pieces path = codes "[ " ∷ padded_text path ∷ codes " ]" ∷ []

-- A console whose kernel knows the working directory; asking for it does not touch the terminal.
pub record Place {P : Platform} (c : Console P) : Type 0 where
  pub cwd : Text
  pub cwd_valid : All (λ r. is_char r ≡ true) cwd
  pub cwd_fits : length (as_bytes cwd) ≤ 1024
  pub gives_cwd :
      (p : ℕ) (m : Memory) (k : P.Kernel)
      → (ret : ℕ) × (k' : P.Kernel) × (P.ecall (getcwd_call p 1024) m k
          ≡ back ret 0 (store m p (as_bytes cwd)) k')
        × (c.pending k' ≡ c.pending k)
        × (c.shown k' ≡ c.shown k)

-- One without the clock device.
pub record Prompt {P : Platform} (c : Console P) : Type 0 where
  pub place : Place c
  pub no_clock : RefusesOpen c clock_path OpenMode.read enoent

clock_bytes : as_bytes clock_path ≡ clock_path
unfolding as_bytes encode_char
clock_bytes = refl

pub clock_text : Lacks 0 (as_bytes clock_path)
clock_text = rw clock_bytes (omega arith)

module _ {P : Platform} {c : Console P} (place : Place c) where
  open place use {cwd, cwd_valid, cwd_fits, gives_cwd}

  abbrev pub padded : Text
  padded = padded_text cwd

  abbrev pub place_bytes : List ℕ
  place_bytes = all_bytes (folder_pieces cwd)

  pub Shows-getcwd : Shows c (unwrap getcwd) padded []
  Shows-getcwd s =
      let p : ℕ = P.frame 1024 in
      let (ret, k', call, left, out) = gives_cwd p (store s.mem p (replicate 1024 0)) s.kernel in
      let (s', run, same) = getcwd_lem s cwd ret k' cwd_valid cwd_fits call in
      inl
        (s', rw run refl, (ap c.pending same ∙ left, ap c.shown same ∙ (out ∙ sym (append-nil _))))

module _ {P : Platform} {c : Console P} (laws : AllocLaws P) (prompt : Prompt c) where
  open prompt use {place, no_clock}

  abbrev pub prompt_bytes : List ℕ
  prompt_bytes = place_bytes place ++ all_bytes (codes " $ " ∷ [])

  pub print_header_lem : (f : Formats) → Shows c (print_header f) tt prompt_bytes
  unfolding print_header
  print_header_lem f = Shows-cast c (print_header f) tt refl (
      Shows-bind c (unwrap getcwd) _ (padded place) tt [] _ (Shows-getcwd place) (
        Shows-bind c (print (codes "[ " ∷ padded place ∷ codes " ]" ∷ [])) _ tt tt _ _
          (Shows-print c (codes "[ " ∷ padded place ∷ codes " ]" ∷ []))
          (Shows-bind c (attempt (open_file clock_path OpenMode.read)) (time_or_dollar f) _ tt [] _
            (Refuses-attempt c _ enoent []
              (Refuses-open_file c laws clock_path OpenMode.read enoent clock_text no_clock))
            (Shows-print c (codes " $ " ∷ [])))))
