-- ===== src/Cat/Whole.antt =====
-- `main` of parch_utils/cat/src/main.rs as a whole.
use parch_testbench.Prelude.{
  ℕ, ◌-◌, ◌^◌, ◌<◌, ◌≡◌, ◌∙◌, refl, ap, true, inl, List, [], ◌∷◌, ◌++◌, append-nil, length, map,
  Text, codes, All, Lacks,
}
use parch_testbench.Utf8.{is_char, as_bytes}
use parch_testbench.Utf8.RoundTrip.{from_utf8-as_bytes}
use parch_testbench.ErrorNum.{ErrorNum}
use parch_testbench.Types.{from}
use parch_testbench.Types.OpenMode
use parch_testbench.Machine.{Platform, Machine, ok, err, attempt, ◌>>=◌}
use parch_testbench.Allocator.Laws.{AllocLaws}
use parch_testbench.Formats.{Formats}
use parch_testbench.Syscall.Files.{open_file}
use parch_testbench.FmtIo.{print}
use parch_testbench.FmtIo.Console.{Console}
use parch_testbench.FmtIo.Printing.{all_bytes}
use parch_testbench.FmtIo.Runs.{
  At, ValueAt, ValueWith-bind, ValueWith-attempt, ValueAt-bind, ValueAt-cast, Shows, Shows-bind,
  Shows-cast, Shows-pure, Shows-print, Refuses-attempt,
}
use parch_testbench.FmtIo.Opens.{
  Quiet, RefusesOpen, ServesOpen, Refuses-open_file, open_file-OpensTo,
}
use parch_testbench.Cat.{
  done, failed, open_failed, describe, show_content, with_file, exit_code, rust_main, main,
}
use parch_testbench.Cat.Reading.{Reads, read_all_lem}

-- What is printed for the content of a file.
abbrev pub content_text : Formats → List ℕ → List Text
content_text f content = f.lossy content ∷ codes "\n========== EOF ==========\r\n" ∷ []

-- What is printed where the file cannot be opened.
abbrev pub open_failed_text : Formats → ErrorNum → List Text
open_failed_text f e = codes "Cat failed, " ∷ describe f (open_failed e) ∷ codes "\r\n" ∷ []

module _ {P : Platform} (c : Console P) where
  -- What the terminal has.
  abbrev pub terminal : P.Kernel → List ℕ × List ℕ
  terminal k = (c.pending k, c.shown k)

module _ {P : Platform} (c : Console P) (f : Formats) where
  Shows-content :
      (content : List ℕ)
      → Shows c (show_content f (done content)) (done tt) (all_bytes (content_text f content))
  Shows-content content = Shows-cast c (show_content f (done content)) (done tt) (append-nil _) (
      Shows-bind c (print (content_text f content)) _ tt (done tt) _ []
        (Shows-print c (content_text f content)) (Shows-pure c (done tt)))

  Shows-exit_code :
      (e : ErrorNum)
      → Shows c
          (exit_code f (failed (open_failed e)))
          (2 ^ 64 - 1)
          (all_bytes (open_failed_text f e))
  Shows-exit_code e =
      Shows-cast c (exit_code f (failed (open_failed e))) (2 ^ 64 - 1) (append-nil _) (
        Shows-bind c (print (open_failed_text f e)) _ tt (2 ^ 64 - 1) _ []
          (Shows-print c (open_failed_text f e)) (Shows-pure c (2 ^ 64 - 1)))

  with_file_lem :
      (fuel fd : ℕ) (file : Reads P (from fd) (terminal c)) (content left out : List ℕ)
      (s : Machine P)
      → length content < fuel
      → file.left s.kernel ≡ content
      → c.pending s.kernel ≡ left
      → c.shown s.kernel ≡ out
      → ValueAt c
          (done tt)
          left
          (out ++ all_bytes (content_text f content))
          (with_file f fuel (ok (from fd)) s)
  with_file_lem fuel fd file content left out s enough whole same_left same_out =
      let (s1, run, none_left, kept) = read_all_lem (from fd) file fuel [] s (rw whole enough) in
      rw (run, whole)
        (ValueAt-cast c (done tt) (show_content f (done content) s1)
          (ap (λ t. t.0) kept ∙ same_left)
          (ap (λ t. t.1 ++ all_bytes (content_text f content)) kept
            ∙ ap (λ l. l ++ all_bytes (content_text f content)) same_out)
          (Shows-content content s1))

module _ {P : Platform} (c : Console P) (laws : AllocLaws P) (f : Formats) where
  rust_main_missing :
      (fuel : ℕ) (name path : Text) (rest : List (List ℕ)) (e : ErrorNum)
      → All (λ r. is_char r ≡ true) path
      → Lacks 0 (as_bytes path)
      → RefusesOpen c path OpenMode.read e
      → Shows c
          (rust_main f fuel 2 (map as_bytes (name ∷ path ∷ []) ++ rest))
          (failed (open_failed e))
          []
  unfolding rust_main
  rust_main_missing fuel name path rest e valid no_nul refused =
      rw (from_utf8-as_bytes path valid) (
        Shows-bind c (attempt (open_file path OpenMode.read)) (with_file f fuel) (err e)
          (failed (open_failed e)) [] []
          (Refuses-attempt c _ e [] (Refuses-open_file c laws path OpenMode.read e no_nul refused))
          (Shows-pure c (failed (open_failed e))))

  -- With two arguments, the second being a text without NUL, and a kernel that refuses to open the file
  -- of that name, `main` reads nothing, shows the error's name and returns -1, or panics for want of
  -- memory.
  pub main_missing :
      (s : Machine P) (fuel : ℕ) (name path : Text) (rest : List (List ℕ)) (e : ErrorNum)
      → All (λ r. is_char r ≡ true) path
      → Lacks 0 (as_bytes path)
      → RefusesOpen c path OpenMode.read e
      → ValueAt c
          (2 ^ 64 - 1)
          (c.pending s.kernel)
          (c.shown s.kernel ++ all_bytes (open_failed_text f e))
          (main f fuel 2 (map as_bytes (name ∷ path ∷ []) ++ rest) s)
  unfolding main
  main_missing s fuel name path rest e valid no_nul refused =
      Shows-bind c (rust_main f fuel 2 (map as_bytes (name ∷ path ∷ []) ++ rest)) (exit_code f)
        (failed (open_failed e)) (2 ^ 64 - 1) [] _
        (rust_main_missing fuel name path rest e valid no_nul refused) (Shows-exit_code c f e) s

  -- With two arguments, the second being a text without NUL, and a kernel that opens the file of that
  -- name and then reads it in pieces of at most 128 bytes, the terminal being as before: with more fuel
  -- than the file has bytes, `main` shows the whole content as text and the line that marks its end,
  -- reads nothing of the terminal and returns 0, or panics for want of memory.
  pub main_shows :
      (s : Machine P) (fuel fd : ℕ) (file : Reads P (from fd) (terminal c)) (content : List ℕ)
      (name path : Text) (rest : List (List ℕ))
      → All (λ r. is_char r ≡ true) path
      → Lacks 0 (as_bytes path)
      → ServesOpen c path OpenMode.read fd (λ k. file.left k ≡ content)
      → length content < fuel
      → ValueAt c 0
          (c.pending s.kernel)
          (c.shown s.kernel ++ all_bytes (content_text f content))
          (main f fuel 2 (map as_bytes (name ∷ path ∷ []) ++ rest) s)
  unfolding main rust_main
  main_shows s fuel fd file content name path rest valid no_nul served enough =
      let Q : P.Kernel → Type 0 = λ k. Quiet c s.kernel k × (file.left k ≡ content) in
      let left : List ℕ = c.pending s.kernel in
      let out : List ℕ = c.shown s.kernel ++ all_bytes (content_text f content) in
      rw (from_utf8-as_bytes path valid) (
        ValueAt-bind c (done tt) 0 left left out out
          (attempt (open_file path OpenMode.read) >>= with_file f fuel) (exit_code f) s
          (ValueWith-bind Q (At c left out) (ok (from fd)) (done tt)
            (attempt (open_file path OpenMode.read)) (with_file f fuel) s
            (ValueWith-attempt Q (from fd) (open_file path OpenMode.read) s (
              open_file-OpensTo laws path OpenMode.read fd
                (λ k k'. Quiet c k k' × (file.left k' ≡ content)) s no_nul served))
            (λ s1 q.
              with_file_lem c f fuel fd file content left (c.shown s.kernel) s1 enough q.1 q.0.0
                q.0.1))
          (λ s2 at. inl (s2, refl, at)))
