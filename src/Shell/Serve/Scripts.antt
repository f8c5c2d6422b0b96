-- ===== src/Shell/Serve/Scripts.antt =====
-- `main` of parch_utils/shell/src/main.rs with the name of a script, which is then its input.
use parch_testbench.Prelude.{
  ℕ, ◌≤◌, ◌<◌, ◌≡◌, ◌∙◌, refl, true, inl, List, [], ◌∷◌, ◌++◌, map, Text, codes, All, Lacks, length,
  arith, ltb,
}
use parch_testbench.Utf8.{is_char, as_bytes}
use parch_testbench.Types.{from}
use parch_testbench.Types.OpenMode
use parch_testbench.Machine.{Platform, Machine, back, unwrap, ◌>>◌}
use parch_testbench.Machine.Blocks.{Memory}
use parch_testbench.Machine.Arguments.Texts.{argument_text-as_bytes}
use parch_testbench.Allocator.Laws.{AllocLaws}
use parch_testbench.Formats.{Formats}
use parch_testbench.Syscall.{do_syscall}
use parch_testbench.Syscall.Files.{close, open_file}
use parch_testbench.Syscall.Paths.{close_call}
use parch_testbench.FmtIo.Console.{Console}
use parch_testbench.FmtIo.Lines.{IsTyped}
use parch_testbench.FmtIo.Opens.{OpensTo, open_file-OpensTo}
use parch_testbench.FmtIo.Runs.{
  ValueAt, ValueAt-cast, ValueWith, ValueWith-bind, ValueWith-unwrap, Shows-print,
}
use parch_testbench.FmtIo.Printing.{all_bytes}
use parch_testbench.FmtIo.Specs.{Shown, ValueAt-FinishesOf}
use parch_testbench.Shell.Serve.{ln, println, remap_stdin, main_loop, main}
use parch_testbench.Shell.Serve.Clock.{Header, IsPrompt}
use parch_testbench.Shell.Serve.Session.{Entry, goodbye, session_input}
use parch_testbench.Shell.Serve.Transcript.{Children, IsTaken, IsSession, rest-FinishesOf}

-- A kernel that closes descriptor 0 and then opens the file of the path on it, whose bytes are read in
-- place of typed ones; nothing is shown.
pub record Script {P : Platform} (c : Console P) (path : Text) (content : List ℕ) : Type 0 where
  pub closes :
      (m : Memory) (k : P.Kernel)
      → (ret : ℕ) × (k' : P.Kernel) × (P.ecall (close_call 0) m k ≡ back ret 0 m k')
        × (c.shown k' ≡ c.shown k)
  pub opens :
      OpensTo P path OpenMode.read 0 (λ k k'. (c.pending k' ≡ content) × (c.shown k' ≡ c.shown k))

module _ {P : Platform} {c : Console P} (laws : AllocLaws P) (f : Formats) where
  remap_stdin_lem :
      (name path : Text) (rest : List (List ℕ)) (content : List ℕ) (s : Machine P)
      → All (λ r. is_char r ≡ true) path
      → Lacks 0 (as_bytes path)
      → Script c path content
      → ValueAt c tt content
          (c.shown s.kernel)
          (remap_stdin f (map as_bytes (name ∷ path ∷ []) ++ rest) s)
  unfolding remap_stdin close do_syscall from
  remap_stdin_lem name path rest content s valid no_nul script =
      let (ret, k, call, out) = script.closes s.mem s.kernel in
      let s1 : Machine P = record s { kernel = k } in
      rw (call, argument_text-as_bytes s1 (name ∷ path ∷ []) rest 1 path refl valid)
        (ValueWith-bind _ _ (from 0) tt (unwrap (open_file path OpenMode.read)) _ s1
          (ValueWith-unwrap _ (from 0) (open_file path OpenMode.read) s1
            (open_file-OpensTo laws path OpenMode.read 0 _ s1 no_nul script.opens))
          (λ s2 (left, at). inl (s2, refl, (left, at ∙ out))))

  -- With a script as the second of at least two arguments, a text without NUL that the kernel opens on
  -- descriptor 0 once that is closed, with or without the clock device, on a kernel that knows the
  -- working directory and runs every program to its exit, where each line of the script is white space,
  -- begins with `help` or names a program with arguments and at most one redirection: with more rounds
  -- than lines and more fuel than characters in each, `main` greets, shows for each line of the script
  -- a prompt, its echo and a reply, reads the script to its end, says so and returns 0; or it panics
  -- for want of memory. It is never out of rounds.
  pub main_script :
      (h : Header c) (children : Children c) (s : Machine P) (rounds fuel argc : ℕ)
      (name path : Text) (rest : List (List ℕ)) (entries : List Entry) (last : Text)
      → 2 ≤ argc
      → All (λ r. is_char r ≡ true) path
      → Lacks 0 (as_bytes path)
      → Script c path (session_input entries last)
      → length entries < rounds
      → All (IsTaken fuel) entries
      → length last < fuel
      → All IsTyped last
      → ValueWith
          (Shown c (IsSession children f (IsPrompt f h.place) entries last) [] (c.shown s.kernel))
          0
          (main f rounds fuel argc (map as_bytes (name ∷ path ∷ []) ++ rest) s)
  unfolding main
  main_script h children s rounds fuel argc name path rest entries last more valid no_nul script lt
        taken short goes_on =
      let test : ltb 1 argc ≡ true = ground (arith, more) in
      let hello : List ℕ = all_bytes (ln (codes "[shell] hello world!") ∷ []) in
      let argv : List (List ℕ) = map as_bytes (name ∷ path ∷ []) ++ rest in
      rw test (
        ValueWith-bind _ _ tt 0 (println (codes "[shell] hello world!")) _ s
          (Shows-print c (ln (codes "[shell] hello world!") ∷ []) s)
          (λ s1 (left, at).
            ValueAt-FinishesOf c _ (remap_stdin f argv) (λ u. main_loop f rounds fuel >> goodbye) tt
              0 (session_input entries last) (c.shown s.kernel) hello s1
              (ValueAt-cast c tt (remap_stdin f argv s1) refl at (
                remap_stdin_lem name path rest (session_input entries last) s1 valid no_nul script))
              (rest-FinishesOf laws h children f rounds fuel entries last lt taken short goes_on)))
