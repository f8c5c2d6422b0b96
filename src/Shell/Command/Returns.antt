-- ===== src/Shell/Command/Returns.antt =====
-- `Command::parse` of parch_utils/shell/src/main.rs: its end, and the form of what
-- it returns.
use parch_testbench.Prelude.{
  ℕ, ◌≡◌, ◌≢◌, refl, Bool-cases, inl, inr, ◌⊎◌, ◌++◌, Option, none, some, List, [], ◌∷◌, Text,
  Lacks, All, ltb, ◌-◌, leb, length,
}
use parch_testbench.Strings.{find, strip_char, trim, split, non_empty}
use parch_testbench.Strings.Positions.{find-cases}
use parch_testbench.Strings.Split.{split_pieces, All-non_empty}
use parch_testbench.Shell.Command.{
  Command, exec_path, args, input, output, IoType, default, file, cmd, Parse, ok, parse_err,
  panicked, starved, ◌>>=◌, unwrap, split_at, cut_at, Parts, redirections, some_trimmed, io_type,
  build, parse_simple, parse,
}
use parch_testbench.Shell.Command.Pipes.{parse_pipe, parse-Lacks, parse_accepts}

-- Not out of fuel.
abbrev Ends : {A : Type 0} → Parse A → Type 0
Ends m = m ≢ starved

Ends-bind :
    {A B : Type 0} (m : Parse A) (f : A → Parse B)
    → Ends m
    → ((a : A) → Ends (f a))
    → Ends (m >>= f)
Ends-bind (ok a) f hm hf = hf a
Ends-bind parse_err f hm hf = λ e. cc
Ends-bind panicked f hm hf = λ e. cc
Ends-bind starved f hm hf = absurd (hm refl)

Ends-ok : {A : Type 0} (a : A) → Ends (ok a)
Ends-ok a e = cc

Ends-unwrap : {A : Type 0} (o : Option A) → Ends (unwrap o)
Ends-unwrap none e = cc
Ends-unwrap (some a) e = cc

Ends-split_at : (s : Text) (n : ℕ) → Ends (split_at s n)
unfolding split_at
Ends-split_at s n = elim (Bool-cases (leb n (length s))) [
  | inl e ↦ rw e (Ends-ok _)
  | inr e ↦ rw e (λ p. cc)
]

Ends-cut_at : (c : ℕ) (s : Text) (n : ℕ) → Ends (cut_at c s n)
unfolding cut_at
Ends-cut_at c s n =
    Ends-bind (split_at s n) _ (Ends-split_at s n) (λ p.
      Ends-bind (unwrap (strip_char c p.1)) _ (Ends-unwrap (strip_char c p.1)) (λ r. Ends-ok _))

Ends-two_cuts :
    (c d : ℕ) (s : Text) (n m : ℕ) (f : Text → Text → Text → Parts)
    → Ends (cut_at c s n >>= λ p. cut_at d p.1 m >>= λ q. ok (f p.0 q.0 q.1))
Ends-two_cuts c d s n m f =
    Ends-bind (cut_at c s n) _ (Ends-cut_at c s n)
      (λ p. Ends-bind (cut_at d p.1 m) _ (Ends-cut_at d p.1 m) (λ q. Ends-ok _))

Ends-redirections : (s : Text) (i o : Option ℕ) → Ends (redirections s i o)
unfolding redirections
Ends-redirections s none none = Ends-ok _
Ends-redirections s none (some o) =
    Ends-bind (cut_at b'>' s o) _ (Ends-cut_at b'>' s o) (λ p. Ends-ok _)
Ends-redirections s (some i) none =
    Ends-bind (cut_at b'<' s i) _ (Ends-cut_at b'<' s i) (λ p. Ends-ok _)
Ends-redirections s (some i) (some o) = elim (Bool-cases (ltb i o)) [
  | inl e ↦
      rw e (Ends-two_cuts b'<' b'>' s i (o - i) (λ e i o. (trim e, some_trimmed i, some_trimmed o)))
  | inr e ↦
      rw e (Ends-two_cuts b'>' b'<' s o (i - o) (λ e o i. (trim e, some_trimmed i, some_trimmed o)))
]

Ends-build : (ps : List Text) (i o : Option Text) → Ends (build ps i o)
Ends-build [] i o e = cc
Ends-build (p ∷ ps) i o e = cc

Ends-parse_simple : (s : Text) → Ends (parse_simple s)
unfolding parse_simple
Ends-parse_simple s =
    Ends-bind (redirections s (find b'<' s) (find b'>' s)) _ (Ends-redirections s _ _)
      (λ p. Ends-build (non_empty (split b' ' p.0)) p.1 p.2)

-- The parser comes to an end on every text: its fuel, one more than the characters, is enough.
pub parse_ends : (s : Text) → parse s ≢ starved
parse_ends s = elim (find-cases b'|' s) [
  | inl h ↦ rw (parse-Lacks s h) (Ends-parse_simple s)
  | inr (e, t, here, h) ↦
      rw (here, parse_pipe e t h)
        (Ends-bind (parse_simple (trim e)) _ (Ends-parse_simple (trim e)) (λ c p. cc))
]

abbrev fails : Parse Command
fails = parse_err

only_fails :
    (m : Parse Command)
    → Ends m
    → ((m >>= λ _. fails) ≡ parse_err) ⊎ ((m >>= λ _. fails) ≡ panicked)
only_fails (ok c) h = inl refl
only_fails parse_err h = inl refl
only_fails panicked h = inr refl
only_fails starved h = absurd (h refl)

pub parse_pipe_fails :
    (e t : Text)
    → Lacks b'|' e
    → (parse (e ++ b'|' ∷ t) ≡ parse_err) ⊎ (parse (e ++ b'|' ∷ t) ≡ panicked)
parse_pipe_fails e t h =
    rw (parse_pipe e t h) (only_fails (parse_simple (trim e)) (Ends-parse_simple (trim e)))

-- A piece of a line between spaces.
abbrev pub IsPiece : Text → Type 0
IsPiece p = (p ≢ []) × Lacks b' ' p

abbrev pub IsPlainIo : IoType → Type 0
IsPlainIo default = Unit
IsPlainIo (file path) = Unit
IsPlainIo (cmd c) = ⊥

pub record IsParsed (c : Command) : Type 0 where
  pub path_piece : IsPiece (exec_path c)
  pub args_pieces : All IsPiece (args c)
  pub input_plain : IsPlainIo (input c)
  pub output_plain : IsPlainIo (output c)

abbrev Good : Parse Command → Type 0
Good (ok c) = IsParsed c
Good parse_err = Unit
Good panicked = Unit
Good starved = Unit

Good-bind :
    (m : Parse Parts) (f : Parts → Parse Command) → ((p : Parts) → Good (f p)) → Good (m >>= f)
Good-bind (ok p) f h = h p
Good-bind parse_err f h = tt
Good-bind panicked f h = tt
Good-bind starved f h = tt

IsPlainIo-io_type : (o : Option Text) → IsPlainIo (io_type o)
IsPlainIo-io_type none = tt
IsPlainIo-io_type (some p) = tt

Good-build : (ps : List Text) (i o : Option Text) → All IsPiece ps → Good (build ps i o)
Good-build [] i o h = tt
Good-build (p ∷ ps) i o h = record {
  path_piece = h.0;
  args_pieces = h.1;
  input_plain = IsPlainIo-io_type i;
  output_plain = IsPlainIo-io_type o;
}

Good-parse_simple : (s : Text) → Good (parse_simple s)
unfolding parse_simple
Good-parse_simple s = Good-bind (redirections s (find b'<' s) (find b'>' s)) _ (λ p.
    Good-build (non_empty (split b' ' p.0)) p.1 p.2
      (All-non_empty (Lacks b' ') (split b' ' p.0) (split_pieces b' ' p.0)))

-- An accepted command has a program and arguments that are non-empty and hold no space, and its input
-- and output are the default or a file, never a pipe.
pub parse-IsParsed : (s : Text) (c : Command) → parse s ≡ ok c → IsParsed c
parse-IsParsed s c h = rw (parse_accepts s c h).1 at (Good-parse_simple s)
