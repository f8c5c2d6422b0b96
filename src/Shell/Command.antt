-- ===== src/Shell/Command.antt =====
-- `Command::parse` of parch_utils/shell/src/main.rs. The recursion is on fuel.
pub mod Debug
pub mod Pipes
pub mod Redirects
pub mod Returns
pub mod Words
use parch_testbench.Prelude.{
  ℕ, zero, suc, ◌-◌, Bool, true, false, ◌||◌, Option, none, some, List, [], ◌∷◌, Text, length, take,
  drop, leb, ltb, if◌then◌else◌,
}
use parch_testbench.Strings.{find, strip_char, trim, split, non_empty}

-- A `Command` is a boxed `CommandInner`.
mutual
  pub data IoType : Type 0 where
    default : IoType
    file : Text → IoType
    cmd : Command → IoType

  pub data Command : Type 0 where
    command : Text → List Text → IoType → IoType → Command

abbrev pub exec_path : Command → Text
exec_path (command p rest i o) = p

abbrev pub args : Command → List Text
args (command p rest i o) = rest

abbrev pub input : Command → IoType
input (command p rest i o) = i

abbrev pub output : Command → IoType
output (command p rest i o) = o

-- `c.output = io`
abbrev pub with_output : Command → IoType → Command
with_output (command p rest i o) io = command p rest i io

-- `io != IOType::Default`
abbrev pub is_redirected : IoType → Bool
is_redirected default = false
is_redirected (file path) = true
is_redirected (cmd c) = true

-- `Result<A, ParseErr>`, a panic, or no fuel left.
pub data Parse (A : Type 0) : Type 0 where
  ok : A → Parse A
  parse_err panicked starved : Parse A

infixl 5 ◌>>=◌
abbrev pub ◌>>=◌ : {A B : Type 0} → Parse A → (A → Parse B) → Parse B
ok a >>= f = f a
parse_err >>= f = parse_err
panicked >>= f = panicked
starved >>= f = starved

abbrev pub unwrap : {A : Type 0} → Option A → Parse A
unwrap none = panicked
unwrap (some a) = ok a

-- `s.split_at(n)` panics behind the end.
unfoldable pub split_at : Text → ℕ → Parse (Text × Text)
split_at s n = if leb n (length s) then ok (take n s, drop n s) else panicked

-- The program with its arguments, the input and the output of a command without `|`.
abbrev pub Parts : Type 0
Parts = Text × Option Text × Option Text

abbrev pub some_trimmed : Text → Option Text
some_trimmed s = some (trim s)

-- `cmd.split_at(pos)` and `strip_prefix(c).unwrap()`
unfoldable pub cut_at : ℕ → Text → ℕ → Parse (Text × Text)
cut_at c s pos = do (l, r) ← split_at s pos; r' ← unwrap (strip_char c r); ok (l, r')

unfoldable pub redirections : Text → Option ℕ → Option ℕ → Parse Parts
redirections s (some input_pos) (some output_pos) =
    if ltb input_pos output_pos
    then (do
      (e, i_o) ← cut_at b'<' s input_pos
      (i, o) ← cut_at b'>' i_o (output_pos - input_pos)
      ok (trim e, some_trimmed i, some_trimmed o))
    else (do
      (e, o_i) ← cut_at b'>' s output_pos
      (o, i) ← cut_at b'<' o_i (input_pos - output_pos)
      ok (trim e, some_trimmed i, some_trimmed o))
redirections s (some input_pos) none = do
  (e, i) ← cut_at b'<' s input_pos
  ok (trim e, some_trimmed i, none)
redirections s none (some output_pos) = do
  (e, o) ← cut_at b'>' s output_pos
  ok (trim e, none, some_trimmed o)
redirections s none none = ok (trim s, none, none)

abbrev pub io_type : Option Text → IoType
io_type none = default
io_type (some path) = file path

-- `pop_front().ok_or(ParseErr)?` and the record
abbrev pub build : List Text → Option Text → Option Text → Parse Command
build [] i o = parse_err
build (path ∷ rest) i o = ok (command path rest (io_type i) (io_type o))

unfoldable pub parse_simple : Text → Parse Command
parse_simple s = do
  (exec, i, o) ← redirections s (find b'<' s) (find b'>' s)
  build (non_empty (split b' ' exec)) i o

abbrev pub connect : Command → Command → Parse Command
connect l r =
    if is_redirected (output l) || is_redirected (input r)
    then parse_err
    else ok (with_output l (cmd r))

-- `parse` is the recursive call, `found` the position of the first `|`.
unfoldable pub parse_found : (Text → Parse Command) → Text → Option ℕ → Parse Command
parse_found parse s (some split_pos) = do
  (l, r) ← split_at s split_pos
  l' ← parse (trim l)
  r' ← parse (trim r)
  connect l' r'
parse_found parse s none = parse_simple s

unfoldable pub parse_fuel : ℕ → Text → Parse Command
parse_fuel zero s = starved
parse_fuel (suc fuel) s = parse_found (parse_fuel fuel) s (find b'|' s)

unfoldable pub parse : Text → Parse Command
parse s = parse_fuel (suc (length s)) s
