-- ===== src/FmtIo.antt =====
-- usrlib_rust/src/fmt_io.rs: printing, and reading bytes, characters and lines from the console.
-- `fmt::Arguments` is the list of the pieces that `write_fmt` hands to `write_str`, in order.
pub mod Chars
pub mod Console
pub mod Eof
pub mod Footprint
pub mod Illegal
pub mod Leaves
pub mod Lines
pub mod Masks
pub mod Printing
pub mod Opens
pub mod Promises
pub mod Runs
pub mod Specs
pub mod Valid
use Prim.Native.Nat.{bit_and}
use parch_testbench.Prelude.{
  ℕ, zero, suc, ◌-◌, ◌+◌, ◌*◌, ◌/◌, ◌%◌, ◌^◌, ◌||◌, Option, none, some, List, [], ◌∷◌, ◌++◌, Text,
  codes, ltb, ◌==◌, if◌then◌else◌,
}
use parch_testbench.Utf8.{is_char, as_bytes}
use parch_testbench.ErrorNum.{eeof}
use parch_testbench.Types.{FileDecstiptor}
use parch_testbench.Machine.{
  Platform, M, pure, fail, panic, fmt_error, starved, with_local, load_byte, Attempt, ok, err,
  attempt, ◌>>=◌, ◌>>◌,
}
use parch_testbench.Syscall.{read, write}

abbrev pub stdin : FileDecstiptor
stdin = record { inner = 0 }

abbrev pub stdout : FileDecstiptor
stdout = record { inner = 1 }

-- `fmt::Result`
pub data FmtResult : Type 0 where
  fmt_ok fmt_err : FmtResult

abbrev pub replacement : ℕ
replacement = 0xfffd

abbrev pub delete : ℕ
delete = 0x7f

-- `res.pop()`, with the text that is left.
unfoldable pub pop : Text → Option Text
pop [] = none
pop (c ∷ t) = some (elim (pop t) [ none ↦ [] | some t' ↦ c ∷ t' ])

-- `char::from_u32(buf)`, or the replacement character.
abbrev pub from_u32 : ℕ → ℕ
from_u32 buf = if is_char buf then buf else replacement

abbrev pub fmt_result : Attempt ℕ → FmtResult
fmt_result (ok n) = fmt_ok
fmt_result (err e) = fmt_err

abbrev pub popped : Text → Option Text → Text
popped res none = res
popped res (some res') = res'

module _ {P : Platform} where
  unfoldable pub write_str : Text → M P FmtResult
  write_str s = do r ← attempt (write stdout (as_bytes s)); pure (fmt_result r)

  abbrev pub or_stop : FmtResult → M P FmtResult → M P FmtResult
  or_stop fmt_ok rest = rest
  or_stop fmt_err rest = pure fmt_err

  unfoldable pub write_fmt : List Text → M P FmtResult
  write_fmt [] = pure fmt_ok
  write_fmt (s ∷ pieces) = do r ← write_str s; or_stop r (write_fmt pieces)

  abbrev pub unwrap_fmt : FmtResult → M P (Unit {0})
  unwrap_fmt fmt_ok = pure tt
  unwrap_fmt fmt_err = panic fmt_error

  unfoldable pub print : List Text → M P (Unit {0})
  print args = do r ← write_fmt args; unwrap_fmt r

  unfoldable pub getbyte_noecho : M P ℕ
  getbyte_noecho =
      with_local (0 ∷ [])
        (λ buf. do count ← read stdin buf 1; if count == 0 then fail eeof else load_byte buf)

  -- The rounds `1..length` that are left. The `assert_eq!` behind the test repeats it.
  unfoldable pub continuation : ℕ → ℕ → M P ℕ
  continuation zero buf = pure (from_u32 buf)
  continuation (suc n) buf = do
    b ← getbyte_noecho
    let rest = continuation n (buf * 64 % 2 ^ 32 + bit_and b 0b00111111)
    if bit_and b 0b11000000 == 0b10000000 then rest else pure replacement

  -- `length` bytes are announced by the first, `init`.
  abbrev pub announced : ℕ → ℕ → M P ℕ
  announced length init = continuation (length - 1) (bit_and init (0b01111111 / 2 ^ length))

  -- What follows the first byte.
  unfoldable pub after_first : ℕ → M P ℕ
  after_first init =
      if ltb init 0b10000000
      then pure init
      else if ltb init 0b11100000
      then announced 2 init
      else if ltb init 0b11110000
      then announced 3 init
      else if ltb init 0b11111000
      then announced 4 init
      else if ltb init 0b11111100
      then announced 5 init
      else if ltb init 0b11111110
      then announced 6 init
      else pure replacement

  unfoldable pub getchar_noecho : M P ℕ
  getchar_noecho = do init ← getbyte_noecho; after_first init

  -- `print!("{}", res)` writes the character as one piece.
  unfoldable pub getchar : M P ℕ
  getchar = do
    res ← getchar_noecho
    if res == b'\r' then print (codes "\n" ∷ []) else pure tt
    print ((res ∷ []) ∷ [])
    pure res

  abbrev pub rub_out : Option Text → M P (Unit {0})
  rub_out none = pure tt
  rub_out (some res) = print ((8 ∷ 32 ∷ 8 ∷ []) ∷ [])

  -- `res` is the text so far; the fuel bounds the characters that are read.
  unfoldable pub line_loop : ℕ → Text → M P Text
  line_loop zero res = λ s. starved s
  line_loop (suc fuel) res = do
    b ← getchar
    let again = (do rub_out (pop res); line_loop fuel (popped res (pop res)))
    let push = line_loop fuel (res ++ b ∷ [])
    if b == b'\r' || b == b'\n' then pure res else if b == delete then again else push

  unfoldable pub get_line : ℕ → M P Text
  get_line fuel = line_loop fuel []
