-- ===== src/FmtIo/Promises.antt =====
-- What usrlib_rust/src/fmt_io.rs promises at a console: reading characters and lines.
use mathlib.Core.List.{reverse}
use parch_testbench.Prelude.{
  ℕ, ◌+◌, ◌*◌, ◌%◌, ◌≤◌, ◌<◌, ◌≡◌, true, none, List, [], ◌∷◌, ◌++◌, Text, length, All,
}
use parch_testbench.Utf8.{is_char, encode_char, as_bytes, from_utf8}
use parch_testbench.ErrorNum.{eeof}
use parch_testbench.Machine.{Platform, Machine, value, error}
use parch_testbench.FmtIo.{getchar_noecho, get_line}
use parch_testbench.FmtIo.Console.{Console}
use parch_testbench.FmtIo.Chars.{getchar_noecho-encode_char, stray_continuation}
use parch_testbench.FmtIo.Lines.{echo, ends_line, edit, echo_edit, IsTyped, get_line_lem}
use parch_testbench.FmtIo.Eof.{get_line_end}

module _ {P : Platform} (c : Console P) (s : Machine P) where
  -- Where the typed bytes begin with the UTF-8 bytes of a character, `getchar_noecho` returns that
  -- character; just its bytes are consumed and nothing is shown.
  pub getchar_reads :
      (r : ℕ) (rest : List ℕ)
      → is_char r ≡ true
      → c.pending s.kernel ≡ encode_char r ++ rest
      → (s' : Machine P) × (getchar_noecho s ≡ value r s')
        × (c.pending s'.kernel ≡ rest)
        × (c.shown s'.kernel ≡ c.shown s.kernel ++ [])
  getchar_reads r rest valid typed = getchar_noecho-encode_char c r valid s rest typed

  -- Where the typed bytes begin with two continuation bytes, which `String::from_utf8` refuses,
  -- `getchar_noecho` consumes them and returns a character: the low five bits of the first, then the
  -- low six of the second.
  pub getchar_accepts_stray :
      (b x : ℕ) (rest : List ℕ)
      → 0x80 ≤ b
      → b < 0xc0
      → x < 64
      → c.pending s.kernel ≡ b ∷ (0x80 + x) ∷ rest
      → (from_utf8 (b ∷ (0x80 + x) ∷ []) ≡ none)
        × ((s' : Machine P) × (getchar_noecho s ≡ value (b % 32 * 64 + x) s')
            × (c.pending s'.kernel ≡ rest))
  getchar_accepts_stray b x rest lo hi six typed =
      let (reads, refused) = stray_continuation c b x lo hi six in
      let (s', run, left, shown) = reads s rest typed in (refused, (s', run, left))

  -- Where the typed bytes are those of characters that end no line, of one that does, and of more,
  -- `get_line` with more fuel than characters returns the characters less those that DEL took away.
  -- It consumes the bytes up to the end of the line and no further, and shows each character as it is
  -- typed, a line feed before a carriage return, and each rubbing out.
  pub get_line_reads :
      (fuel e : ℕ) (typed : Text) (rest : List ℕ)
      → length typed < fuel
      → All IsTyped typed
      → is_char e ≡ true
      → ends_line e ≡ true
      → c.pending s.kernel ≡ (as_bytes typed ++ encode_char e) ++ rest
      → (s' : Machine P) × (get_line fuel s ≡ value (reverse (edit [] typed)) s')
        × (c.pending s'.kernel ≡ rest)
        × (c.shown s'.kernel ≡ c.shown s.kernel ++ (echo_edit [] typed ++ echo e))
  get_line_reads fuel e typed rest enough goes_on valid ends input =
      get_line_lem c fuel e typed enough goes_on valid ends s rest input

  -- Where the typed bytes are those of characters that end no line and the input ends with them,
  -- `get_line` with more fuel than characters fails with `EEOF`: the unfinished line is consumed,
  -- shown and lost.
  pub get_line_loses :
      (fuel : ℕ) (typed : Text)
      → length typed < fuel
      → All IsTyped typed
      → c.pending s.kernel ≡ as_bytes typed
      → (s' : Machine P) × (get_line fuel s ≡ error eeof s')
        × (c.pending s'.kernel ≡ [])
        × (c.shown s'.kernel ≡ c.shown s.kernel ++ echo_edit [] typed)
  get_line_loses fuel typed enough goes_on input = get_line_end c fuel typed enough goes_on s input
