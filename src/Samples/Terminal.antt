-- ===== src/Samples/Terminal.antt =====
-- The theorems on reading from the terminal at concrete typed bytes.
use mathlib.Core.List.{reverse}
use parch_testbench.Prelude.{
  inl, ℕ, ◌≤◌, ◌<◌, ◌≡◌, refl, sym, All, none, List, [], ◌∷◌, ◌++◌, Text, codes, arith,
}
use parch_testbench.Utf8.{encode_char, as_bytes, from_utf8}
use parch_testbench.ErrorNum.{eeof}
use parch_testbench.Machine.{Machine, value, error}
use parch_testbench.FmtIo.{getchar_noecho, get_line}
use parch_testbench.FmtIo.Valid.{IsChar, get_line-IsChar}
use parch_testbench.FmtIo.Illegal.{getchar_swallows}
use parch_testbench.FmtIo.{replacement}
use parch_testbench.FmtIo.Lines.{echo, edit, echo_edit, IsTyped}
use parch_testbench.FmtIo.Promises.{
  getchar_reads, getchar_accepts_stray, get_line_reads, get_line_loses,
}
use parch_testbench.Samples.{platform, fresh_kernel, booted, console}

-- A machine at whose terminal the bytes are typed.
abbrev typed_in : List ℕ → Machine platform
typed_in bytes = booted (record fresh_kernel { pending = bytes })

euro : encode_char 0x20ac ++ 10 ∷ [] ≡ 0xe2 ∷ 0x82 ∷ 0xac ∷ 10 ∷ []
unfolding encode_char
euro = refl

getchar_reads_example :
    (s' : Machine platform) × (getchar_noecho (typed_in (0xe2 ∷ 0x82 ∷ 0xac ∷ 10 ∷ []))
      ≡ value 0x20ac s')
    × (s'.kernel.pending ≡ 10 ∷ [])
    × (s'.kernel.shown ≡ [])
unfolding console
getchar_reads_example =
    getchar_reads console (typed_in (0xe2 ∷ 0x82 ∷ 0xac ∷ 10 ∷ [])) 0x20ac (10 ∷ []) refl (sym euro)

getchar_accepts_stray_example :
    (from_utf8 (0x81 ∷ 0x85 ∷ []) ≡ none)
    × ((s' : Machine platform) × (getchar_noecho (typed_in (0x81 ∷ 0x85 ∷ [])) ≡ value 0x45 s')
        × (s'.kernel.pending ≡ []))
unfolding console
getchar_accepts_stray_example =
    getchar_accepts_stray console (typed_in (0x81 ∷ 0x85 ∷ [])) 0x81 5 [] (omega arith)
      (omega arith) (omega arith) refl

letter : (r : ℕ) → 0x20 ≤ r → r < 0x80 → IsTyped r
letter r lo hi = record { valid = ground arith; goes_on = ground arith }

-- `lx`, DEL and `s`.
abbrev keys : Text
keys = b'l' ∷ b'x' ∷ 127 ∷ b's' ∷ []

keys-IsTyped : All IsTyped keys
keys-IsTyped = (
  letter b'l' (omega arith) (omega arith),
  (
    letter b'x' (omega arith) (omega arith),
    (letter 127 (omega arith) (omega arith), (letter b's' (omega arith) (omega arith), tt)),
  ),
)

keys_bytes : as_bytes keys ≡ keys
unfolding as_bytes encode_char
keys_bytes = refl

line_bytes : (as_bytes keys ++ encode_char b'\n') ++ codes "ps" ≡ keys ++ 10 ∷ codes "ps"
unfolding as_bytes encode_char
line_bytes = refl

get_line_reads_example :
    (s' : Machine platform) × (get_line 8 (typed_in (keys ++ 10 ∷ codes "ps"))
      ≡ value (reverse (edit [] keys)) s')
    × (s'.kernel.pending ≡ codes "ps")
    × (s'.kernel.shown ≡ echo_edit [] keys ++ echo b'\n')
unfolding console
get_line_reads_example =
    get_line_reads console (typed_in (keys ++ 10 ∷ codes "ps")) 8 b'\n' keys (codes "ps")
      (omega arith) keys-IsTyped refl refl (sym line_bytes)

get_line_loses_example :
    (s' : Machine platform) × (get_line 8 (typed_in keys) ≡ error eeof s')
    × (s'.kernel.pending ≡ [])
    × (s'.kernel.shown ≡ echo_edit [] keys)
unfolding console
get_line_loses_example =
    get_line_loses console (typed_in keys) 8 keys (omega arith) keys-IsTyped (sym keys_bytes)

line_read :
    (s' : Machine platform) × (get_line 8 (typed_in (keys ++ 10 ∷ codes "ps"))
      ≡ value (reverse (edit [] keys)) s')
    × (s'.kernel.pending ≡ codes "ps")
    × (s'.kernel.shown ≡ echo_edit [] keys ++ echo b'\n')
unfolding console
line_read =
    get_line_reads console (typed_in (keys ++ 10 ∷ codes "ps")) 8 b'\n' keys (codes "ps")
      (omega arith) keys-IsTyped refl refl (sym line_bytes)

-- Whatever the run was, the line consists of characters.
get_line-IsChar_example : All IsChar (reverse (edit [] keys))
get_line-IsChar_example =
    get_line-IsChar 8 (typed_in (keys ++ 10 ∷ codes "ps")) line_read.0 (reverse (edit [] keys))
      line_read.1

getchar_swallows_example :
    (s' : Machine platform) × (getchar_noecho (typed_in (0xe2 ∷ 10 ∷ codes "ps"))
      ≡ value replacement s')
    × (s'.kernel.pending ≡ codes "ps")
    × (s'.kernel.shown ≡ [])
unfolding console
getchar_swallows_example =
    getchar_swallows console (typed_in (0xe2 ∷ 10 ∷ codes "ps")) 0xe2 10 (codes "ps") (omega arith)
      (omega arith) (inl (omega arith)) refl
