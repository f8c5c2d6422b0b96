-- ===== src/Utf8.antt =====
-- Characters and their UTF-8 bytes, as `str::as_bytes`, `char::from_u32` and `String::from_utf8` of
-- the Rust standard library have them. A character is its code point.
pub mod RoundTrip
use parch_testbench.Prelude.{
  ℕ, zero, suc, ◌+◌, ◌-◌, ◌*◌, ◌/◌, ◌%◌, Bool, ◌&&◌, ◌||◌, Option, none, some, List, [], ◌∷◌, ◌++◌,
  Text, ltb, leb, if◌then◌else◌,
}

-- `char::from_u32(c).is_some()`
abbrev pub is_char : ℕ → Bool
is_char c = ltb c 0xd800 || (leb 0xe000 c && ltb c 0x110000)

unfoldable pub encode_char : ℕ → List ℕ
encode_char c =
    if ltb c 0x80
    then c ∷ []
    else if ltb c 0x800
    then (0xc0 + c / 64) ∷ (0x80 + c % 64) ∷ []
    else if ltb c 0x10000
    then (0xe0 + c / 4096) ∷ (0x80 + c / 64 % 64) ∷ (0x80 + c % 64) ∷ []
    else (0xf0 + c / 262144) ∷ (0x80 + c / 4096 % 64) ∷ (0x80 + c / 64 % 64) ∷ (0x80 + c % 64) ∷ []

unfoldable pub as_bytes : Text → List ℕ
as_bytes [] = []
as_bytes (c ∷ t) = encode_char c ++ as_bytes t

abbrev cons_char : ℕ → Option Text → Option Text
cons_char c none = none
cons_char c (some t) = some (c ∷ t)

-- `need` bytes are missing of a character whose bits so far are `acc` and whose least code is `low`.
decode_from : ℕ → ℕ → ℕ → List ℕ → Option Text
decode_from zero acc low [] = some []
decode_from (suc need) acc low [] = none
decode_from zero acc low (b ∷ s) =
    let one = cons_char b (decode_from 0 0 0 s) in
    let two = decode_from 1 (b - 0xc0) 0x80 s in
    let three = decode_from 2 (b - 0xe0) 0x800 s in
    let four = decode_from 3 (b - 0xf0) 0x10000 s in
    if ltb b 0x80
    then one
    else if ltb b 0xc0
    then none
    else if ltb b 0xe0
    then two
    else if ltb b 0xf0
    then three
    else if ltb b 0xf8
    then four
    else none
decode_from (suc zero) acc low (b ∷ s) =
    let c = acc * 64 + (b - 0x80) in
    let rest = cons_char c (decode_from 0 0 0 s) in
    if leb 0x80 b && ltb b 0xc0 && (leb low c && is_char c) then rest else none
decode_from (suc (suc need)) acc low (b ∷ s) =
    let rest = decode_from (suc need) (acc * 64 + (b - 0x80)) low s in
    if leb 0x80 b && ltb b 0xc0 then rest else none

unfoldable pub from_utf8 : List ℕ → Option Text
unfolding decode_from
from_utf8 bytes = decode_from 0 0 0 bytes
