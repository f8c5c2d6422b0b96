-- ===== src/Strings.antt =====
-- The methods of Rust's `str` that the shell uses. A text is the list of its characters: every
-- position that the shell computes stands at a one-byte character, so positions count characters.
pub mod Positions
pub mod Split
pub mod Trim
use parch_testbench.Prelude.{
  ℕ, suc, Bool, true, false, ◌&&◌, ◌||◌, Option, none, some, List, [], ◌∷◌, Text, leb, ◌==◌,
  if◌then◌else◌,
}

abbrev one_more : Option ℕ → Option ℕ
one_more none = none
one_more (some n) = some (suc n)

-- `s.find(c)`
unfoldable pub find : ℕ → Text → Option ℕ
find c [] = none
find c (x ∷ s) = if x == c then some 0 else one_more (find c s)

-- `s.strip_prefix(c)` for a character
unfoldable pub strip_char : ℕ → Text → Option Text
strip_char c [] = none
strip_char c (x ∷ s) = if x == c then some s else none

-- `s.strip_prefix(p)` for a text
unfoldable pub strip_prefix : Text → Text → Option Text
strip_prefix [] s = some s
strip_prefix (p ∷ ps) [] = none
strip_prefix (p ∷ ps) (x ∷ s) = if x == p then strip_prefix ps s else none

unfoldable pub starts_with : Text → Text → Bool
starts_with [] s = true
starts_with (p ∷ ps) [] = false
starts_with (p ∷ ps) (x ∷ s) = x == p && starts_with ps s

-- `char::is_whitespace`, the Unicode property White_Space
unfoldable pub is_whitespace : ℕ → Bool
is_whitespace c =
    (leb 9 c && leb c 13)
    || (c == 32 || c == 0x85 || c == 0xa0 || c == 0x1680)
    || ((leb 0x2000 c && leb c 0x200a) || c == 0x2028 || c == 0x2029 || c == 0x202f)
    || (c == 0x205f || c == 0x3000)

unfoldable pub trim_start : Text → Text
trim_start [] = []
trim_start (x ∷ s) = if is_whitespace x then trim_start s else x ∷ s

abbrev push_kept : ℕ → Text → Text
push_kept x [] = if is_whitespace x then [] else x ∷ []
push_kept x (y ∷ s) = x ∷ y ∷ s

unfoldable pub trim_end : Text → Text
trim_end [] = []
trim_end (x ∷ s) = push_kept x (trim_end s)

unfoldable pub trim : Text → Text
unfolding trim_start trim_end
trim s = trim_end (trim_start s)

abbrev onto_first : ℕ → List Text → List Text
onto_first x [] = (x ∷ []) ∷ []
onto_first x (p ∷ ps) = (x ∷ p) ∷ ps

-- `s.split(c)`
unfoldable pub split : ℕ → Text → List Text
split c [] = [] ∷ []
split c (x ∷ s) = let rest = split c s in if x == c then [] ∷ rest else onto_first x rest

-- `filter_map(|s| if s.is_empty() { None } else { Some(s.to_string()) })`
unfoldable pub non_empty : List Text → List Text
non_empty [] = []
non_empty ([] ∷ ps) = non_empty ps
non_empty ((x ∷ p) ∷ ps) = (x ∷ p) ∷ non_empty ps
