-- ===== src/Machine/Arguments.antt =====
-- How the programs read an argument as text: `str::from_utf8(argv[i]).unwrap()`.
pub mod Footprint
pub mod Texts
use parch_testbench.Prelude.{ℕ, zero, suc, List, [], ◌∷◌, Text, Option, none, some}
use parch_testbench.Utf8.{from_utf8}
use parch_testbench.Machine.{Platform, M, pure, panic, unwrap_failed, out_of_bounds}

abbrev pub get_elem? {ℓ} : {A : Type ℓ} → List A → ℕ → Option A
get_elem? [] i = none
get_elem? (x ∷ xs) zero = some x
get_elem? (x ∷ xs) (suc i) = get_elem? xs i

module _ {P : Platform} where
  abbrev pub text_of : Option Text → M P Text
  text_of none = panic unwrap_failed
  text_of (some t) = pure t

  abbrev pub argument_of : Option (List ℕ) → M P Text
  argument_of none = panic out_of_bounds
  argument_of (some a) = text_of (from_utf8 a)

  unfoldable pub argument_text : List (List ℕ) → ℕ → M P Text
  argument_text argv i = argument_of (get_elem? argv i)
