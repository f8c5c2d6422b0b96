-- ===== src/Machine/Arguments/Texts.antt =====
-- `str::from_utf8(argv[i]).unwrap()` of the programs at the bytes of texts.
use parch_testbench.Prelude.{
  ℕ, zero, suc, ◌≡◌, refl, true, some, List, [], ◌∷◌, ◌++◌, map, Text, All,
}
use parch_testbench.Utf8.{is_char, as_bytes}
use parch_testbench.Utf8.RoundTrip.{from_utf8-as_bytes}
use parch_testbench.Machine.{Platform, Machine, value}
use parch_testbench.Machine.Arguments.{get_elem?, argument_text}

get_elem?-map :
    (argv : List Text) (rest : List (List ℕ)) (i : ℕ) (t : Text)
    → get_elem? argv i ≡ some t
    → get_elem? (map as_bytes argv ++ rest) i ≡ some (as_bytes t)
get_elem?-map [] rest i t h = absurd (cc h)
get_elem?-map (a ∷ argv) rest zero t h = cc
get_elem?-map (a ∷ argv) rest (suc i) t h = get_elem?-map argv rest i t h

-- Where the slots begin with the bytes of some texts, reading one of these as a text returns it and
-- does nothing else, if it consists of characters.
pub argument_text-as_bytes :
    {P : Platform} (s : Machine P) (argv : List Text) (rest : List (List ℕ)) (i : ℕ) (t : Text)
    → get_elem? argv i ≡ some t
    → All (λ r. is_char r ≡ true) t
    → argument_text (map as_bytes argv ++ rest) i s ≡ value t s
unfolding argument_text
argument_text-as_bytes s argv rest i t h valid =
    rw (get_elem?-map argv rest i t h, from_utf8-as_bytes t valid) refl
