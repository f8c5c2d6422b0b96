-- ===== src/Machine/Arguments/Footprint.antt =====
-- Reading an argument as a text makes no system call.
use parch_testbench.Prelude.{ℕ, List, Text, Option, none, some}
use parch_testbench.Utf8.{from_utf8}
use parch_testbench.Machine.{Registers, Platform}
use parch_testbench.Machine.Arguments.{argument_text, argument_of, text_of, get_elem?}
use parch_testbench.Machine.Footprint.{Within, here}

module _ {P : Platform} (C : Registers → Type 0) where
  text_of-Within : (o : Option Text) → Within C (text_of {P = P} o)
  text_of-Within none = λ s. here
  text_of-Within (some t) = λ s. here

  argument_of-Within : (o : Option (List ℕ)) → Within C (argument_of {P = P} o)
  argument_of-Within none = λ s. here
  argument_of-Within (some a) = text_of-Within (from_utf8 a)

  pub argument_text-Within :
      (argv : List (List ℕ)) (i : ℕ) → Within C (argument_text {P = P} argv i)
  unfolding argument_text
  argument_text-Within argv i = argument_of-Within (get_elem? argv i)
