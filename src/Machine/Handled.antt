-- ===== src/Machine/Handled.antt =====
-- A process with its `#[panic_handler]`: after a panic the handler runs in place of the rest.
use parch_testbench.Prelude.{ℕ, Option, List, [], ◌∷◌, Text}
use parch_testbench.Machine.{
  Registers, Platform, Outcome, value, error, panicked, ended, starved, M,
}
use parch_testbench.Machine.Footprint.{After, Within, here, After-trans}

-- What a handler is told of a panic: the file and the line where they are known, and the message.
abbrev pub Report : Type 0
Report = Option (Text × ℕ) × Text

module _ {P : Platform} where
  abbrev pub caught : Outcome P (Unit {0}) → M P (Unit {0}) → Outcome P (Unit {0})
  caught (value a s) next = value a s
  caught (error e s) next = error e s
  caught (panicked x s) next = next s
  caught (ended k) next = ended k
  caught (starved s) next = starved s

  -- The handler for the first report; where it panics itself, it runs again for the next report.
  unfoldable pub on_panic :
      (Option (Text × ℕ) → Text → M P (Unit {0})) → List Report → M P (Unit {0})
  on_panic handler [] s = starved s
  on_panic handler ((place, message) ∷ reports) s =
      caught (handler place message s) (on_panic handler reports)

  -- The action, and the handler where it panics. The reports bound the panics.
  abbrev pub handled :
      (Option (Text × ℕ) → Text → M P (Unit {0})) → List Report → M P (Unit {0}) → M P (Unit {0})
  handled handler reports m s = caught (m s) (on_panic handler reports)

module _ {P : Platform} (C : Registers → Type 0) where
  caught-After :
      (k : P.Kernel) (o : Outcome P (Unit {0})) (next : M P (Unit {0}))
      → After C k o
      → Within C next
      → After C k (caught o next)
  caught-After k (value a s) next h hn = h
  caught-After k (error e s) next h hn = h
  caught-After k (panicked x s) next h hn = After-trans C (next s) h (hn s)
  caught-After k (ended k') next h hn = h
  caught-After k (starved s) next h hn = h

  on_panic-Within :
      (handler : Option (Text × ℕ) → Text → M P (Unit {0})) (reports : List Report)
      → ((place : Option (Text × ℕ)) (message : Text) → Within C (handler place message))
      → Within C (on_panic handler reports)
  unfolding on_panic
  on_panic-Within handler [] h s = here
  on_panic-Within handler ((place, message) ∷ reports) h s =
      caught-After s.kernel (handler place message s) (on_panic handler reports) (h place message s)
        (on_panic-Within handler reports h)

  -- With a handler that makes allowed calls only, an action that does so still does.
  pub Within-handled :
      (handler : Option (Text × ℕ) → Text → M P (Unit {0})) (reports : List Report)
      (m : M P (Unit {0}))
      → ((place : Option (Text × ℕ)) (message : Text) → Within C (handler place message))
      → Within C m
      → Within C (handled handler reports m)
  Within-handled handler reports m h hm s =
      caught-After s.kernel (m s) (on_panic handler reports) (hm s)
        (on_panic-Within handler reports h)
