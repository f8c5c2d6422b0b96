-- ===== src/FmtIo/Printing.antt =====
-- `print` of usrlib_rust/src/fmt_io.rs, for the pieces of a format.
use parch_testbench.Prelude.{ℕ, ◌≡◌, refl, List, [], ◌∷◌, ◌++◌, Text}
use parch_testbench.Utf8.{as_bytes}
use parch_testbench.Machine.{Platform, Machine, value}
use parch_testbench.FmtIo.{fmt_ok, write_fmt, print}
use parch_testbench.FmtIo.Console.{Console, Does, Does-pure, Does-bind, write_str_lem}

-- The bytes of the pieces, in order.
unfoldable pub all_bytes : List Text → List ℕ
all_bytes [] = []
all_bytes (t ∷ pieces) = as_bytes t ++ all_bytes pieces

module _ {P : Platform} (c : Console P) where
  write_fmt_lem : (pieces : List Text) → Does c (write_fmt pieces) fmt_ok [] (all_bytes pieces)
  unfolding write_fmt all_bytes
  write_fmt_lem [] = Does-pure c fmt_ok
  write_fmt_lem (t ∷ pieces) =
      Does-bind c _ _ fmt_ok fmt_ok [] [] (as_bytes t) (all_bytes pieces) (write_str_lem c t)
        (write_fmt_lem pieces)

  -- Where the kernel takes all that is written, `print` returns after it has shown the bytes of all
  -- pieces, in order; nothing of the input is consumed.
  pub print_shows :
      (pieces : List Text) (s : Machine P)
      → (s' : Machine P) × (print pieces s ≡ value tt s')
        × (c.pending s'.kernel ≡ c.pending s.kernel)
        × (c.shown s'.kernel ≡ c.shown s.kernel ++ all_bytes pieces)
  unfolding print
  print_shows pieces s =
      let (s', run, left, out) = write_fmt_lem pieces s (c.pending s.kernel) refl in
      (s', rw run refl, left, out)
