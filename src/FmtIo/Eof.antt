-- ===== src/FmtIo/Eof.antt =====
-- `get_line` of usrlib_rust/src/fmt_io.rs where the input ends.
use mathlib.Core.List.{reverse, reverse-cons}
use parch_testbench.Prelude.{
  ℕ, zero, suc, ◌<◌, refl, Bool-cases, inl, inr, List, [], ◌∷◌, ◌++◌, append_assoc, Text, length,
  All, arith, ◌==◌, if◌then◌else◌,
}
use parch_testbench.Utf8.{encode_char, as_bytes}
use parch_testbench.ErrorNum.{eeof}
use parch_testbench.Machine.{Platform}
use parch_testbench.FmtIo.{
  delete, pop, getbyte_noecho, getchar_noecho, getchar, rub_out, line_loop, get_line,
}
use parch_testbench.FmtIo.Console.{
  Console, Fails-cast, Fails, Fails-bind, Fails-bind_first, getbyte_end,
}
use parch_testbench.FmtIo.Lines.{
  echo, edited, echo_edit, rubbed_out, IsTyped, getchar_lem, rub_out_lem, popped-reverse,
}

module _ {P : Platform} (c : Console P) where
  getchar_end : Fails c getchar eeof [] []
  unfolding getchar getchar_noecho
  getchar_end =
      Fails-bind_first c getchar_noecho _ eeof [] []
        (Fails-bind_first c getbyte_noecho _ eeof [] [] (getbyte_end c))

  line_step_end :
      (fuel r : ℕ) (kept : List ℕ) (i o : List ℕ)
      → IsTyped r
      → Fails c (line_loop fuel (reverse (edited kept r))) eeof i o
      → Fails c
          (line_loop (suc fuel) (reverse kept))
          eeof
          (encode_char r ++ i)
          (echo r ++ ((if r == delete then rubbed_out kept else []) ++ o))
  unfolding line_loop
  line_step_end fuel r kept i o h d =
      Fails-bind c getchar _ r eeof (encode_char r) i (echo r) _ (getchar_lem c r h.valid)
        (elim (Bool-cases (r == delete)) [
          | inl e ↦
              rw (h.goes_on, e)
                (Fails-bind c (rub_out (pop (reverse kept))) _ tt eeof [] i (rubbed_out kept) o
                  (rub_out_lem c kept) (rw (popped-reverse c kept) (rw e at d)))
          | inr e ↦ rw (h.goes_on, e) (rw (← reverse-cons r kept) (rw e at d))
        ])

  line_loop_end :
      (fuel : ℕ) (kept : List ℕ) (typed : Text)
      → length typed < fuel
      → All IsTyped typed
      → Fails c (line_loop fuel (reverse kept)) eeof (as_bytes typed) (echo_edit kept typed)
  unfolding as_bytes echo_edit
  line_loop_end zero kept typed lt h = elim lt [ ]
  line_loop_end (suc fuel) kept [] lt h =
      unfold line_loop in Fails-bind_first c getchar _ eeof [] [] getchar_end
  line_loop_end (suc fuel) kept (r ∷ typed) lt h =
      Fails-cast c (line_loop (suc fuel) (reverse kept)) eeof refl (simp append_assoc) (
        line_step_end fuel r kept (as_bytes typed) (echo_edit (edited kept r) typed) h.0
          (line_loop_end fuel (edited kept r) typed (omega arith) h.1))

  -- Where the input ends before the line does, `get_line` fails with `EEOF`, whatever was typed: the
  -- unfinished line is read, shown and lost.
  pub get_line_end :
      (fuel : ℕ) (typed : Text)
      → length typed < fuel
      → All IsTyped typed
      → Fails c (get_line fuel) eeof (as_bytes typed) (echo_edit [] typed)
  unfolding get_line
  get_line_end fuel typed lt h = line_loop_end fuel [] typed lt h
