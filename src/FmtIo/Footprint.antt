-- ===== src/FmtIo/Footprint.antt =====
-- The system calls of usrlib_rust/src/fmt_io.rs: printing writes to the descriptor 1, and input is
-- read byte by byte from the descriptor 0.
use parch_testbench.Prelude.{
  ℕ, zero, suc, ◌∷◌, [], ◌++◌, ◌==◌, ◌||◌, Option, none, some, length, List, Text, codes, ltb,
}
use parch_testbench.Utf8.{as_bytes}
use parch_testbench.Machine.{Registers, Platform, M, pure, fail, load_byte}
use parch_testbench.Machine.Footprint.{
  Within, here, Within-bind, Within-then, Within-if, Within-attempt, Within-local, load_byte-Within,
}
use parch_testbench.Syscall.{write, write_raw, read, read_raw}
use parch_testbench.Syscall.Footprint.{Within-do_syscall}
use parch_testbench.FmtIo.{
  FmtResult, fmt_ok, fmt_err, write_str, write_fmt, or_stop, unwrap_fmt, print, getbyte_noecho,
  continuation, after_first, getchar_noecho, getchar, rub_out, pop, popped, line_loop, get_line,
  replacement, delete,
}
use parch_testbench.FmtIo.Console.{write_call, read_byte_call}

module _ {P : Platform} (C : Registers → Type 0) (prints : (p n : ℕ) → C (write_call p n)) where
  pub write_str-Within : (t : Text) → Within C (write_str {P = P} t)
  unfolding write_str write write_raw
  write_str-Within t =
      Within-bind C _ _
        (Within-attempt C _ (
          Within-local C (as_bytes t) _
            (λ p. Within-do_syscall C _ (prints p (length (as_bytes t))))))
        (λ r s. here)

  or_stop-Within :
      (r : FmtResult) (rest : M P FmtResult) → Within C rest → Within C (or_stop r rest)
  or_stop-Within fmt_ok rest h = h
  or_stop-Within fmt_err rest h = λ s. here

  write_fmt-Within : (pieces : List Text) → Within C (write_fmt {P = P} pieces)
  unfolding write_fmt
  write_fmt-Within [] = λ s. here
  write_fmt-Within (t ∷ pieces) =
      Within-bind C (write_str t) _ (write_str-Within t)
        (λ r. or_stop-Within r (write_fmt pieces) (write_fmt-Within pieces))

  unwrap_fmt-Within : (r : FmtResult) → Within C (unwrap_fmt {P = P} r)
  unwrap_fmt-Within fmt_ok = λ s. here
  unwrap_fmt-Within fmt_err = λ s. here

  pub print-Within : (pieces : List Text) → Within C (print {P = P} pieces)
  unfolding print
  print-Within pieces =
      Within-bind C (write_fmt pieces) unwrap_fmt (write_fmt-Within pieces) unwrap_fmt-Within

module _ {P : Platform} (C : Registers → Type 0) (reads : (p : ℕ) → C (read_byte_call p)) where
  pub getbyte_noecho-Within : Within C (getbyte_noecho {P = P})
  unfolding getbyte_noecho read read_raw
  getbyte_noecho-Within = Within-local C (0 ∷ []) _ (λ p.
      Within-bind C _ _ (Within-do_syscall C _ (reads p))
        (λ n. Within-if C (n == 0) (fail _) (load_byte p) (λ s. here) (load_byte-Within C p)))

  continuation-Within : (n buf : ℕ) → Within C (continuation {P = P} n buf)
  unfolding continuation
  continuation-Within zero buf = λ s. here
  continuation-Within (suc n) buf = Within-bind C getbyte_noecho _ getbyte_noecho-Within (λ b.
      Within-if C _ (continuation n _) (pure replacement) (continuation-Within n _) (λ s. here))

  after_first-Within : (init : ℕ) → Within C (after_first {P = P} init)
  unfolding after_first
  after_first-Within init =
      Within-if C (ltb init 0b10000000) (pure init) _ (λ s. here)
        (Within-if C (ltb init 0b11100000) _ _ (continuation-Within 1 _) (
          Within-if C (ltb init 0b11110000) _ _ (continuation-Within 2 _) (
            Within-if C (ltb init 0b11111000) _ _ (continuation-Within 3 _) (
              Within-if C (ltb init 0b11111100) _ _ (continuation-Within 4 _) (
                Within-if C (ltb init 0b11111110) _ (pure replacement) (continuation-Within 5 _)
                  (λ s. here))))))

  pub getchar_noecho-Within : Within C (getchar_noecho {P = P})
  unfolding getchar_noecho
  getchar_noecho-Within =
      Within-bind C getbyte_noecho after_first getbyte_noecho-Within after_first-Within

module _ {P : Platform} (C : Registers → Type 0) (prints : (p n : ℕ) → C (write_call p n))
    (reads : (p : ℕ) → C (read_byte_call p)) where
  getchar-Within : Within C (getchar {P = P})
  unfolding getchar
  getchar-Within = Within-bind C getchar_noecho _ (getchar_noecho-Within C reads) (λ res.
      Within-then C _ _
        (Within-if C (res == b'\r') (print (codes "\n" ∷ [])) (pure tt) (print-Within C prints _)
          (λ s. here))
        (Within-then C (print ((res ∷ []) ∷ [])) (pure res) (print-Within C prints _) (λ s. here)))

  rub_out-Within : (o : Option Text) → Within C (rub_out {P = P} o)
  rub_out-Within none = λ s. here
  rub_out-Within (some res) = print-Within C prints _

  line_loop-Within : (fuel : ℕ) (res : Text) → Within C (line_loop {P = P} fuel res)
  unfolding line_loop
  line_loop-Within zero res = λ s. here
  line_loop-Within (suc fuel) res = Within-bind C getchar _ getchar-Within (λ b.
      Within-if C (b == b'\r' || b == b'\n') (pure res) _ (λ s. here)
        (Within-if C (b == delete) _ (line_loop fuel (res ++ b ∷ []))
          (Within-then C (rub_out (pop res)) (line_loop fuel (popped res (pop res)))
            (rub_out-Within (pop res)) (line_loop-Within fuel (popped res (pop res))))
          (line_loop-Within fuel (res ++ b ∷ []))))

  pub get_line-Within : (fuel : ℕ) → Within C (get_line {P = P} fuel)
  unfolding get_line
  get_line-Within fuel = line_loop-Within fuel []
