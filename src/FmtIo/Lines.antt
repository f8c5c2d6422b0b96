-- ===== src/FmtIo/Lines.antt =====
-- `getchar` and `get_line` of usrlib_rust/src/fmt_io.rs: echo and line editing.
use mathlib.Core.List.{reverse, reverse-cons, tail}
use parch_testbench.Prelude.{
  ℕ, zero, suc, ◌<◌, ◌≡◌, refl, sym, ap, Bool, ◌||◌, Bool-cases, inl, inr, true, false, some, List,
  [], ◌∷◌, ◌++◌, append-nil, append_assoc, Text, codes, length, All, arith, ◌==◌, if◌then◌else◌,
}
use parch_testbench.Utf8.{is_char, encode_char, as_bytes}
use parch_testbench.Machine.{Platform, M, pure}
use parch_testbench.FmtIo.{
  delete, pop, popped, print, getchar_noecho, getchar, rub_out, line_loop, get_line,
}
use parch_testbench.FmtIo.Console.{Console, Does, Does-pure, Does-cast, Does-bind, print_lem}
use parch_testbench.FmtIo.Chars.{getchar_noecho-encode_char}

-- What is shown for a character: a carriage return is shown behind a line feed.
unfoldable pub echo : ℕ → List ℕ
echo r = (if r == b'\r' then as_bytes (codes "\n") else []) ++ as_bytes (r ∷ [])

-- `\r` and `\n` end a line.
abbrev pub ends_line : ℕ → Bool
ends_line r = r == b'\r' || r == b'\n'

-- What a line is after the characters are typed: the last kept character comes first, and DEL takes
-- it away.
abbrev pub edited : List ℕ → ℕ → List ℕ
edited kept r = if r == delete then tail kept else r ∷ kept

unfoldable pub edit : List ℕ → Text → List ℕ
edit kept [] = kept
edit kept (r ∷ typed) = edit (edited kept r) typed

abbrev pub rubbed_out : List ℕ → List ℕ
rubbed_out [] = []
rubbed_out (r ∷ kept) = as_bytes (8 ∷ 32 ∷ 8 ∷ [])

-- What is shown while they are typed: each character, and the rubbing out of one that DEL takes.
unfoldable pub echo_edit : List ℕ → Text → List ℕ
echo_edit kept [] = []
echo_edit kept (r ∷ typed) =
    (echo r ++ (if r == delete then rubbed_out kept else [])) ++ echo_edit (edited kept r) typed

-- A character that does not end the line.
pub record IsTyped (r : ℕ) : Type 0 where
  pub valid : is_char r ≡ true
  pub goes_on : ends_line r ≡ false

pop-append : (t : Text) (r : ℕ) → pop (t ++ r ∷ []) ≡ some t
unfolding pop
pop-append [] r = refl
pop-append (x ∷ t) r = rw (pop-append t r)

pop-reverse : (r : ℕ) (kept : List ℕ) → pop (reverse (r ∷ kept)) ≡ some (reverse kept)
pop-reverse r kept = rw (reverse-cons r kept) (pop-append (reverse kept) r)

module _ {P : Platform} (c : Console P) where
  line_feed :
      (r : ℕ)
      → Does c
          (if r == b'\r' then print (codes "\n" ∷ []) else pure tt)
          tt
          []
          (if r == b'\r' then as_bytes (codes "\n") else [])
  line_feed r = elim (Bool-cases (r == b'\r')) [
    | inl e ↦ rw e (print_lem c (codes "\n"))
    | inr e ↦ rw e (Does-pure c tt)
  ]

  -- A character is read from its bytes and shown.
  pub getchar_lem : (r : ℕ) → is_char r ≡ true → Does c getchar r (encode_char r) (echo r)
  unfolding getchar echo
  getchar_lem r h =
      Does-cast c getchar r (append-nil (encode_char r))
        (ap (λ l. lf ++ l) (append-nil (as_bytes (r ∷ []))))
        (Does-bind c getchar_noecho _ r r (encode_char r) [] [] (lf ++ (as_bytes (r ∷ []) ++ []))
          (getchar_noecho-encode_char c r h)
          (Does-bind c line_feed_action _ tt r [] [] lf (as_bytes (r ∷ []) ++ []) (line_feed r) (
            Does-bind c (print ((r ∷ []) ∷ [])) _ tt r [] [] (as_bytes (r ∷ [])) []
              (print_lem c (r ∷ [])) (Does-pure c r))))
    where
      lf : List ℕ
      lf = if r == b'\r' then as_bytes (codes "\n") else []

      line_feed_action : M P (Unit {0})
      line_feed_action = if r == b'\r' then print (codes "\n" ∷ []) else pure tt

  pub rub_out_lem : (kept : List ℕ) → Does c (rub_out (pop (reverse kept))) tt [] (rubbed_out kept)
  unfolding pop
  rub_out_lem [] = Does-pure c tt
  rub_out_lem (r ∷ kept) = rw (pop-reverse r kept) (print_lem c (8 ∷ 32 ∷ 8 ∷ []))

  pub popped-reverse :
      (kept : List ℕ) → popped (reverse kept) (pop (reverse kept)) ≡ reverse (tail kept)
  unfolding pop
  popped-reverse [] = refl
  popped-reverse (r ∷ kept) = rw (pop-reverse r kept) refl

  -- One round that does not end the line.
  line_step :
      (fuel r : ℕ) (kept : List ℕ) (t : Text) (i o : List ℕ)
      → IsTyped r
      → Does c (line_loop fuel (reverse (edited kept r))) t i o
      → Does c
          (line_loop (suc fuel) (reverse kept))
          t
          (encode_char r ++ i)
          (echo r ++ ((if r == delete then rubbed_out kept else []) ++ o))
  unfolding line_loop
  line_step fuel r kept t i o h d =
      Does-bind c getchar _ r t (encode_char r) i (echo r) _ (getchar_lem r h.valid)
        (elim (Bool-cases (r == delete)) [
          | inl e ↦
              rw (h.goes_on, e)
                (Does-bind c (rub_out (pop (reverse kept))) _ tt t [] i (rubbed_out kept) o
                  (rub_out_lem kept) (rw (popped-reverse kept) (rw e at d)))
          | inr e ↦ rw (h.goes_on, e) (rw (← reverse-cons r kept) (rw e at d))
        ])

  line_end :
      (fuel e : ℕ) (kept : List ℕ)
      → is_char e ≡ true
      → ends_line e ≡ true
      → Does c
          (line_loop (suc fuel) (reverse kept))
          (reverse kept)
          (encode_char e ++ [])
          (echo e ++ [])
  unfolding line_loop
  line_end fuel e kept valid h =
      Does-bind c getchar _ e (reverse kept) (encode_char e) [] (echo e) [] (getchar_lem e valid)
        (rw h (Does-pure c (reverse kept)))

  line_loop_lem :
      (fuel e : ℕ) (kept : List ℕ) (typed : Text)
      → length typed < fuel
      → All IsTyped typed
      → is_char e ≡ true
      → ends_line e ≡ true
      → Does c
          (line_loop fuel (reverse kept))
          (reverse (edit kept typed))
          (as_bytes typed ++ encode_char e)
          (echo_edit kept typed ++ echo e)
  unfolding as_bytes edit echo_edit
  line_loop_lem zero e kept typed lt h valid ends = elim lt [ ]
  line_loop_lem (suc fuel) e kept [] lt h valid ends =
      Does-cast c (line_loop (suc fuel) (reverse kept)) (reverse kept) (append-nil (encode_char e))
        (append-nil (echo e)) (line_end fuel e kept valid ends)
  line_loop_lem (suc fuel) e kept (r ∷ typed) lt h valid ends =
      Does-cast c (line_loop (suc fuel) (reverse kept)) (reverse (edit (edited kept r) typed))
        (sym (append_assoc (encode_char r) (as_bytes typed) (encode_char e))) (simp append_assoc)
        (line_step fuel r kept (reverse (edit (edited kept r) typed))
          (as_bytes typed ++ encode_char e) (echo_edit (edited kept r) typed ++ echo e) h.0
          (line_loop_lem fuel e (edited kept r) typed (omega arith) h.1 valid ends))

  -- From characters that end no line and one that does, `get_line` returns the characters typed less
  -- those that DEL took away, reads up to the end of the line and no further, and shows each character
  -- as it is typed and each rubbing out. The fuel is enough if it is more than the characters.
  pub get_line_lem :
      (fuel e : ℕ) (typed : Text)
      → length typed < fuel
      → All IsTyped typed
      → is_char e ≡ true
      → ends_line e ≡ true
      → Does c
          (get_line fuel)
          (reverse (edit [] typed))
          (as_bytes typed ++ encode_char e)
          (echo_edit [] typed ++ echo e)
  unfolding get_line
  get_line_lem fuel e typed lt h valid ends = line_loop_lem fuel e [] typed lt h valid ends
