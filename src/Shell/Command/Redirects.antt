-- ===== src/Shell/Command/Redirects.antt =====
-- `Command::parse` of parch_utils/shell/src/main.rs at commands with both `<` and `>`.
use parch_testbench.Prelude.{
  ℕ, suc, ◌+◌, ◌-◌, ◌≡◌, ◌≢◌, ◌∙◌, refl, sym, true, false, some, List, [], ◌∷◌, ◌++◌, Text, Lacks,
  All-append, length, length-append, append_assoc, arith, ltb,
}
use parch_testbench.Strings.{find, strip_char, trim, split, non_empty}
use parch_testbench.Strings.Positions.{find-append, strip_char_self}
use parch_testbench.Shell.Command.{
  Command, Parse, ok, parse_err, panicked, starved, ◌>>=◌, unwrap, cut_at, redirections,
  some_trimmed, Parts, build, parse_simple, parse,
}
use parch_testbench.Shell.Command.Pipes.{split_at-append, parse-Lacks}

pub cut_at-append : (c : ℕ) (e t : Text) → cut_at c (e ++ c ∷ t) (length e) ≡ ok (e, t)
unfolding cut_at
cut_at-append c e t = rw (split_at-append e (c ∷ t), strip_char_self c t) refl

-- The second cut: the position counts the sign that was stripped, so it is one too far.
cut_late :
    (c : ℕ) (a b : Text)
    → cut_at c (a ++ c ∷ b) (suc (length a))
      ≡ (unwrap (strip_char c b) >>= λ o. ok (a ++ c ∷ [], o))
unfolding cut_at
cut_late c a b =
    let here : a ++ c ∷ b ≡ (a ++ c ∷ []) ++ b = sym (append_assoc a (c ∷ []) b) in
    let far : suc (length a) ≡ length (a ++ c ∷ []) = omega (arith, length-append a (c ∷ [])) in
    rw (here, far, split_at-append (a ++ c ∷ []) b) refl

-- The text `e c a d b`, with two signs `c` and `d`.
abbrev pub two_signs : ℕ → ℕ → Text → Text → Text → Text
two_signs c d e a b = e ++ c ∷ (a ++ d ∷ b)

find_second :
    (c d : ℕ) (e a b : Text)
    → c ≢ d
    → Lacks d e
    → Lacks d a
    → find d (two_signs c d e a b) ≡ some (suc (length e + length a))
find_second c d e a b ne he ha =
    let whole : two_signs c d e a b ≡ (e ++ c ∷ a) ++ d ∷ b =
      sym (append_assoc e (c ∷ a) (d ∷ b)) in
    let far : length (e ++ c ∷ a) ≡ suc (length e + length a) =
      omega (arith, length-append e (c ∷ a)) in
    rw (whole, ← far) (find-append d (e ++ c ∷ a) b (All-append _ e (c ∷ a) he (ne, ha)))

rebind :
    {A B : Type 0} (m : Parse Text) (g : Text → A) (f : A → Parse B)
    → ((m >>= λ x. ok (g x)) >>= f) ≡ (m >>= λ x. f (g x))
rebind (ok x) g f = refl
rebind parse_err g f = refl
rebind panicked g f = refl
rebind starved g f = refl

abbrev pair : Text → Text → Text × Text
pair x y = (x, y)

-- `cmd < a > b`: the output is what stands behind a second `>`, and the input keeps the first.
in_then_out :
    (e a b : Text)
    → redirections (two_signs b'<' b'>' e a b) (some (length e)) (some (suc (length e + length a)))
      ≡ (unwrap (strip_char b'>' b) >>= λ o.
          ok (trim e, some_trimmed (a ++ b'>' ∷ []), some_trimmed o))
unfolding redirections
in_then_out e a b =
    let test : ltb (length e) (suc (length e + length a)) ≡ true = ground arith in
    let gap : suc (length e + length a) - length e ≡ suc (length a) = omega arith in
    rw (test, cut_at-append b'<' e (a ++ b'>' ∷ b))
      (rw gap (
        rw (cut_late b'>' a b) (
          rebind {B = Parts} (unwrap (strip_char b'>' b)) (pair (a ++ b'>' ∷ []))
            (λ x. ok (trim e, some_trimmed x.0, some_trimmed x.1)))))

out_then_in :
    (e a b : Text)
    → redirections (two_signs b'>' b'<' e a b) (some (suc (length e + length a))) (some (length e))
      ≡ (unwrap (strip_char b'<' b) >>= λ i.
          ok (trim e, some_trimmed i, some_trimmed (a ++ b'<' ∷ [])))
unfolding redirections
out_then_in e a b =
    let test : ltb (suc (length e + length a)) (length e) ≡ false = ground arith in
    let gap : suc (length e + length a) - length e ≡ suc (length a) = omega arith in
    rw (test, cut_at-append b'>' e (a ++ b'<' ∷ b))
      (rw gap (
        rw (cut_late b'<' a b) (
          rebind {B = Parts} (unwrap (strip_char b'<' b)) (pair (a ++ b'<' ∷ []))
            (λ x. ok (trim e, some_trimmed x.1, some_trimmed x.0)))))

-- A text with none of the shell's signs `|`, `<` and `>`.
pub record IsFree (s : Text) : Type 0 where
  pub no_bar : Lacks b'|' s
  pub no_in : Lacks b'<' s
  pub no_out : Lacks b'>' s

two_signs-Lacks :
    (c d : ℕ) (e a b : Text)
    → c ≢ b'|'
    → d ≢ b'|'
    → IsFree e
    → IsFree a
    → Lacks b'|' b
    → Lacks b'|' (two_signs c d e a b)
two_signs-Lacks c d e a b hc hd he ha hb =
    All-append _ e _ he.no_bar (hc, All-append _ a _ ha.no_bar (hd, hb))

abbrev pub words : Text → List Text
words e = non_empty (split b' ' (trim e))

abbrev parts_out : Text → Text → Text → Parts
parts_out e i o = (trim e, some_trimmed i, some_trimmed o)

abbrev parts_in : Text → Text → Text → Parts
parts_in e o i = (trim e, some_trimmed i, some_trimmed o)

abbrev finish : Parts → Parse Command
finish p = build (non_empty (split b' ' p.0)) p.1 p.2

-- A line `e < a > b` or `e > a < b`, where `e` and `a` hold none of the signs `|`, `<`, `>` and `b`
-- holds no `|`: if `b` does not start with the line's second sign once more, the parser panics; if
-- it does, the command is the words of `e` (an error if there are none), the path of the first
-- redirection is `a` with the second sign behind it, trimmed, and that of the second is the rest of
-- `b`, trimmed.
pub both_redirections :
    (e a b : Text)
    → IsFree e
    → IsFree a
    → Lacks b'|' b
    → (parse (two_signs b'<' b'>' e a b) ≡ (
        unwrap (strip_char b'>' b) >>= λ o.
        build (words e) (some_trimmed (a ++ b'>' ∷ [])) (some_trimmed o)))
      × (parse (two_signs b'>' b'<' e a b) ≡ (
          unwrap (strip_char b'<' b) >>= λ i.
          build (words e) (some_trimmed i) (some_trimmed (a ++ b'<' ∷ []))))
unfolding parse_simple
both_redirections e a b he ha hb = (
  parse-Lacks _ (two_signs-Lacks b'<' b'>' e a b (omega arith) (omega arith) he ha hb)
      ∙ rw (find-append b'<' e (a ++ b'>' ∷ b) he.no_in) (
          rw (find_second b'<' b'>' e a b (omega arith) he.no_out ha.no_out) (
            rw (in_then_out e a b)
              (rebind (unwrap (strip_char b'>' b)) (parts_out e (a ++ b'>' ∷ [])) finish))),
  parse-Lacks _ (two_signs-Lacks b'>' b'<' e a b (omega arith) (omega arith) he ha hb)
      ∙ rw (find-append b'>' e (a ++ b'<' ∷ b) he.no_out) (
          rw (find_second b'>' b'<' e a b (omega arith) he.no_in ha.no_in) (
            rw (out_then_in e a b)
              (rebind (unwrap (strip_char b'<' b)) (parts_in e (a ++ b'<' ∷ [])) finish))),
)
