-- ===== src/FmtIo/Valid.antt =====
-- The Rust type `char` of what usrlib_rust/src/fmt_io.rs returns: Unicode scalar values only.
use mathlib.Core.Path.{subst}
use parch_testbench.Prelude.{
  ℕ, zero, suc, ◌≡◌, refl, Bool, true, false, Option-cases, inl, inr, [], ◌∷◌, ◌++◌, Text, All,
  All-append, codes, arith, ltb, ◌==◌, if◌then◌else◌,
}
use parch_testbench.Utf8.{is_char}
use parch_testbench.Machine.{
  Platform, Machine, Outcome, M, value, error, panicked, ended, starved, pure, continue, ◌>>=◌,
  ◌>>◌,
}
use parch_testbench.FmtIo.{
  from_u32, replacement, pop, popped, rub_out, continuation, after_first, getbyte_noecho,
  getchar_noecho, getchar, print, line_loop, get_line,
}

module _ {P : Platform} where
  -- Whatever the action returns has the property.
  abbrev Yields : {A : Type 0} → (A → Type 0) → M P A → Type 0
  Yields {A} Q m = (s s' : Machine P) (a : A) → m s ≡ value a s' → Q a

  Yields-pure : {A : Type 0} (Q : A → Type 0) (a : A) → Q a → Yields Q (pure a)
  Yields-pure {A} Q a h s s' b e = let same : a ≡ b = cc in subst Q same h

  continue_inv :
      {A B : Type 0} (o : Outcome P A) (f : A → M P B) (b : B) (s' : Machine P)
      → continue o f ≡ value b s'
      → (a : A) × (s1 : Machine P) × (o ≡ value a s1) × (f a s1 ≡ value b s')
  continue_inv (value a s1) f b s' e = (a, s1, refl, e)
  continue_inv (error x s1) f b s' e = absurd (cc e)
  continue_inv (panicked x s1) f b s' e = absurd (cc e)
  continue_inv (ended k) f b s' e = absurd (cc e)
  continue_inv (starved s) f b s' e = absurd (cc e)

  Yields-bind :
      {A B : Type 0} (R : A → Type 0) (Q : B → Type 0) (m : M P A) (f : A → M P B)
      → Yields R m
      → ((a : A) → R a → Yields Q (f a))
      → Yields Q (m >>= f)
  Yields-bind R Q m f hm hf s s' b e =
      let (a, s1, here, there) = continue_inv (m s) f b s' e in hf a (hm s s1 a here) s1 s' b there

  Yields-any : {A : Type 0} (m : M P A) → Yields (λ a. Unit) m
  Yields-any m s s' a e = tt

  Yields-then :
      {A : Type 0} (Q : A → Type 0) (m : M P (Unit {0})) (n : M P A)
      → Yields Q n
      → Yields Q (m >> n)
  Yields-then Q m n h = Yields-bind (λ u. Unit) Q m (λ _. n) (Yields-any m) (λ u v. h)

  Yields-if :
      {A : Type 0} (Q : A → Type 0) (b : Bool) (m n : M P A)
      → (b ≡ true → Yields Q m)
      → Yields Q n
      → Yields Q (if b then m else n)
  Yields-if Q true m n hm hn = hm refl
  Yields-if Q false m n hm hn = hn

-- A Unicode scalar value.
abbrev pub IsChar : ℕ → Type 0
IsChar r = is_char r ≡ true

from_u32-IsChar : (buf : ℕ) → IsChar (from_u32 buf)
from_u32-IsChar buf = ground arith

module _ {P : Platform} where
  continuation-IsChar : (n buf : ℕ) → Yields {P = P} IsChar (continuation n buf)
  unfolding continuation
  continuation-IsChar zero buf = Yields-pure IsChar (from_u32 buf) (from_u32-IsChar buf)
  continuation-IsChar (suc n) buf =
      Yields-bind (λ b. Unit) IsChar getbyte_noecho _ (Yields-any getbyte_noecho)
        (λ b u.
          Yields-if IsChar _ (continuation n _) (pure replacement) (λ e. continuation-IsChar n _)
            (Yields-pure IsChar replacement refl))

  after_first-IsChar : (init : ℕ) → Yields {P = P} IsChar (after_first init)
  unfolding after_first
  after_first-IsChar init =
      Yields-if IsChar (ltb init 0b10000000) _ _ (λ e. Yields-pure IsChar init (ground (arith, e)))
        (Yields-if IsChar (ltb init 0b11100000) _ _ (λ e. continuation-IsChar 1 _)
          (Yields-if IsChar (ltb init 0b11110000) _ _ (λ e. continuation-IsChar 2 _)
            (Yields-if IsChar (ltb init 0b11111000) _ _ (λ e. continuation-IsChar 3 _)
              (Yields-if IsChar (ltb init 0b11111100) _ _ (λ e. continuation-IsChar 4 _)
                (Yields-if IsChar (ltb init 0b11111110) _ _ (λ e. continuation-IsChar 5 _)
                  (Yields-pure IsChar replacement refl))))))

  getchar-IsChar : Yields {P = P} IsChar getchar
  unfolding getchar getchar_noecho
  getchar-IsChar =
      Yields-bind IsChar IsChar getchar_noecho _
        (Yields-bind (λ b. Unit) IsChar getbyte_noecho after_first (Yields-any getbyte_noecho)
          (λ b u. after_first-IsChar b))
        (λ r h.
          Yields-then IsChar (if r == b'\r' then print (codes "\n" ∷ []) else pure tt) _
            (Yields-then IsChar (print ((r ∷ []) ∷ [])) (pure r) (Yields-pure IsChar r h)))

popped-All : (t : Text) → All IsChar t → All IsChar (popped t (pop t))
unfolding pop
popped-All [] h = tt
popped-All (c ∷ t) h = elim (Option-cases (pop t)) [
  | inl e ↦ rw e tt
  | inr (u, e) ↦ let left : All IsChar u = rw e at (popped-All t h.1) in rw e (h.0, left)
]

module _ {P : Platform} where
  line_loop-IsChar :
      (fuel : ℕ) (res : Text) → All IsChar res → Yields {P = P} (All IsChar) (line_loop fuel res)
  unfolding line_loop
  line_loop-IsChar zero res h = λ s s' a e. absurd (cc e)
  line_loop-IsChar (suc fuel) res h =
      Yields-bind IsChar (All IsChar) getchar _ getchar-IsChar (λ b hb.
        Yields-if (All IsChar) _ _ _ (λ e. Yields-pure (All IsChar) res h)
          (Yields-if (All IsChar) _ _ _
            (λ e.
              Yields-then (All IsChar) (rub_out (pop res)) _
                (line_loop-IsChar fuel (popped res (pop res)) (popped-All res h)))
            (line_loop-IsChar fuel (res ++ b ∷ []) (All-append IsChar res (b ∷ []) h (hb, tt)))))

  -- Whatever the kernel does and whatever bytes it hands over, a text that `get_line` returns consists
  -- of Unicode scalar values, as the Rust type `String` demands.
  pub get_line-IsChar :
      (fuel : ℕ) (s s' : Machine P) (t : Text) → get_line fuel s ≡ value t s' → All IsChar t
  unfolding get_line
  get_line-IsChar fuel s s' t e = line_loop-IsChar fuel [] tt s s' t e
