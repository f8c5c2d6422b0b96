-- ===== src/FmtIo/Runs.antt =====
-- Runs at a console that may stop for want of memory, for the programs that print and allocate.
use parch_testbench.Prelude.{
  ℕ, ◌≡◌, ◌∙◌, ◌⊎◌, inl, inr, refl, sym, ap, List, [], ◌++◌, append-nil, append_assoc, Text,
}
use parch_testbench.ErrorNum.{ErrorNum}
use parch_testbench.Machine.{
  Platform, Machine, Outcome, M, value, error, panicked, out_of_memory, ok, err, attempt, unwrap,
  pure, ◌>>=◌,
}
use parch_testbench.Allocator.Laws.{AllocLaws, IsStable}
use parch_testbench.FmtIo.{print}
use parch_testbench.FmtIo.Console.{Console, Does, Fails}
use parch_testbench.FmtIo.Printing.{all_bytes, print_shows}

module _ {P : Platform} where
  -- The run returns `a` with a kernel of the property, or panics for want of memory.
  abbrev pub ValueWith : {A : Type 0} → (P.Kernel → Type 0) → A → Outcome P A → Type 0
  ValueWith Q a o =
      ((s' : Machine P) × (o ≡ value a s') × Q s'.kernel)
      ⊎ ((s' : Machine P) × (o ≡ panicked out_of_memory s'))

  pub ValueWith-IsStable :
      {A : Type 0} (laws : AllocLaws P) (Q : P.Kernel → Type 0) (a : A)
      → IsStable laws (ValueWith Q a)
  ValueWith-IsStable laws Q a = record {
    no_memory = λ s. inr (s, refl);
    released = λ p n o h. elim h [
      | inl (s, q, at) ↦ inl (record s { heap = P.dealloc p n s.heap }, rw q refl, at)
      | inr (s, q) ↦ inr (s, rw q refl)
    ];
  }

  pub ValueWith-bind :
      {A B : Type 0} (Q R : P.Kernel → Type 0) (a : A) (b : B) (m : M P A) (f : A → M P B)
      (s : Machine P)
      → ValueWith Q a (m s)
      → ((s' : Machine P) → Q s'.kernel → ValueWith R b (f a s'))
      → ValueWith R b ((m >>= f) s)
  ValueWith-bind Q R a b m f s (inl (s', e, at)) h = rw e (h s' at)
  ValueWith-bind Q R a b m f s (inr (s', e)) h = inr (s', rw e refl)

  pub ValueWith-attempt :
      {A : Type 0} (Q : P.Kernel → Type 0) (a : A) (m : M P A) (s : Machine P)
      → ValueWith Q a (m s)
      → ValueWith Q (ok a) (attempt m s)
  ValueWith-attempt Q a m s (inl (s', e, at)) = inl (s', rw e refl, at)
  ValueWith-attempt Q a m s (inr (s', e)) = inr (s', rw e refl)

  pub ValueWith-unwrap :
      {A : Type 0} (Q : P.Kernel → Type 0) (a : A) (m : M P A) (s : Machine P)
      → ValueWith Q a (m s)
      → ValueWith Q a (unwrap m s)
  ValueWith-unwrap Q a m s (inl (s', e, at)) = inl (s', rw e refl, at)
  ValueWith-unwrap Q a m s (inr (s', e)) = inr (s', rw e refl)

module _ {P : Platform} (c : Console P) where
  -- What the console has after a run: the bytes still to be read, and all bytes shown.
  abbrev pub At : List ℕ → List ℕ → P.Kernel → Type 0
  At left out k = (c.pending k ≡ left) × (c.shown k ≡ out)

  -- The run returns `a` and leaves the console like this, or panics for want of memory.
  abbrev pub ValueAt : {A : Type 0} → A → List ℕ → List ℕ → Outcome P A → Type 0
  ValueAt a left out = ValueWith (At left out) a

  abbrev pub ErrorAt : {A : Type 0} → ErrorNum → List ℕ → List ℕ → Outcome P A → Type 0
  ErrorAt e left out o =
      ((s' : Machine P) × (o ≡ error e s') × At left out s'.kernel)
      ⊎ ((s' : Machine P) × (o ≡ panicked out_of_memory s'))

  pub ErrorAt-IsStable :
      {A : Type 0} (laws : AllocLaws P) (e : ErrorNum) (left out : List ℕ)
      → IsStable laws (ErrorAt {A = A} e left out)
  ErrorAt-IsStable laws e left out = record {
    no_memory = λ s. inr (s, refl);
    released = λ p n o h. elim h [
      | inl (s, q, at) ↦ inl (record s { heap = P.dealloc p n s.heap }, rw q refl, at)
      | inr (s, q) ↦ inr (s, rw q refl)
    ];
  }

  -- From every state: nothing is read, and `out` is shown.
  abbrev pub Shows : {A : Type 0} → M P A → A → List ℕ → Type 0
  Shows m a out = (s : Machine P) → ValueAt a (c.pending s.kernel) (c.shown s.kernel ++ out) (m s)

  -- From every state whose input is `inp`: all of it is read, and `out` is shown.
  abbrev pub Finishes : {A : Type 0} → M P A → A → List ℕ → List ℕ → Type 0
  Finishes m a inp out =
      (s : Machine P) → c.pending s.kernel ≡ inp → ValueAt a [] (c.shown s.kernel ++ out) (m s)

  -- From every state: nothing is read, `out` is shown, and the action fails with `e`.
  abbrev pub Refuses : {A : Type 0} → M P A → ErrorNum → List ℕ → Type 0
  Refuses m e out = (s : Machine P) → ErrorAt e (c.pending s.kernel) (c.shown s.kernel ++ out) (m s)

  pub ValueAt-bind :
      {A B : Type 0} (a : A) (b : B) (left left' out out' : List ℕ) (m : M P A) (f : A → M P B)
      (s : Machine P)
      → ValueAt a left out (m s)
      → ((s' : Machine P) → At left out s'.kernel → ValueAt b left' out' (f a s'))
      → ValueAt b left' out' ((m >>= f) s)
  ValueAt-bind a b left left' out out' m f s =
      ValueWith-bind (At left out) (At left' out') a b m f s

  pub ValueAt-cast :
      {A : Type 0} (a : A) (o : Outcome P A) {left left' out out' : List ℕ}
      → left ≡ left'
      → out ≡ out'
      → ValueAt a left out o
      → ValueAt a left' out' o
  ValueAt-cast a o el eo (inl (s', e, at)) = inl (s', e, (at.0 ∙ el, at.1 ∙ eo))
  ValueAt-cast a o el eo (inr h) = inr h

  pub Shows-pure : {A : Type 0} (a : A) → Shows (pure a) a []
  Shows-pure a s = inl (s, refl, (refl, sym (append-nil (c.shown s.kernel))))

  pub Shows-print : (pieces : List Text) → Shows (print pieces) tt (all_bytes pieces)
  Shows-print pieces s =
      let (s', run, left, out) = print_shows c pieces s in inl (s', run, (left, out))

  pub Shows-bind :
      {A B : Type 0} (m : M P A) (f : A → M P B) (a : A) (b : B) (o q : List ℕ)
      → Shows m a o
      → Shows (f a) b q
      → Shows (m >>= f) b (o ++ q)
  Shows-bind m f a b o q hm hf s = ValueAt-bind a b _ _ _ _ m f s (hm s) (λ s' at.
      ValueAt-cast b (f a s') at.0 (ap (λ l. l ++ q) at.1 ∙ append_assoc (c.shown s.kernel) o q)
        (hf s'))

  pub Shows-cast :
      {A : Type 0} (m : M P A) (a : A) {o o' : List ℕ} → o ≡ o' → Shows m a o → Shows m a o'
  Shows-cast m a e h s = ValueAt-cast a (m s) refl (ap (λ l. c.shown s.kernel ++ l) e) (h s)

  pub Finishes-cast :
      {A : Type 0} (m : M P A) (a : A) {i i' o o' : List ℕ}
      → i ≡ i'
      → o ≡ o'
      → Finishes m a i o
      → Finishes m a i' o'
  Finishes-cast m a ei eo h s p =
      ValueAt-cast a (m s) refl (ap (λ l. c.shown s.kernel ++ l) eo) (h s (p ∙ sym ei))

  -- What is shown first, then a run to the end of the input.
  pub Shows-Finishes :
      {A B : Type 0} (m : M P A) (f : A → M P B) (a : A) (b : B) (i o q : List ℕ)
      → Shows m a o
      → Finishes (f a) b i q
      → Finishes (m >>= f) b i (o ++ q)
  Shows-Finishes m f a b i o q hm hf s p = ValueAt-bind a b _ _ _ _ m f s (hm s) (λ s' at.
      ValueAt-cast b (f a s') refl (ap (λ l. l ++ q) at.1 ∙ append_assoc (c.shown s.kernel) o q)
        (hf s' (at.0 ∙ p)))

  -- The front of the input is read, then the rest.
  pub Does-Finishes :
      {A B : Type 0} (m : M P A) (f : A → M P B) (a : A) (b : B) (i j o q : List ℕ)
      → Does c m a i o
      → Finishes (f a) b j q
      → Finishes (m >>= f) b (i ++ j) (o ++ q)
  Does-Finishes m f a b i j o q hm hf s p =
      let (s1, run, left, out) = hm s j p in
      ValueAt-bind a b _ _ _ _ m f s (inl (s1, run, (left, out))) (λ s' at.
        ValueAt-cast b (f a s') refl (ap (λ l. l ++ q) at.1 ∙ append_assoc (c.shown s.kernel) o q)
          (hf s' at.0))

  -- The input is read to its end, and then more is shown.
  pub Finishes-Shows :
      {A B : Type 0} (m : M P A) (f : A → M P B) (a : A) (b : B) (i o q : List ℕ)
      → Finishes m a i o
      → Shows (f a) b q
      → Finishes (m >>= f) b i (o ++ q)
  Finishes-Shows m f a b i o q hm hf s p = ValueAt-bind a b _ _ _ _ m f s (hm s p) (λ s' at.
      ValueAt-cast b (f a s') at.0 (ap (λ l. l ++ q) at.1 ∙ append_assoc (c.shown s.kernel) o q)
        (hf s'))

  pub Does-attempt :
      {A : Type 0} (m : M P A) (a : A) (i o : List ℕ)
      → Does c m a i o
      → Does c (attempt m) (ok a) i o
  Does-attempt m a i o h s rest p =
      let (s', run, left, out) = h s rest p in (s', rw run refl, left, out)

  pub Fails-attempt :
      {A : Type 0} (m : M P A) (e : ErrorNum) (i o : List ℕ)
      → Fails c m e i o
      → Finishes (attempt m) (err e) i o
  Fails-attempt m e i o h s p =
      let (s', run, left, out) = h s p in inl (s', rw run refl, (left, out))

  pub Refuses-attempt :
      {A : Type 0} (m : M P A) (e : ErrorNum) (o : List ℕ)
      → Refuses m e o
      → Shows (attempt m) (err e) o
  Refuses-attempt m e o h s = elim (h s) [
    | inl (s', run, at) ↦ inl (s', rw run refl, at)
    | inr (s', run) ↦ inr (s', rw run refl)
  ]

  pub Shows-attempt :
      {A : Type 0} (m : M P A) (a : A) (o : List ℕ) → Shows m a o → Shows (attempt m) (ok a) o
  Shows-attempt m a o h s = ValueWith-attempt _ a m s (h s)
