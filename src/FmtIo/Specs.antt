-- ===== src/FmtIo/Specs.antt =====
-- Runs at a console whose output is one of those that a specification allows.
use parch_testbench.Prelude.{ℕ, ◌≡◌, ◌∙◌, refl, ap, inl, inr, List, [], ◌++◌, append_assoc}
use parch_testbench.Machine.{Platform, Machine, Outcome, M, ◌>>=◌}
use parch_testbench.FmtIo.Console.{Console, Does}
use parch_testbench.FmtIo.Runs.{ValueAt, ValueWith, ValueWith-bind, Shows, Finishes}

-- Bytes that `Q` allows and then bytes that `R` allows; `first` and then those; those and then `last`.
abbrev pub Then : (List ℕ → Type 0) → (List ℕ → Type 0) → List ℕ → Type 0
Then Q R out = (o : List ℕ) × (q : List ℕ) × Q o × R q × (out ≡ o ++ q)

abbrev pub Behind : List ℕ → (List ℕ → Type 0) → List ℕ → Type 0
Behind first R out = (q : List ℕ) × R q × (out ≡ first ++ q)

abbrev pub Before : (List ℕ → Type 0) → List ℕ → List ℕ → Type 0
Before R last out = (o : List ℕ) × R o × (out ≡ o ++ last)

module _ {P : Platform} (c : Console P) where
  -- The input left, and bytes that `R` allows behind those that were shown before.
  abbrev pub Shown : (List ℕ → Type 0) → List ℕ → List ℕ → P.Kernel → Type 0
  Shown R left before k =
      (c.pending k ≡ left) × ((out : List ℕ) × R out × (c.shown k ≡ before ++ out))

  -- From every state: nothing is read, and bytes that `R` allows are shown.
  abbrev pub ShowsOf : {A : Type 0} → (List ℕ → Type 0) → M P A → A → Type 0
  ShowsOf R m a =
      (s : Machine P) → ValueWith (Shown R (c.pending s.kernel) (c.shown s.kernel)) a (m s)

  -- From every state whose input is `inp`: all of it is read, and bytes that `R` allows are shown.
  abbrev pub FinishesOf : {A : Type 0} → (List ℕ → Type 0) → M P A → A → List ℕ → Type 0
  FinishesOf R m a inp =
      (s : Machine P) → c.pending s.kernel ≡ inp → ValueWith (Shown R [] (c.shown s.kernel)) a (m s)

  -- What was shown first stands in front.
  pub Shown-append :
      (R T : List ℕ → Type 0) (left before mid o : List ℕ) (k : P.Kernel)
      → mid ≡ before ++ o
      → ((q : List ℕ) → R q → T (o ++ q))
      → Shown R left mid k
      → Shown T left before k
  Shown-append R T left before mid o k e join (gone, (q, r, at)) =
      (gone, (o ++ q, join q r, at ∙ (ap (λ l. l ++ q) e ∙ append_assoc before o q)))

  pub ValueWith-map :
      {A : Type 0} (Q T : P.Kernel → Type 0) (a : A) (o : Outcome P A)
      → ((k : P.Kernel) → Q k → T k)
      → ValueWith Q a o
      → ValueWith T a o
  ValueWith-map Q T a o h (inl (s, e, q)) = inl (s, e, h s.kernel q)
  ValueWith-map Q T a o h (inr e) = inr e

  pub Shows-Of :
      {A : Type 0} (R : List ℕ → Type 0) (m : M P A) (a : A) (o : List ℕ)
      → R o
      → Shows c m a o
      → ShowsOf R m a
  Shows-Of R m a o r h s = ValueWith-map _ _ a (m s) (λ k at. (at.0, (o, r, at.1))) (h s)

  pub Finishes-Of :
      {A : Type 0} (R : List ℕ → Type 0) (m : M P A) (a : A) (i o : List ℕ)
      → R o
      → Finishes c m a i o
      → FinishesOf R m a i
  Finishes-Of R m a i o r h s p = ValueWith-map _ _ a (m s) (λ k at. (at.0, (o, r, at.1))) (h s p)

  ShowsOf-map :
      {A : Type 0} (R T : List ℕ → Type 0) (m : M P A) (a : A)
      → ((out : List ℕ) → R out → T out)
      → ShowsOf R m a
      → ShowsOf T m a
  ShowsOf-map R T m a h hm s =
      ValueWith-map _ _ a (m s) (λ k (left, (o, fits, at)). (left, (o, h o fits, at))) (hm s)

  pub Shows-ShowsOf :
      {A B : Type 0} (R : List ℕ → Type 0) (m : M P A) (f : A → M P B) (a : A) (b : B) (o : List ℕ)
      → Shows c m a o
      → ShowsOf R (f a) b
      → ShowsOf (Behind o R) (m >>= f) b
  Shows-ShowsOf R m f a b o hm hf s = ValueWith-bind _ _ a b m f s (hm s) (λ s' (left, at).
      ValueWith-map _ _ b (f a s')
        (λ k h. Shown-append R (Behind o R) _ _ _ o k at (λ q r. (q, r, refl)) (rw left at h))
        (hf s'))

  -- An action that shows nothing, then another.
  pub then-ShowsOf :
      {A B : Type 0} (R : List ℕ → Type 0) (m : M P A) (f : A → M P B) (a : A) (b : B)
      → Shows c m a []
      → ShowsOf R (f a) b
      → ShowsOf R (m >>= f) b
  then-ShowsOf R m f a b hm hf =
      ShowsOf-map (Behind [] R) R (m >>= f) b (λ out (q, r, e). rw e r)
        (Shows-ShowsOf R m f a b [] hm hf)

  -- What is shown first, then a run to the end of the input.
  pub ShowsOf-FinishesOf :
      {A B : Type 0} (Q R : List ℕ → Type 0) (m : M P A) (f : A → M P B) (a : A) (b : B)
      (i : List ℕ)
      → ShowsOf Q m a
      → FinishesOf R (f a) b i
      → FinishesOf (Then Q R) (m >>= f) b i
  ShowsOf-FinishesOf Q R m f a b i hm hf s p =
      ValueWith-bind _ _ a b m f s (hm s) (λ s' (left, (o, fits, at)).
        ValueWith-map _ _ b (f a s')
          (λ k. Shown-append R (Then Q R) _ _ _ o k at (λ q r. (o, q, fits, r, refl)))
          (hf s' (left ∙ p)))

  pub ValueAt-FinishesOf :
      {A B : Type 0} (R : List ℕ → Type 0) (m : M P A) (f : A → M P B) (a : A) (b : B)
      (i before o : List ℕ) (s : Machine P)
      → ValueAt c a i (before ++ o) (m s)
      → FinishesOf R (f a) b i
      → ValueWith (Shown (Behind o R) [] before) b ((m >>= f) s)
  ValueAt-FinishesOf R m f a b i before o s hm hf =
      ValueWith-bind _ _ a b m f s hm (λ s' (left, at).
        ValueWith-map _ _ b (f a s')
          (λ k. Shown-append R (Behind o R) _ _ _ o k at (λ q r. (q, r, refl))) (hf s' left))

  pub Shows-FinishesOf :
      {A B : Type 0} (R : List ℕ → Type 0) (m : M P A) (f : A → M P B) (a : A) (b : B)
      (i o : List ℕ)
      → Shows c m a o
      → FinishesOf R (f a) b i
      → FinishesOf (Behind o R) (m >>= f) b i
  Shows-FinishesOf R m f a b i o hm hf s p =
      ValueAt-FinishesOf R m f a b i (c.shown s.kernel) o s (rw (← p) (hm s)) hf

  -- The front of the input is read, then the rest.
  pub Does-FinishesOf :
      {A B : Type 0} (R : List ℕ → Type 0) (m : M P A) (f : A → M P B) (a : A) (b : B)
      (i j o : List ℕ)
      → Does c m a i o
      → FinishesOf R (f a) b j
      → FinishesOf (Behind o R) (m >>= f) b (i ++ j)
  Does-FinishesOf R m f a b i j o hm hf s p =
      let (s1, run, left, at) = hm s j p in
      rw run (
        ValueWith-map _ _ b (f a s1)
          (λ k. Shown-append R (Behind o R) _ _ _ o k at (λ q r. (q, r, refl))) (hf s1 left))

  -- The input is read to its end, and then more is shown.
  pub FinishesOf-Shows :
      {A B : Type 0} (R : List ℕ → Type 0) (m : M P A) (f : A → M P B) (a : A) (b : B)
      (i q : List ℕ)
      → FinishesOf R m a i
      → Shows c (f a) b q
      → FinishesOf (Before R q) (m >>= f) b i
  FinishesOf-Shows R m f a b i q hm hf s p =
      ValueWith-bind _ _ a b m f s (hm s p) (λ s' (left, (o, fits, at)).
        ValueWith-map _ _ b (f a s')
          (λ k (gone, shown). (
            gone ∙ left,
            (o ++ q, (o, fits, refl), shown ∙ (ap (λ l. l ++ q) at ∙ append_assoc _ o q)),
          ))
          (hf s'))
