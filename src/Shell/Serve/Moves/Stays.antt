-- ===== src/Shell/Serve/Moves/Stays.antt =====
-- Runs of which the working directory is known: the rules for what is shown, with the directory before
-- and behind an action.
use parch_testbench.Prelude.{ℕ, ◌≡◌, ◌∙◌, refl, ap, append_assoc, inl, inr, List, [], ◌++◌, Text}
use parch_testbench.Machine.{Platform, Machine, M, value, ◌>>=◌}
use parch_testbench.Machine.Footprint.{Within}
use parch_testbench.FmtIo.Console.{Console, Does}
use parch_testbench.FmtIo.Runs.{ValueWith, ValueWith-bind, ValueAt, Shows}
use parch_testbench.FmtIo.Specs.{Shown, ShowsOf, Then, Behind, Before, Shown-append, ValueWith-map}
use parch_testbench.Shell.Directory.{MovedByChdir, Unchanged, After-Unchanged, StayMay-ne-chdir}
use parch_testbench.Shell.Footprint.{StayMay}

module _ {P : Platform} (cwd : P.Kernel → Text) (moved : MovedByChdir P cwd) where
  -- An action without chdir that returns leaves the directory.
  pub Within-cwd :
      {A : Type 0} (Q : P.Kernel → Type 0) (m : M P A) (a : A) (s : Machine P)
      → Within StayMay m
      → ValueWith Q a (m s)
      → ValueWith (λ k. Q k × (cwd k ≡ cwd s.kernel)) a (m s)
  Within-cwd Q m a s within (inl (s', run, q)) =
      let stays : Unchanged P cwd s.kernel (value a s') = rw run at (
        After-Unchanged P cwd StayMay s.kernel (m s) (λ r c. moved r (StayMay-ne-chdir r c))
          (within s)) in
      inl (s', run, (q, stays))
  Within-cwd Q m a s within (inr h) = inr h

module _ {P : Platform} (c : Console P) (cwd : P.Kernel → Text) where
  -- From every state in the one directory: nothing is read, bytes that `R` allows are shown, and the
  -- other directory is reached.
  abbrev pub Goes : {A : Type 0} → Text → Text → (List ℕ → Type 0) → M P A → A → Type 0
  Goes here there R m a =
      (s : Machine P)
      → cwd s.kernel ≡ here
      → ValueWith (λ k. Shown c R (c.pending s.kernel) (c.shown s.kernel) k × (cwd k ≡ there)) a
          (m s)

  -- From every state in the directory whose input is `inp`: all of it is read, and bytes that `R`
  -- allows are shown.
  abbrev pub FinishesIn : {A : Type 0} → Text → (List ℕ → Type 0) → M P A → A → List ℕ → Type 0
  FinishesIn here R m a inp =
      (s : Machine P)
      → cwd s.kernel ≡ here
      → c.pending s.kernel ≡ inp
      → ValueWith (Shown c R [] (c.shown s.kernel)) a (m s)

  pub ShowsOf-Goes :
      {A : Type 0} (moved : MovedByChdir P cwd) (here : Text) (R : List ℕ → Type 0) (m : M P A)
      (a : A)
      → Within StayMay m
      → ShowsOf c R m a
      → Goes here here R m a
  ShowsOf-Goes moved here R m a within shows s at =
      ValueWith-map c _ _ a (m s) (λ k (q, same). (q, same ∙ at))
        (Within-cwd cwd moved _ m a s within (shows s))

  pub Goes-FinishesIn :
      {A B : Type 0} (here there : Text) (Q R : List ℕ → Type 0) (m : M P A) (f : A → M P B) (a : A)
      (b : B) (i : List ℕ)
      → Goes here there Q m a
      → FinishesIn there R (f a) b i
      → FinishesIn here (Then Q R) (m >>= f) b i
  Goes-FinishesIn here there Q R m f a b i hm hf s dir p =
      ValueWith-bind _ _ a b m f s (hm s dir) (λ s' ((left, (o, fits, at)), dir').
        ValueWith-map c _ _ b (f a s')
          (λ k. Shown-append c R (Then Q R) _ _ _ o k at (λ q r. (o, q, fits, r, refl)))
          (hf s' dir' (left ∙ p)))

  ValueAt-FinishesIn :
      {A B : Type 0} (moved : MovedByChdir P cwd) (here : Text) (R : List ℕ → Type 0) (m : M P A)
      (f : A → M P B) (a : A) (b : B) (i o : List ℕ) (s : Machine P)
      → Within StayMay m
      → cwd s.kernel ≡ here
      → ValueAt c a i (c.shown s.kernel ++ o) (m s)
      → FinishesIn here R (f a) b i
      → ValueWith (Shown c (Behind o R) [] (c.shown s.kernel)) b ((m >>= f) s)
  ValueAt-FinishesIn moved here R m f a b i o s within dir hm hf =
      ValueWith-bind _ _ a b m f s (Within-cwd cwd moved _ m a s within hm)
        (λ s' ((left, at), same).
          ValueWith-map c _ _ b (f a s')
            (λ k. Shown-append c R (Behind o R) _ _ _ o k at (λ q r. (q, r, refl)))
            (hf s' (same ∙ dir) left))

  -- The front of the input is read, then the rest.
  pub Does-FinishesIn :
      {A B : Type 0} (moved : MovedByChdir P cwd) (here : Text) (R : List ℕ → Type 0) (m : M P A)
      (f : A → M P B) (a : A) (b : B) (i j o : List ℕ)
      → Within StayMay m
      → Does c m a i o
      → FinishesIn here R (f a) b j
      → FinishesIn here (Behind o R) (m >>= f) b (i ++ j)
  Does-FinishesIn moved here R m f a b i j o within hm hf s dir p =
      let (s1, run, left, at) = hm s j p in
      ValueAt-FinishesIn moved here R m f a b j o s within dir (inl (s1, run, (left, at))) hf

  -- What is shown first, then a run to the end of the input.
  pub Shows-FinishesIn :
      {A B : Type 0} (moved : MovedByChdir P cwd) (here : Text) (R : List ℕ → Type 0) (m : M P A)
      (f : A → M P B) (a : A) (b : B) (i o : List ℕ)
      → Within StayMay m
      → Shows c m a o
      → FinishesIn here R (f a) b i
      → FinishesIn here (Behind o R) (m >>= f) b i
  Shows-FinishesIn moved here R m f a b i o within hm hf s dir p =
      ValueAt-FinishesIn moved here R m f a b i o s within dir (rw (← p) (hm s)) hf

  -- The input is read to its end, and then more is shown.
  pub FinishesIn-Shows :
      {A B : Type 0} (here : Text) (R : List ℕ → Type 0) (m : M P A) (f : A → M P B) (a : A) (b : B)
      (i q : List ℕ)
      → FinishesIn here R m a i
      → Shows c (f a) b q
      → FinishesIn here (Before R q) (m >>= f) b i
  FinishesIn-Shows here R m f a b i q hm hf s dir p =
      ValueWith-bind _ _ a b m f s (hm s dir p) (λ s' (left, (o, fits, at)).
        ValueWith-map c _ _ b (f a s')
          (λ k (gone, shown). (
            gone ∙ left,
            (o ++ q, (o, fits, refl), shown ∙ (ap (λ l. l ++ q) at ∙ append_assoc _ o q)),
          ))
          (hf s'))
