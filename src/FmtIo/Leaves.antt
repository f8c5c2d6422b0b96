-- ===== src/FmtIo/Leaves.antt =====
-- Runs at a console that end with the process.
use parch_testbench.Prelude.{ℕ, ◌≡◌, ◌∙◌, refl, ◌⊎◌, inl, inr, List, ◌++◌}
use parch_testbench.Machine.{Platform, Machine, Outcome, M, ended, panicked, out_of_memory, ◌>>=◌}
use parch_testbench.FmtIo.Console.{Console, Does}
use parch_testbench.FmtIo.Runs.{ValueWith}
use parch_testbench.FmtIo.Specs.{Then, Behind, Shown, Shown-append, ShowsOf}

module _ {P : Platform} (c : Console P) (leaves : P.Kernel → P.Kernel) where
  -- The process has left, the kernel having been as `T` says, or it panicked for want of memory.
  abbrev pub Leaves : {A : Type 0} → (P.Kernel → Type 0) → Outcome P A → Type 0
  Leaves T o =
      ((k : P.Kernel) × (o ≡ ended (leaves k)) × T k)
      ⊎ ((s : Machine P) × (o ≡ panicked out_of_memory s))

  -- From every state whose input is `inp`: the process leaves with `rest` not read, and bytes that `R`
  -- allows are shown.
  abbrev pub LeavesOf : {A : Type 0} → (List ℕ → Type 0) → M P A → List ℕ → List ℕ → Type 0
  LeavesOf R m inp rest =
      (s : Machine P) → c.pending s.kernel ≡ inp → Leaves (Shown c R rest (c.shown s.kernel)) (m s)

  pub Leaves-map :
      {A : Type 0} (Q T : P.Kernel → Type 0) (o : Outcome P A)
      → ((k : P.Kernel) → Q k → T k)
      → Leaves Q o
      → Leaves T o
  Leaves-map Q T o h (inl (k, e, q)) = inl (k, e, h k q)
  Leaves-map Q T o h (inr e) = inr e

  pub Leaves-bind :
      {A B : Type 0} (Q T : P.Kernel → Type 0) (a : A) (m : M P A) (f : A → M P B) (s : Machine P)
      → ValueWith Q a (m s)
      → ((s' : Machine P) → Q s'.kernel → Leaves T (f a s'))
      → Leaves T ((m >>= f) s)
  Leaves-bind Q T a m f s (inl (s', e, at)) h = rw e (h s' at)
  Leaves-bind Q T a m f s (inr (s', e)) h = inr (s', rw e refl)

  pub Leaves-then :
      {A B : Type 0} (T : P.Kernel → Type 0) (m : M P A) (f : A → M P B) (s : Machine P)
      → Leaves T (m s)
      → Leaves T ((m >>= f) s)
  Leaves-then T m f s (inl (k, e, at)) = inl (k, rw e refl, at)
  Leaves-then T m f s (inr (s', e)) = inr (s', rw e refl)

  pub ShowsOf-LeavesOf :
      {A B : Type 0} (Q R : List ℕ → Type 0) (m : M P A) (f : A → M P B) (a : A) (i rest : List ℕ)
      → ShowsOf c Q m a
      → LeavesOf R (f a) i rest
      → LeavesOf (Then Q R) (m >>= f) i rest
  ShowsOf-LeavesOf Q R m f a i rest hm hf s p =
      Leaves-bind _ _ a m f s (hm s) (λ s' (left, (o, fits, at)).
        Leaves-map _ _ (f a s')
          (λ k. Shown-append c R (Then Q R) _ _ _ o k at (λ q r. (o, q, fits, r, refl)))
          (hf s' (left ∙ p)))

  pub Does-LeavesOf :
      {A B : Type 0} (R : List ℕ → Type 0) (m : M P A) (f : A → M P B) (a : A) (i j o rest : List ℕ)
      → Does c m a i o
      → LeavesOf R (f a) j rest
      → LeavesOf (Behind o R) (m >>= f) (i ++ j) rest
  Does-LeavesOf R m f a i j o rest hm hf s p =
      let (s1, run, left, at) = hm s j p in
      rw run (
        Leaves-map _ _ (f a s1)
          (λ k. Shown-append c R (Behind o R) _ _ _ o k at (λ q r. (q, r, refl))) (hf s1 left))
