-- ===== src/Allocator/Laws.antt =====
-- What the programs rely on of the allocator behind usrlib_rust/src/allocator.rs: a new block lies
-- apart from those in use.
use parch_testbench.Prelude.{
  ℕ, ◌+◌, ◌^◌, ◌≤◌, ◌<◌, ◌≡◌, ◌∙◌, ◌⊎◌, inl, inr, refl, some, List, [], ◌∷◌, length, Option-cases,
}
use parch_testbench.ErrorNum.{ErrorNum}
use parch_testbench.Machine.{
  ◌>>=◌, value, error, Platform, Machine, Outcome, panicked, ended, M, out_of_memory,
}
use parch_testbench.Machine.Blocks.{Memory, store, load, load-store, load-store_disjoint}
use parch_testbench.Allocator.{with_vec, release}

pub record AllocLaws (P : Platform) : Type 1 where
  -- the block of so many bytes at the address is in use
  pub Live : P.Heap → ℕ → ℕ → Type 0
  pub fresh :
      (n : ℕ) (h : P.Heap) (p : ℕ) (h' : P.Heap)
      → P.alloc n h ≡ some (p, h')
      → Live h' p n × (0 < p) × (p < 2 ^ 64)
  pub apart :
      (n : ℕ) (h : P.Heap) (p : ℕ) (h' : P.Heap) (q k : ℕ)
      → P.alloc n h ≡ some (p, h')
      → Live h q k
      → Live h' q k × ((q + k ≤ p) ⊎ (p + n ≤ q))

module _ {P : Platform} (laws : AllocLaws P) where
  open laws use {Live, fresh, apart}

  -- At each address stands a block in use with the bytes.
  abbrev pub Placed : P.Heap → Memory → List ℕ → List (List ℕ) → Type 0
  Placed h m [] [] = Unit
  Placed h m [] (v ∷ vs) = ⊥
  Placed h m (p ∷ ps) [] = ⊥
  Placed h m (p ∷ ps) (v ∷ vs) =
      Live h p (length v) × (load m p (length v) ≡ v) × (0 < p) × (p < 2 ^ 64) × Placed h m ps vs

  Placed-kept :
      (h h' : P.Heap) (m : Memory) (q : ℕ) (b : List ℕ)
      → P.alloc (length b) h ≡ some (q, h')
      → (ps : List ℕ) (vs : List (List ℕ)) → Placed h m ps vs
      → Placed h' (store m q b) ps vs
  Placed-kept h h' m q b e [] [] placed = tt
  Placed-kept h h' m q b e [] (v ∷ vs) placed = placed
  Placed-kept h h' m q b e (p ∷ ps) [] placed = placed
  Placed-kept h h' m q b e (p ∷ ps) (v ∷ vs) (live, bytes, pos, small, rest) =
      let (live', disjoint) = apart (length b) h q h' p (length v) e live in
      (
        live',
        load-store_disjoint m q p (length v) b disjoint ∙ bytes,
        pos,
        small,
        Placed-kept h h' m q b e ps vs rest,
      )

  -- A property of runs that a panic for want of memory has, and that giving back a block keeps.
  pub record IsStable {A : Type 0} (Q : Outcome P A → Type 0) : Type 0 where
    pub no_memory : (s : Machine P) → Q (panicked out_of_memory s)
    pub released : (p n : ℕ) (o : Outcome P A) → Q o → Q (release p n o)

  -- A run that ends the process as `k`, or panics for want of memory.
  abbrev pub EndsAs : {A : Type 0} → P.Kernel → Outcome P A → Type 0
  EndsAs k o = (o ≡ ended k) ⊎ ((s : Machine P) × (o ≡ panicked out_of_memory s))

  pub EndsAs-IsStable : {A : Type 0} (k : P.Kernel) → IsStable {A = A} (EndsAs k)
  EndsAs-IsStable k = record {
    no_memory = λ s. inr (s, refl);
    released = λ p n o h. elim h [ inl e ↦ inl (rw e refl) | inr (s, e) ↦ inr (s, rw e refl) ];
  }

  -- A run that fails with `e`, the kernel being `k`, or panics for want of memory.
  abbrev pub FailsAs : {A : Type 0} → ErrorNum → P.Kernel → Outcome P A → Type 0
  FailsAs e k o =
      ((s : Machine P) × (o ≡ error e s) × (s.kernel ≡ k))
      ⊎ ((s : Machine P) × (o ≡ panicked out_of_memory s))

  pub FailsAs-IsStable : {A : Type 0} (e : ErrorNum) (k : P.Kernel) → IsStable {A = A} (FailsAs e k)
  FailsAs-IsStable e k = record {
    no_memory = λ s. inr (s, refl);
    released = λ p n o h. elim h [
      | inl (s, q, same) ↦ inl (record s { heap = P.dealloc p n s.heap }, rw q refl, same)
      | inr (s, q) ↦ inr (s, rw q refl)
    ];
  }

  -- A run that returns `a`, the kernel being `k`, or panics for want of memory.
  abbrev pub ReturnsAs : {A : Type 0} → A → P.Kernel → Outcome P A → Type 0
  ReturnsAs a k o =
      ((s : Machine P) × (o ≡ value a s) × (s.kernel ≡ k))
      ⊎ ((s : Machine P) × (o ≡ panicked out_of_memory s))

  pub ReturnsAs-IsStable : {A : Type 0} (a : A) (k : P.Kernel) → IsStable (ReturnsAs a k)
  ReturnsAs-IsStable a k = record {
    no_memory = λ s. inr (s, refl);
    released = λ p n o h. elim h [
      | inl (s, q, same) ↦ inl (record s { heap = P.dealloc p n s.heap }, rw q refl, same)
      | inr (s, q) ↦ inr (s, rw q refl)
    ];
  }

  -- The body of a `Vec` runs with one more block in place.
  pub with_vec-IsStable :
      {A : Type 0} (Q : Outcome P A → Type 0) (stable : IsStable Q) (v : List ℕ) (body : ℕ → M P A)
      (s : Machine P) (ps : List ℕ) (vs : List (List ℕ))
      → Placed s.heap s.mem ps vs
      → ((p : ℕ) (s' : Machine P)
          → s'.kernel ≡ s.kernel
          → Placed s'.heap s'.mem (p ∷ ps) (v ∷ vs)
          → Q (body p s'))
      → Q (with_vec v body s)
  unfolding with_vec
  with_vec-IsStable Q stable v body s ps vs placed h =
      elim (Option-cases (P.alloc (length v) s.heap)) [
        | inl e ↦ rw e (stable.no_memory s)
        | inr ((p, heap), e) ↦
            let (live, pos, small) = fresh (length v) s.heap p heap e in
            rw e (
              stable.released p (length v) _ (
                h p (record s { mem = store s.mem p v; heap = heap }) refl
                  (
                    live,
                    load-store s.mem p v,
                    pos,
                    small,
                    Placed-kept s.heap heap s.mem p v e ps vs placed,
                  )))
      ]

  -- What follows an action that returns.
  pub ReturnsAs-bind :
      {A B : Type 0} (Q : Outcome P B → Type 0) (stable : IsStable Q) (m : M P A) (f : A → M P B)
      (a : A) (k : P.Kernel) (s : Machine P)
      → ReturnsAs a k (m s)
      → ((s' : Machine P) → s'.kernel ≡ k → Q (f a s'))
      → Q ((m >>= f) s)
  ReturnsAs-bind Q stable m f a k s (inl (s', e, same)) h = rw e (h s' same)
  ReturnsAs-bind Q stable m f a k s (inr (s', e)) h = rw e (stable.no_memory s')

  -- An error ends what follows the action.
  pub FailsAs-bind :
      {A B : Type 0} (e : ErrorNum) (k : P.Kernel) (m : M P A) (f : A → M P B) (s : Machine P)
      → FailsAs e k (m s)
      → FailsAs e k ((m >>= f) s)
  FailsAs-bind e k m f s (inl (s1, q, same)) = inl (s1, rw q refl, same)
  FailsAs-bind e k m f s (inr (s1, q)) = inr (s1, rw q refl)
