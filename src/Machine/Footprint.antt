-- ===== src/Machine/Footprint.antt =====
-- Which system calls a run makes: a step relation on the kernel, whose steps are the traps with the
-- registers that a predicate allows, and the rules by which an action stays within it.
use parch_testbench.Prelude.{ℕ, ◌≡◌, ◌∙◌, refl, Bool, true, false, List, length, if◌then◌else◌}
use parch_testbench.Machine.{
  Registers, back, gone, Platform, Machine, Outcome, value, error, panicked, ended, starved, M,
  unwrap, unwrapped, with_local, continue, ◌>>=◌, ◌>>◌, attempt, attempted, load_byte, load_bytes,
  load_word,
}
use parch_testbench.Machine.Blocks.{Memory, store}

-- From one state of the kernel to another by allowed traps that come back.
pub data Calls (P : Platform) (C : Registers → Type 0) (k : P.Kernel) : P.Kernel → Type 0 where
  here : Calls P C k k
  next :
      {k1 k2 : P.Kernel} (r : Registers) (m m' : Memory) (ret success : ℕ)
      → Calls P C k k1
      → C r
      → P.ecall r m k1 ≡ back ret success m' k2
      → Calls P C k k2

-- The same, with a last trap that does not come back.
pub record Ends (P : Platform) (C : Registers → Type 0) (k k' : P.Kernel) : Type 0 where
  pub before : P.Kernel
  pub registers : Registers
  pub memory : Memory
  pub calls : Calls P C k before
  pub allowed : C registers
  pub leaves : P.ecall registers memory before ≡ gone k'

module _ {P : Platform} {C : Registers → Type 0} where
  pub Calls-trans : {k k1 k2 : P.Kernel} → Calls P C k k1 → Calls P C k1 k2 → Calls P C k k2
  Calls-trans first here = first
  Calls-trans first (next r m m' ret success before c e) =
      next r m m' ret success (Calls-trans first before) c e

  Ends-trans : {k k1 k2 : P.Kernel} → Calls P C k k1 → Ends P C k1 k2 → Ends P C k k2
  Ends-trans first e = record {
    before = e.before;
    registers = e.registers;
    memory = e.memory;
    calls = Calls-trans first e.calls;
    allowed = e.allowed;
    leaves = e.leaves;
  }

  -- A view of the kernel that no allowed trap changes is the same after them.
  pub Calls-view :
      {V : Type 0} (view : P.Kernel → V)
      → ((r : Registers) (m m' : Memory) (k k' : P.Kernel) (ret success : ℕ)
          → C r
          → P.ecall r m k ≡ back ret success m' k'
          → view k' ≡ view k)
      → {k k' : P.Kernel} → Calls P C k k'
      → view k' ≡ view k
  Calls-view view kept here = refl
  Calls-view view kept (next r m m' ret success before c e) =
      kept r m m' _ _ ret success c e ∙ Calls-view view kept before

module _ {P : Platform} (C : Registers → Type 0) where
  -- The kernel at the end of a run that began with the kernel `k`.
  abbrev pub After : {A : Type 0} → P.Kernel → Outcome P A → Type 0
  After k (value a s) = Calls P C k s.kernel
  After k (error e s) = Calls P C k s.kernel
  After k (panicked x s) = Calls P C k s.kernel
  After k (ended k') = Ends P C k k'
  After k (starved s) = Calls P C k s.kernel

  -- However the action ends, it made allowed calls only.
  abbrev pub Within : {A : Type 0} → M P A → Type 0
  Within m = (s : Machine P) → After s.kernel (m s)

  pub After-trans :
      {A : Type 0} {k k1 : P.Kernel} (o : Outcome P A) → Calls P C k k1 → After k1 o → After k o
  After-trans (value a s) first h = Calls-trans first h
  After-trans (error e s) first h = Calls-trans first h
  After-trans (panicked x s) first h = Calls-trans first h
  After-trans (ended k') first h = Ends-trans first h
  After-trans (starved s) first h = Calls-trans first h

  continue-After :
      {A B : Type 0} (k : P.Kernel) (o : Outcome P A) (f : A → M P B)
      → After k o
      → ((a : A) → Within (f a))
      → After k (continue o f)
  continue-After k (value a s) f h hf = After-trans (f a s) h (hf a s)
  continue-After k (error e s) f h hf = h
  continue-After k (panicked x s) f h hf = h
  continue-After k (ended k') f h hf = h
  continue-After k (starved s) f h hf = h

  pub Within-bind :
      {A B : Type 0} (m : M P A) (f : A → M P B)
      → Within m
      → ((a : A) → Within (f a))
      → Within (m >>= f)
  Within-bind m f hm hf s = continue-After s.kernel (m s) f (hm s) hf

  pub Within-then :
      {B : Type 0} (m : M P (Unit {0})) (n : M P B) → Within m → Within n → Within (m >> n)
  Within-then m n hm hn = Within-bind m (λ _. n) hm (λ _. hn)

  pub Within-if :
      {A : Type 0} (b : Bool) (m n : M P A) → Within m → Within n → Within (if b then m else n)
  Within-if true m n hm hn = hm
  Within-if false m n hm hn = hn

  attempted-After :
      {A : Type 0} (k : P.Kernel) (o : Outcome P A) → After k o → After k (attempted o)
  attempted-After k (value a s) h = h
  attempted-After k (error e s) h = h
  attempted-After k (panicked x s) h = h
  attempted-After k (ended k') h = h
  attempted-After k (starved s) h = h

  pub Within-attempt : {A : Type 0} (m : M P A) → Within m → Within (attempt m)
  Within-attempt m h s = attempted-After s.kernel (m s) (h s)

  unwrapped-After :
      {A : Type 0} (k : P.Kernel) (o : Outcome P A) → After k o → After k (unwrapped o)
  unwrapped-After k (value a s) h = h
  unwrapped-After k (error e s) h = h
  unwrapped-After k (panicked x s) h = h
  unwrapped-After k (ended k') h = h
  unwrapped-After k (starved s) h = h

  pub Within-unwrap : {A : Type 0} (m : M P A) → Within m → Within (unwrap m)
  Within-unwrap m h s = unwrapped-After s.kernel (m s) (h s)

  pub Within-local :
      {A : Type 0} (bytes : List ℕ) (body : ℕ → M P A)
      → ((p : ℕ) → Within (body p))
      → Within (with_local bytes body)
  unfolding with_local
  Within-local bytes body h s =
      let p : ℕ = P.frame (length bytes) in h p (record s { mem = store s.mem p bytes })

module _ {P : Platform} (C : Registers → Type 0) where
  pub load_byte-Within : (p : ℕ) → Within C (load_byte {P = P} p)
  unfolding load_byte
  load_byte-Within p s = here

  pub load_bytes-Within : (p n : ℕ) → Within C (load_bytes {P = P} p n)
  unfolding load_bytes
  load_bytes-Within p n s = here

  pub load_word-Within : (p : ℕ) → Within C (load_word {P = P} p)
  unfolding load_word
  load_word-Within p s = here

module _ {P : Platform} (C C' : Registers → Type 0) (more : (r : Registers) → C r → C' r) where
  Calls-weaken : {k k' : P.Kernel} → Calls P C k k' → Calls P C' k k'
  Calls-weaken here = here
  Calls-weaken (next r m m' ret success before c e) =
      next r m m' ret success (Calls-weaken before) (more r c) e

  After-weaken : {A : Type 0} (k : P.Kernel) (o : Outcome P A) → After C k o → After C' k o
  After-weaken k (value a s) h = Calls-weaken h
  After-weaken k (error e s) h = Calls-weaken h
  After-weaken k (panicked x s) h = Calls-weaken h
  After-weaken k (ended k') h = record {
    before = h.before;
    registers = h.registers;
    memory = h.memory;
    calls = Calls-weaken h.calls;
    allowed = more h.registers h.allowed;
    leaves = h.leaves;
  }
  After-weaken k (starved s) h = Calls-weaken h

  pub Within-weaken : {A : Type 0} (m : M P A) → Within C m → Within C' m
  Within-weaken m h s = After-weaken s.kernel (m s) (h s)
