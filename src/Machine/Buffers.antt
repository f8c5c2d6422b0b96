-- ===== src/Machine/Buffers.antt =====
-- A zeroed array in memory over whose front bytes are written, as the buffers of
-- usrlib_rust/src/syscall.rs and parch_utils/cat/src/main.rs are.
use parch_testbench.Prelude.{
  ℕ, zero, suc, ◌+◌, ◌-◌, ◌≤◌, ◌≡◌, ◌∙◌, refl, ap, inr, List, ◌∷◌, ◌++◌, length, replicate, arith,
}
use parch_testbench.Machine.Blocks.{
  Memory, store, load, load-store, load-store_disjoint, load-add, load-append,
}

length-replicate : (n b : ℕ) → length (replicate n b) ≡ n
length-replicate zero b = refl
length-replicate (suc n) b = ap suc (length-replicate n b)

replicate-add : (n k b : ℕ) → replicate (n + k) b ≡ replicate n b ++ replicate k b
replicate-add zero k b = let none_first : 0 + k ≡ k = omega arith in rw none_first refl
replicate-add (suc n) k b =
    let next : suc n + k ≡ suc (n + k) = omega arith in
    rw next (ap (λ l. b ∷ l) (replicate-add n k b))

zeroed_behind :
    (m : Memory) (p a k : ℕ) → load (store m p (replicate (a + k) 0)) (p + a) k ≡ replicate k 0
zeroed_behind m p a k =
    let whole : load (store m p (replicate a 0 ++ replicate k 0)) p
          (length (replicate a 0 ++ replicate k 0))
        ≡ replicate a 0 ++ replicate k 0 =
      load-store m p (replicate a 0 ++ replicate k 0) in
    let (front, behind) = load-append _ p (replicate a 0) (replicate k 0) whole in
    rw (replicate-add a k 0) (rw (length-replicate a 0, length-replicate k 0) at behind)

zeroed-store_parts :
    (m : Memory) (p a k : ℕ) (bytes : List ℕ)
    → length bytes ≡ a
    → load (store (store m p (replicate (a + k) 0)) p bytes) p (a + k) ≡ bytes ++ replicate k 0
zeroed-store_parts m p a k bytes size =
    let m1 : Memory = store m p (replicate (a + k) 0) in
    let apart : load (store m1 p bytes) (p + a) k ≡ load m1 (p + a) k =
      load-store_disjoint m1 p (p + a) k bytes (inr (omega (arith, size))) in
    load-add (store m1 p bytes) p a k
    ∙ rw (apart, zeroed_behind m p a k)
        (ap (λ l. l ++ replicate k 0) (rw size at (load-store m1 p bytes)))

pub zeroed-store :
    (m : Memory) (p n : ℕ) (bytes : List ℕ)
    → length bytes ≤ n
    → load (store (store m p (replicate n 0)) p bytes) p n ≡ bytes ++ replicate (n - length bytes) 0
zeroed-store m p n bytes fits =
    let whole : length bytes + (n - length bytes) ≡ n = omega (arith, fits) in
    rw whole at (zeroed-store_parts m p (length bytes) (n - length bytes) bytes refl)
