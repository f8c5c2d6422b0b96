-- ===== src/Machine/Blocks.antt =====
-- The memory of a user process: a byte at each address, blocks of bytes, little-endian words.
use native.Mathlib.Nat.{pow-suc}
use parch_testbench.Prelude.{
  ℕ, zero, suc, ◌+◌, ◌*◌, ◌/◌, ◌%◌, ◌^◌, ◌≤◌, ◌<◌, ◌≡◌, ◌⊎◌, refl, sym, ap, ◌∙◌, ◌++◌,
  length-append, List, [], ◌∷◌, arith, ◌==◌, if◌then◌else◌, length,
}

abbrev pub Memory : Type 0
Memory = ℕ → ℕ

-- The memory once the bytes have been written from the address on.
unfoldable pub store : Memory → ℕ → List ℕ → Memory
store m p [] a = m a
store m p (b ∷ bs) a = if a == p then b else store m (p + 1) bs a

-- `n` bytes from the address on, as a slice.
unfoldable pub load : Memory → ℕ → ℕ → List ℕ
load m p zero = []
load m p (suc n) = m p ∷ load m (p + 1) n

-- The `n` bytes of a word, the lowest first.
unfoldable pub le_bytes : ℕ → ℕ → List ℕ
le_bytes zero w = []
le_bytes (suc n) w = (w % 256) ∷ le_bytes n (w / 256)

unfoldable pub of_le_bytes : List ℕ → ℕ
of_le_bytes [] = 0
of_le_bytes (b ∷ bs) = b + 256 * of_le_bytes bs

pub length-le_bytes : (n w : ℕ) → length (le_bytes n w) ≡ n
unfolding le_bytes
length-le_bytes zero w = refl
length-le_bytes (suc n) w = ap suc (length-le_bytes n (w / 256))

pub of_le_bytes-le_bytes : (n w : ℕ) → w < 256 ^ n → of_le_bytes (le_bytes n w) ≡ w
unfolding of_le_bytes le_bytes
of_le_bytes-le_bytes zero w h = omega arith
of_le_bytes-le_bytes (suc n) w h =
    omega (arith, pow-suc 256 n, of_le_bytes-le_bytes n (w / 256) (omega (arith, pow-suc 256 n)))

-- A write changes nothing outside its block.
pub store_outside :
    (m : Memory) (p a : ℕ) (bs : List ℕ) → (a < p) ⊎ (p + length bs ≤ a) → store m p bs a ≡ m a
unfolding store
store_outside m p a [] h = refl
store_outside m p a (b ∷ bs) h = ground (arith, store_outside m (p + 1) a bs)

-- What is read depends on the bytes of the block alone.
pub load_congr :
    (m m' : Memory) (p n : ℕ)
    → ((a : ℕ) → p ≤ a → a < p + n → m a ≡ m' a)
    → load m p n ≡ load m' p n
unfolding load
load_congr m m' p zero h = refl
load_congr m m' p (suc n) h = cc (
  h p (omega arith) (omega arith),
  load_congr m m' (p + 1) n (λ a lo hi. h a (omega arith) (omega arith)),
)

pub written_first : (m : Memory) (p b : ℕ) (bs : List ℕ) → store m p (b ∷ bs) p ≡ b
unfolding store
written_first m p b bs = ground arith

pub written_behind :
    (m : Memory) (p a b : ℕ) (bs : List ℕ) → p + 1 ≤ a → store m p (b ∷ bs) a ≡ store m (p + 1) bs a
unfolding store
written_behind m p a b bs h = ground arith

-- A block that was written reads back.
pub load-store : (m : Memory) (p : ℕ) (bs : List ℕ) → load (store m p bs) p (length bs) ≡ bs
unfolding load
load-store m p [] = refl
load-store m p (b ∷ bs) = cc (
  written_first m p b bs,
  load_congr (store m p (b ∷ bs)) (store m (p + 1) bs) (p + 1) (length bs)
      (λ a lo hi. written_behind m p a b bs lo),
  load-store m (p + 1) bs,
)

-- A write elsewhere leaves what is read.
pub load-store_disjoint :
    (m : Memory) (p q n : ℕ) (bs : List ℕ)
    → (q + n ≤ p) ⊎ (p + length bs ≤ q)
    → load (store m p bs) q n ≡ load m q n
load-store_disjoint m p q n bs h =
    load_congr (store m p bs) m q n (λ a lo hi. store_outside m p a bs (ground arith))

-- Two reads in a row.
pub load-add : (m : Memory) (p n k : ℕ) → load m p (n + k) ≡ load m p n ++ load m (p + n) k
unfolding load
load-add m p zero k =
    let here : p + 0 ≡ p = omega arith in
    let none_read : 0 + k ≡ k = omega arith in rw (here, none_read) refl
load-add m p (suc n) k =
    let next : suc n + k ≡ suc (n + k) = omega arith in
    let there : p + suc n ≡ p + 1 + n = omega arith in
    rw (next, there) (ap (λ l. m p ∷ l) (load-add m (p + 1) n k))

append_cancel :
    (xs xs' ys ys' : List ℕ)
    → length xs ≡ length xs'
    → xs ++ ys ≡ xs' ++ ys'
    → (xs ≡ xs') × (ys ≡ ys')
append_cancel [] [] ys ys' n e = (refl, e)
append_cancel [] (x ∷ xs') ys ys' n e = absurd (omega (arith, n))
append_cancel (x ∷ xs) [] ys ys' n e = absurd (omega (arith, n))
append_cancel (x ∷ xs) (y ∷ xs') ys ys' n e =
    let (same, rest) = append_cancel xs xs' ys ys' (omega (arith, n)) (ground (arith, e)) in
    (cc (same, e), rest)

length-load : (m : Memory) (p n : ℕ) → length (load m p n) ≡ n
unfolding load
length-load m p zero = refl
length-load m p (suc n) = ap suc (length-load m (p + 1) n)

-- A block of two parts is the two blocks.
pub load-append :
    (m : Memory) (p : ℕ) (xs ys : List ℕ)
    → load m p (length (xs ++ ys)) ≡ xs ++ ys
    → (load m p (length xs) ≡ xs) × (load m (p + length xs) (length ys) ≡ ys)
load-append m p xs ys h =
    append_cancel (load m p (length xs)) xs (load m (p + length xs) (length ys)) ys
      (length-load m p (length xs))
      (sym (load-add m p (length xs) (length ys)) ∙ rw (length-append xs ys) at h)

-- A word that was stored is read back.
pub load-store_word :
    (m : Memory) (p w : ℕ) → w < 2 ^ 64 → of_le_bytes (load (store m p (le_bytes 8 w)) p 8) ≡ w
load-store_word m p w small =
    let eight : length (le_bytes 8 w) ≡ 8 = length-le_bytes 8 w in
    rw (rw eight at (load-store m p (le_bytes 8 w))) (of_le_bytes-le_bytes 8 w small)
