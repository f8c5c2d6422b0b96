-- ===== src/ParchFs/Image.antt =====
-- Writes to the image of parchfs/parchfs.cpp: its bytes, `memset` and the counters.
use parch_testbench.Prelude.{
  ℕ, zero, suc, ◌+◌, ◌-◌, ◌/◌, ◌%◌, ◌^◌, ◌≤◌, ◌<◌, ◌≡◌, ◌⊎◌, List, [], ◌∷◌, All, arith,
}
use parch_testbench.Machine.Blocks.{
  Memory, store, load, le_bytes, of_le_bytes, store_outside, length-le_bytes,
}
use parch_testbench.ParchFs.{memset, decrement}
use parch_testbench.ParchFs.Bitmap.{IsBytes}

pub le_bytes-All : (n w : ℕ) → All (λ b. b < 256) (le_bytes n w)
unfolding le_bytes
le_bytes-All zero w = tt
le_bytes-All (suc n) w = (omega arith, le_bytes-All n (w / 256))

pub store-IsBytes :
    (m : Memory) (p : ℕ) (bs : List ℕ) → IsBytes m → All (λ b. b < 256) bs → IsBytes (store m p bs)
unfolding store
store-IsBytes m p [] h hb a = h a
store-IsBytes m p (b ∷ bs) h hb a = ground (arith, hb.0, store-IsBytes m (p + 1) bs h hb.1 a)

pub decrement-IsBytes : (p : ℕ) (m : Memory) → IsBytes m → IsBytes (decrement p m)
decrement-IsBytes p m h = store-IsBytes m p _ h (le_bytes-All 8 _)

pub decrement_outside : (p a : ℕ) (m : Memory) → (a < p) ⊎ (p + 8 ≤ a) → decrement p m a ≡ m a
decrement_outside p a m h =
    let w : ℕ = (of_le_bytes (load m p 8) + (2 ^ 64 - 1)) % 2 ^ 64 in
    store_outside m p a (le_bytes 8 w) (rw (length-le_bytes 8 w) h)

pub memset_inside : (m : Memory) (p b n a : ℕ) → p ≤ a → a < p + n → memset m p b n a ≡ b
unfolding memset
memset_inside m p b n a lo hi = ground arith

pub memset_outside : (m : Memory) (p b n a : ℕ) → (a < p) ⊎ (p + n ≤ a) → memset m p b n a ≡ m a
unfolding memset
memset_outside m p b n a h = ground arith

pub memset-IsBytes : (m : Memory) (p n : ℕ) → IsBytes m → IsBytes (memset m p 0 n)
unfolding memset
memset-IsBytes m p n h a = ground (arith, h a)
