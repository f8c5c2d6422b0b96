-- ===== src/ParchFs/Bitmap.antt =====
-- The bitmaps of parchfs/parchfs.cpp: what `set` does to `get`, and which position `first_available`
-- finds.
use parch_testbench.Prelude.{
  ℕ, zero, suc, ◌+◌, ◌*◌, ◌/◌, ◌%◌, ◌≤◌, ◌<◌, ◌≡◌, ◌≢◌, refl, true, false, Bool-cases, inl, inr,
  Option, none, some, ◌||◌, arith, ◌==◌,
}
use parch_testbench.Machine.Blocks.{Memory, store}
use parch_testbench.ParchFs.{set_bit, set, clear, get, find_free, first_available}
use parch_testbench.ParchFs.Bits.{get_bit-set_bit}

-- Every address holds a byte.
abbrev pub IsBytes : Memory → Type 0
IsBytes m = (a : ℕ) → m a < 256

pub set-IsBytes : (p pos : ℕ) (m : Memory) → IsBytes m → IsBytes (set p pos m)
unfolding set store set_bit
set-IsBytes p pos m bytes a = ground (arith, bytes a)

-- Only the byte of the position changes.
pub set_outside : (p pos a : ℕ) (m : Memory) → a ≢ p + pos / 8 → set p pos m a ≡ m a
unfolding set store
set_outside p pos a m other = ground (arith, other)

-- After setting a position of a bitmap, a position is set where it is that one or was set before.
pub get-set :
    (p pos q : ℕ) (m : Memory) → IsBytes m → get p q (set p pos m) ≡ (q == pos || get p q m)
unfolding get set store
get-set p pos q m bytes = elim (Bool-cases (q / 8 == pos / 8)) [
  | inl e ↦
      let here : q / 8 ≡ pos / 8 = ground (arith, e) in
      let at : (p + q / 8 == p + pos / 8) ≡ true = ground (arith, here) in
      let bit : (q % 8 == pos % 8) ≡ (q == pos) = ground (arith, here) in
      rw
        (
          at,
          get_bit-set_bit (m (p + pos / 8)) (pos % 8) (q % 8) (bytes _) (omega arith) (omega arith),
          bit,
          here,
        )
        refl
  | inr e ↦
      let at : (p + q / 8 == p + pos / 8) ≡ false = ground (arith, e) in
      let other : (q == pos) ≡ false = ground (arith, e) in rw (at, other) refl
]

-- `clear` marks the position as used, as `set` does.
pub get-clear :
    (p pos q : ℕ) (m : Memory) → IsBytes m → get p q (clear p pos m) ≡ (q == pos || get p q m)
unfolding clear
get-clear p pos q m bytes = unfold set in get-set p pos q m bytes

-- The first free position of those in a range, or that there is none.
abbrev pub IsFirst : ℕ → ℕ → ℕ → Memory → Option ℕ → Type 0
IsFirst p from to m none = (j : ℕ) → from ≤ j → j < to → get p j m ≡ true
IsFirst p from to m (some r) =
    (from ≤ r) × (r < to) × (get p r m ≡ false) × ((j : ℕ) → from ≤ j → j < r → get p j m ≡ true)

IsFirst-extend :
    (p i to : ℕ) (m : Memory) (o : Option ℕ)
    → get p i m ≡ true
    → IsFirst p (i + 1) to m o
    → IsFirst p i to m o
IsFirst-extend p i to m none used h = λ j lo hi. elim (Bool-cases (i == j)) [
  | inl e ↦ let same : i ≡ j = ground (arith, e) in rw (← same) used
  | inr e ↦ h j (ground (arith, e)) hi
]
IsFirst-extend p i to m (some r) used (lo, hi, free, before) = (
  omega arith,
  hi,
  free,
  (λ j low high. elim (Bool-cases (i == j)) [
    | inl e ↦ let same : i ≡ j = ground (arith, e) in rw (← same) used
    | inr e ↦ before j (ground (arith, e)) high
  ]),
)

find_free-IsFirst : (p left i : ℕ) (m : Memory) → IsFirst p i (i + left) m (find_free p left i m)
unfolding find_free
find_free-IsFirst p zero i m = λ j lo hi. absurd (omega arith)
find_free-IsFirst p (suc left) i m =
    let same : i + 1 + left ≡ i + suc left = omega arith in
    let rest : IsFirst p (i + 1) (i + suc left) m (find_free p left (i + 1) m) =
      rw same at (find_free-IsFirst p left (i + 1) m) in
    elim (Bool-cases (get p i m)) [
      | inl used ↦ rw used (IsFirst-extend p i (i + suc left) m _ used rest)
      | inr free ↦ rw free (omega arith, omega arith, free, λ j lo hi. absurd (omega arith))
    ]

-- `first_available` returns the least free position of the bitmap, and fails only if none is free.
pub first_available-IsFirst :
    (p size : ℕ) (m : Memory) → IsFirst p 0 (size * 8) m (first_available p size m)
unfolding first_available
first_available-IsFirst p size m =
    let same : 0 + size * 8 ≡ size * 8 = omega arith in
    rw same at (find_free-IsFirst p (size * 8) 0 m)
