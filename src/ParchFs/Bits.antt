-- ===== src/ParchFs/Bits.antt =====
-- The byte operations of parchfs/parchfs.cpp, by a table of all bytes and positions.
use parch_testbench.Prelude.{
  ℕ, zero, suc, ◌<◌, ◌≡◌, refl, Bool, true, false, Bool-cases, inl, inr, ◌||◌, not, arith, ◌==◌,
  ==_iff, if◌then◌else◌,
}
use parch_testbench.ParchFs.{set_bit, get_bit}

-- The test holds of every number below the bound.
unfoldable pub every : ℕ → (ℕ → Bool) → Bool
every zero test = true
every (suc top) test = let lower = every top test in if test top then lower else false

pub every_lem :
    (bound : ℕ) (test : ℕ → Bool) (x : ℕ) → every bound test ≡ true → x < bound → test x ≡ true
unfolding every
every_lem zero test x all lt = elim lt [ ]
every_lem (suc top) test x all lt = elim (Bool-cases (test top)) [
  | inr fails ↦ let never : false ≡ true = rw fails at all in absurd (cc never)
  | inl here ↦ elim (Bool-cases (x == top)) [
    | inl last ↦ rw ((==_iff x top).0 last) here
    | inr earlier ↦ every_lem top test x (rw here at all) (ground (arith, lt, earlier))
  ]
]

abbrev same : Bool → Bool → Bool
same true b = b
same false b = not b

same_lem : (a b : Bool) → same a b ≡ true → a ≡ b
same_lem true true h = refl
same_lem true false h = absurd (cc h)
same_lem false true h = absurd (cc h)
same_lem false false h = refl

abbrev set_right : ℕ → ℕ → ℕ → Bool
set_right b i j = same (get_bit (set_bit b i) j) (j == i || get_bit b j)

set_table : every 256 (λ b. every 8 (λ i. every 8 (λ j. set_right b i j))) ≡ true
unfolding every get_bit set_bit
set_table = refl

-- After setting one bit of a byte, a bit is set where it is that one or was set before.
pub get_bit-set_bit :
    (b i j : ℕ) → b < 256 → i < 8 → j < 8 → get_bit (set_bit b i) j ≡ (j == i || get_bit b j)
get_bit-set_bit b i j byte hi hj = same_lem _ _ (
    every_lem 8 (λ j. set_right b i j) j
      (every_lem 8 (λ i. every 8 (λ j. set_right b i j)) i
        (every_lem 256 (λ b. every 8 (λ i. every 8 (λ j. set_right b i j))) b set_table byte) hi)
      hj)
