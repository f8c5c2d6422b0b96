-- ===== src/FmtIo/Masks.antt =====
-- The masks that usrlib_rust/src/fmt_io.rs takes of a byte, as remainders, by a table of all bytes.
use Prim.Native.Nat.{bit_and}
use parch_testbench.Prelude.{
  ℕ, zero, suc, ◌*◌, ◌/◌, ◌%◌, ◌<◌, ◌≡◌, refl, Bool, true, false, Bool-cases, inl, inr, arith, ◌==◌,
  ==_iff, if◌then◌else◌,
}

-- The two functions agree at every number below the bound.
agree : ℕ → (ℕ → ℕ) → (ℕ → ℕ) → Bool
agree zero f g = true
agree (suc top) f g = let lower = agree top f g in if f top == g top then lower else false

agree_lem : (f g : ℕ → ℕ) (bound b : ℕ) → b < bound → agree bound f g ≡ true → f b ≡ g b
unfolding agree
agree_lem f g zero b lt same = elim lt [ ]
agree_lem f g (suc top) b lt same = elim (Bool-cases (f top == g top)) [
  | inr differ ↦ let never : false ≡ true = rw differ at same in absurd (cc never)
  | inl here ↦ elim (Bool-cases (b == top)) [
    | inl last ↦ rw ((==_iff b top).0 last) ((==_iff (f top) (g top)).0 here)
    | inr earlier ↦ agree_lem f g top b (ground (arith, lt, earlier)) (rw here at same)
  ]
]

module _ (b : ℕ) (byte : b < 256) where
  pub low_six : bit_and b 0b00111111 ≡ b % 64
  unfolding agree
  low_six = agree_lem (λ b. bit_and b 0b00111111) (λ b. b % 64) 256 b byte refl

  pub top_two : bit_and b 0b11000000 ≡ b / 64 * 64
  unfolding agree
  top_two = agree_lem (λ b. bit_and b 0b11000000) (λ b. b / 64 * 64) 256 b byte refl

  pub low_five : bit_and b 0b00011111 ≡ b % 32
  unfolding agree
  low_five = agree_lem (λ b. bit_and b 0b00011111) (λ b. b % 32) 256 b byte refl

  pub low_four : bit_and b 0b00001111 ≡ b % 16
  unfolding agree
  low_four = agree_lem (λ b. bit_and b 0b00001111) (λ b. b % 16) 256 b byte refl

  pub low_three : bit_and b 0b00000111 ≡ b % 8
  unfolding agree
  low_three = agree_lem (λ b. bit_and b 0b00000111) (λ b. b % 8) 256 b byte refl
