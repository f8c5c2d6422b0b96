-- ===== src/FmtIo/Illegal.antt =====
-- `getchar_noecho` of usrlib_rust/src/fmt_io.rs at bytes that begin no character.
use Prim.Native.Nat.{bit_and}
use parch_testbench.Prelude.{
  ℕ, suc, ◌≤◌, ◌<◌, ◌≡◌, ◌⊎◌, true, false, Bool-cases, inl, inr, List, [], ◌∷◌, ◌++◌, arith, ltb,
  ◌==◌,
}
use parch_testbench.Machine.{Platform, Machine, value}
use parch_testbench.FmtIo.{replacement, continuation, after_first, getbyte_noecho, getchar_noecho}
use parch_testbench.FmtIo.Masks.{top_two}
use parch_testbench.FmtIo.Console.{Console, Does, Does-pure, Does-bind, getbyte_lem}
use parch_testbench.FmtIo.Chars.{with_first}

-- A byte that is no continuation byte.
abbrev pub IsFirst : ℕ → Type 0
IsFirst x = (x < 0x80) ⊎ ((0xc0 ≤ x) × (x < 0x100))

top_two-IsFirst : (x : ℕ) → IsFirst x → (bit_and x 0b11000000 == 0b10000000) ≡ false
top_two-IsFirst x (inl low) = ground (arith, top_two x (omega arith))
top_two-IsFirst x (inr high) = ground (arith, top_two x (omega arith))

module _ {P : Platform} (c : Console P) where
  continuation_stops :
      (n buf x : ℕ) → IsFirst x → Does c (continuation (suc n) buf) replacement (x ∷ []) []
  unfolding continuation
  continuation_stops n buf x h =
      Does-bind c getbyte_noecho _ x replacement (x ∷ []) [] [] [] (getbyte_lem c x)
        (rw (top_two-IsFirst x h) (Does-pure c replacement))

  after_first_stops :
      (b x : ℕ) → 0x80 ≤ b → b < 0xfe → IsFirst x → Does c (after_first b) replacement (x ∷ []) []
  unfolding after_first
  after_first_stops b x lo hi h =
      let t1 : ltb b 0b10000000 ≡ false = ground arith in
      let t6 : ltb b 0b11111110 ≡ true = ground arith in
      elim (Bool-cases (ltb b 0b11100000)) [
        | inl e2 ↦ rw (t1, e2) (continuation_stops 0 _ x h)
        | inr e2 ↦ elim (Bool-cases (ltb b 0b11110000)) [
          | inl e3 ↦ rw (t1, e2, e3) (continuation_stops 1 _ x h)
          | inr e3 ↦ elim (Bool-cases (ltb b 0b11111000)) [
            | inl e4 ↦ rw (t1, e2, e3, e4) (continuation_stops 2 _ x h)
            | inr e4 ↦ elim (Bool-cases (ltb b 0b11111100)) [
              | inl e5 ↦ rw (t1, e2, e3) (rw (e4, e5) (continuation_stops 3 _ x h))
              | inr e5 ↦ rw (t1, e2, e3) (rw (e4, e5, t6) (continuation_stops 4 _ x h))
            ]
          ]
        ]
      ]

  -- Where a byte that announces more bytes is typed, and then one that is no continuation byte,
  -- `getchar_noecho` returns the replacement character and has consumed both: the second byte, which
  -- may be the end of the line, is lost.
  pub getchar_swallows :
      (s : Machine P) (b x : ℕ) (rest : List ℕ)
      → 0x80 ≤ b
      → b < 0xfe
      → IsFirst x
      → c.pending s.kernel ≡ b ∷ x ∷ rest
      → (s' : Machine P) × (getchar_noecho s ≡ value replacement s')
        × (c.pending s'.kernel ≡ rest)
        × (c.shown s'.kernel ≡ c.shown s.kernel ++ [])
  getchar_swallows s b x rest lo hi h typed =
      with_first c b replacement (x ∷ []) (after_first_stops b x lo hi h) s rest typed
