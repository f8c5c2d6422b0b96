-- ===== src/FmtIo/Chars.antt =====
-- `getchar_noecho` of usrlib_rust/src/fmt_io.rs against UTF-8.
use Prim.Native.Nat.{bit_and}
use parch_testbench.Prelude.{
  ℕ, suc, ◌+◌, ◌*◌, ◌/◌, ◌%◌, ◌^◌, ◌≤◌, ◌<◌, ◌≡◌, Bool-cases, inl, inr, true, false, List, [], none,
  ◌∷◌, arith, ltb, ◌==◌,
}
use parch_testbench.Utf8.{is_char, encode_char, from_utf8}
use parch_testbench.Machine.{Platform}
use parch_testbench.FmtIo.{getbyte_noecho, continuation, after_first, getchar_noecho}
use parch_testbench.FmtIo.Masks.{low_six, top_two, low_five, low_four, low_three}
use parch_testbench.FmtIo.Console.{Console, Does, Does-pure, Does-bind, getbyte_lem}

module _ {P : Platform} (c : Console P) where
  -- One more byte of a character: its six bits are put behind those read so far.
  continuation_step :
      (n buf x r : ℕ) (i : List ℕ)
      → x < 64
      → buf < 2 ^ 26
      → Does c (continuation n (buf * 64 + x)) r i []
      → Does c (continuation (suc n) buf) r ((0x80 + x) ∷ i) []
  unfolding continuation
  continuation_step n buf x r i hx hb h =
      Does-bind c getbyte_noecho _ (0x80 + x) r ((0x80 + x) ∷ []) i [] [] (getbyte_lem c (0x80 + x))
        (let test : (bit_and (0x80 + x) 0b11000000 == 0b10000000) ≡ true =
            ground (arith, top_two (0x80 + x) (omega arith)) in
          let bits : buf * 64 % 2 ^ 32 + bit_and (0x80 + x) 0b00111111 ≡ buf * 64 + x =
            omega (arith, low_six (0x80 + x) (omega arith)) in
          rw (test, bits) h)

  continuation_end : (r : ℕ) → is_char r ≡ true → Does c (continuation 0 r) r [] []
  unfolding continuation
  continuation_end r h = rw h (Does-pure c r)

  one_byte : (r : ℕ) → r < 0x80 → Does c (after_first r) r [] []
  unfolding after_first
  one_byte r h = let t : ltb r 0x80 ≡ true = ground arith in rw t (Does-pure c r)

  -- A first byte below 0xe0, also one that is a continuation byte, announces two bytes.
  two_bytes :
      (b x : ℕ)
      → 0x80 ≤ b
      → b < 0xe0
      → x < 64
      → Does c (after_first b) (b % 32 * 64 + x) ((0x80 + x) ∷ []) []
  unfolding after_first
  two_bytes b x lo hi hx =
      let t1 : ltb b 0x80 ≡ false = ground arith in
      let t2 : ltb b 0xe0 ≡ true = ground arith in
      let valid : is_char (b % 32 * 64 + x) ≡ true = ground arith in
      rw (t1, t2, low_five b (omega arith))
        (continuation_step 0 (b % 32) x (b % 32 * 64 + x) [] hx (omega arith)
          (continuation_end _ valid))

  three_bytes :
      (b x y : ℕ)
      → 0xe0 ≤ b
      → b < 0xf0
      → x < 64
      → y < 64
      → is_char ((b % 16 * 64 + x) * 64 + y) ≡ true
      → Does c (after_first b) ((b % 16 * 64 + x) * 64 + y) ((0x80 + x) ∷ (0x80 + y) ∷ []) []
  unfolding after_first
  three_bytes b x y lo hi hx hy valid =
      let t1 : ltb b 0x80 ≡ false = ground arith in
      let t2 : ltb b 0xe0 ≡ false = ground arith in
      let t3 : ltb b 0xf0 ≡ true = ground arith in
      rw (t1, t2, t3, low_four b (omega arith))
        (continuation_step 1 (b % 16) x _ ((0x80 + y) ∷ []) hx (omega arith) (
          continuation_step 0 (b % 16 * 64 + x) y _ [] hy (omega arith) (continuation_end _ valid)))

  four_bytes :
      (b x y z : ℕ)
      → 0xf0 ≤ b
      → b < 0xf8
      → x < 64
      → y < 64
      → z < 64
      → is_char (((b % 8 * 64 + x) * 64 + y) * 64 + z) ≡ true
      → Does c
          (after_first b)
          (((b % 8 * 64 + x) * 64 + y) * 64 + z)
          ((0x80 + x) ∷ (0x80 + y) ∷ (0x80 + z) ∷ [])
          []
  unfolding after_first
  four_bytes b x y z lo hi hx hy hz valid =
      let t1 : ltb b 0x80 ≡ false = ground arith in
      let t2 : ltb b 0xe0 ≡ false = ground arith in
      let t3 : ltb b 0xf0 ≡ false = ground arith in
      let t4 : ltb b 0xf8 ≡ true = ground arith in
      rw (t1, t2, t3, t4, low_three b (omega arith))
        (continuation_step 2 (b % 8) x _ ((0x80 + y) ∷ (0x80 + z) ∷ []) hx (omega arith) (
          continuation_step 1 (b % 8 * 64 + x) y _ ((0x80 + z) ∷ []) hy (omega arith) (
            continuation_step 0 ((b % 8 * 64 + x) * 64 + y) z _ [] hz (omega arith)
              (continuation_end _ valid))))

  pub with_first :
      (b r : ℕ) (i : List ℕ) → Does c (after_first b) r i [] → Does c getchar_noecho r (b ∷ i) []
  unfolding getchar_noecho
  with_first b r i h =
      Does-bind c getbyte_noecho after_first b r (b ∷ []) i [] [] (getbyte_lem c b) h

  read_two :
      (r : ℕ)
      → 0x80 ≤ r
      → r < 0x800
      → Does c getchar_noecho r ((0xc0 + r / 64) ∷ (0x80 + r % 64) ∷ []) []
  read_two r lo hi =
      let same : (0xc0 + r / 64) % 32 * 64 + r % 64 ≡ r = omega arith in
      with_first (0xc0 + r / 64) r ((0x80 + r % 64) ∷ [])
        (rw same at (two_bytes (0xc0 + r / 64) (r % 64) (omega arith) (omega arith) (omega arith)))

  read_three :
      (r : ℕ)
      → 0x800 ≤ r
      → r < 0x10000
      → is_char r ≡ true
      → Does c getchar_noecho r ((0xe0 + r / 4096) ∷ (0x80 + r / 64 % 64) ∷ (0x80 + r % 64) ∷ []) []
  read_three r lo hi h =
      let same : ((0xe0 + r / 4096) % 16 * 64 + r / 64 % 64) * 64 + r % 64 ≡ r = omega arith in
      with_first (0xe0 + r / 4096) r ((0x80 + r / 64 % 64) ∷ (0x80 + r % 64) ∷ []) (
        rw same at (
          three_bytes (0xe0 + r / 4096) (r / 64 % 64) (r % 64) (omega arith) (omega arith)
            (omega arith) (omega arith) (rw same h)))

  read_four :
      (r : ℕ)
      → 0x10000 ≤ r
      → is_char r ≡ true
      → Does c getchar_noecho r
          ((0xf0 + r / 262144)
            ∷ (0x80 + r / 4096 % 64)
            ∷ (0x80 + r / 64 % 64)
            ∷ (0x80 + r % 64)
            ∷ [])
          []
  read_four r lo h =
      let small : r < 0x110000 = ground arith in
      let same : (((0xf0 + r / 262144) % 8 * 64 + r / 4096 % 64) * 64 + r / 64 % 64) * 64 + r % 64
          ≡ r =
        omega arith in
      with_first (0xf0 + r / 262144) r
        ((0x80 + r / 4096 % 64) ∷ (0x80 + r / 64 % 64) ∷ (0x80 + r % 64) ∷ [])
        (rw same at (
          four_bytes (0xf0 + r / 262144) (r / 4096 % 64) (r / 64 % 64) (r % 64) (omega arith)
            (omega arith) (omega arith) (omega arith) (omega arith) (rw same h)))

  -- Every character is read from its UTF-8 bytes: they are consumed, no other byte is, and nothing is
  -- shown.
  pub getchar_noecho-encode_char :
      (r : ℕ) → is_char r ≡ true → Does c getchar_noecho r (encode_char r) []
  unfolding encode_char
  getchar_noecho-encode_char r h = elim (Bool-cases (ltb r 0x80)) [
    | inl t1 ↦ rw t1 (with_first r r [] (one_byte r (ground arith)))
    | inr t1 ↦ elim (Bool-cases (ltb r 0x800)) [
      | inl t2 ↦ rw (t1, t2) (read_two r (ground arith) (ground arith))
      | inr t2 ↦ elim (Bool-cases (ltb r 0x10000)) [
        | inl t3 ↦ rw (t1, t2, t3) (read_three r (ground arith) (ground arith) h)
        | inr t3 ↦ rw (t1, t2, t3) (read_four r (ground arith) h)
      ]
    ]
  ]

  -- A continuation byte is taken for the first byte of a character: followed by another one it is
  -- read as a character below 0x800, where `String::from_utf8` refuses the two bytes.
  pub stray_continuation :
      (b x : ℕ)
      → 0x80 ≤ b
      → b < 0xc0
      → x < 64
      → Does c getchar_noecho (b % 32 * 64 + x) (b ∷ (0x80 + x) ∷ []) []
        × (from_utf8 (b ∷ (0x80 + x) ∷ []) ≡ none)
  stray_continuation b x lo hi hx = (
    with_first b (b % 32 * 64 + x) ((0x80 + x) ∷ []) (two_bytes b x lo (omega arith) hx),
    unfold from_utf8 in ground arith,
  )
