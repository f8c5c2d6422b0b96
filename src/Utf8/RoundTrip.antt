-- ===== src/Utf8/RoundTrip.antt =====
-- `String::from_utf8` at the bytes of a text, as usrlib_rust/src/syscall.rs and cat use it.
use parch_testbench.Prelude.{
  ℕ, zero, suc, sym, replicate, ◌+◌, ◌-◌, ◌*◌, ◌/◌, ◌%◌, ◌≤◌, ◌<◌, ◌≡◌, ◌∙◌, refl, ap, true,
  Bool-cases, inl, inr, Option, none, some, List, [], ◌∷◌, ◌++◌, append_assoc, append-nil, Text,
  All, arith, ltb, leb,
}
use parch_testbench.Utf8.{is_char, encode_char, as_bytes, cons_char, decode_from, from_utf8}

-- The first byte of one, two, three and four.
first_of_one :
    (r : ℕ) (s : List ℕ) → r < 0x80 → decode_from 0 0 0 (r ∷ s) ≡ cons_char r (decode_from 0 0 0 s)
unfolding decode_from
first_of_one r s h = ground arith

first_of_two :
    (b : ℕ) (s : List ℕ)
    → 0xc0 ≤ b
    → b < 0xe0
    → decode_from 0 0 0 (b ∷ s) ≡ decode_from 1 (b - 0xc0) 0x80 s
unfolding decode_from
first_of_two b s lo hi = ground arith

first_of_three :
    (b : ℕ) (s : List ℕ)
    → 0xe0 ≤ b
    → b < 0xf0
    → decode_from 0 0 0 (b ∷ s) ≡ decode_from 2 (b - 0xe0) 0x800 s
unfolding decode_from
first_of_three b s lo hi = ground arith

first_of_four :
    (b : ℕ) (s : List ℕ)
    → 0xf0 ≤ b
    → b < 0xf8
    → decode_from 0 0 0 (b ∷ s) ≡ decode_from 3 (b - 0xf0) 0x10000 s
unfolding decode_from
first_of_four b s lo hi = ground arith

middle :
    (n acc low x : ℕ) (s : List ℕ)
    → x < 64
    → decode_from (suc (suc n)) acc low ((0x80 + x) ∷ s) ≡ decode_from (suc n) (acc * 64 + x) low s
unfolding decode_from
middle n acc low x s h =
    let t1 : leb 0x80 (0x80 + x) ≡ true = ground arith in
    let t2 : ltb (0x80 + x) 0xc0 ≡ true = ground arith in
    let bits : 0x80 + x - 0x80 ≡ x = omega arith in rw (t1, t2, bits) refl

last :
    (acc low x : ℕ) (s : List ℕ)
    → x < 64
    → low ≤ acc * 64 + x
    → is_char (acc * 64 + x) ≡ true
    → decode_from 1 acc low ((0x80 + x) ∷ s) ≡ cons_char (acc * 64 + x) (decode_from 0 0 0 s)
unfolding decode_from
last acc low x s h enough valid =
    let t1 : leb 0x80 (0x80 + x) ≡ true = ground arith in
    let t2 : ltb (0x80 + x) 0xc0 ≡ true = ground arith in
    let t3 : leb low (acc * 64 + x) ≡ true = ground arith in
    let bits : 0x80 + x - 0x80 ≡ x = omega arith in rw (t1, t2, bits) (rw (t3, valid) refl)

decode_two :
    (r : ℕ) (s : List ℕ)
    → 0x80 ≤ r
    → r < 0x800
    → decode_from 0 0 0 ((0xc0 + r / 64) ∷ (0x80 + r % 64) ∷ s) ≡ cons_char r (decode_from 0 0 0 s)
decode_two r s lo hi =
    let top : 0xc0 + r / 64 - 0xc0 ≡ r / 64 = omega arith in
    let same : r / 64 * 64 + r % 64 ≡ r = omega arith in
    let valid : is_char r ≡ true = ground arith in
    rw (first_of_two (0xc0 + r / 64) ((0x80 + r % 64) ∷ s) (omega arith) (omega arith), top)
      (rw same at (last (r / 64) 0x80 (r % 64) s (omega arith) (omega arith) (rw same valid)))

decode_three :
    (r : ℕ) (s : List ℕ)
    → 0x800 ≤ r
    → r < 0x10000
    → is_char r ≡ true
    → decode_from 0 0 0 ((0xe0 + r / 4096) ∷ (0x80 + r / 64 % 64) ∷ (0x80 + r % 64) ∷ s)
      ≡ cons_char r (decode_from 0 0 0 s)
decode_three r s lo hi valid =
    let top : 0xe0 + r / 4096 - 0xe0 ≡ r / 4096 = omega arith in
    let half : r / 4096 * 64 + r / 64 % 64 ≡ r / 64 = omega arith in
    let same : r / 64 * 64 + r % 64 ≡ r = omega arith in
    rw
      (
        first_of_three (0xe0 + r / 4096) ((0x80 + r / 64 % 64) ∷ (0x80 + r % 64) ∷ s) (omega arith)
            (omega arith),
        top,
        middle 0 (r / 4096) 0x800 (r / 64 % 64) ((0x80 + r % 64) ∷ s) (omega arith),
        half,
      )
      (rw same at (last (r / 64) 0x800 (r % 64) s (omega arith) (omega arith) (rw same valid)))

decode_four :
    (r : ℕ) (s : List ℕ)
    → 0x10000 ≤ r
    → is_char r ≡ true
    → decode_from 0 0 0
        ((0xf0 + r / 262144) ∷ (0x80 + r / 4096 % 64) ∷ (0x80 + r / 64 % 64) ∷ (0x80 + r % 64) ∷ s)
      ≡ cons_char r (decode_from 0 0 0 s)
decode_four r s lo valid =
    let small : r < 0x110000 = ground arith in
    let top : 0xf0 + r / 262144 - 0xf0 ≡ r / 262144 = omega arith in
    let quarter : r / 262144 * 64 + r / 4096 % 64 ≡ r / 4096 = omega arith in
    let half : r / 4096 * 64 + r / 64 % 64 ≡ r / 64 = omega arith in
    let same : r / 64 * 64 + r % 64 ≡ r = omega arith in
    rw
      (
        first_of_four (0xf0 + r / 262144)
            ((0x80 + r / 4096 % 64) ∷ (0x80 + r / 64 % 64) ∷ (0x80 + r % 64) ∷ s) (omega arith)
            (omega arith),
        top,
        middle 1 (r / 262144) 0x10000 (r / 4096 % 64) ((0x80 + r / 64 % 64) ∷ (0x80 + r % 64) ∷ s)
            (omega arith),
        quarter,
        middle 0 (r / 4096) 0x10000 (r / 64 % 64) ((0x80 + r % 64) ∷ s) (omega arith),
        half,
      )
      (rw same at (last (r / 64) 0x10000 (r % 64) s (omega arith) (omega arith) (rw same valid)))

decode_char :
    (r : ℕ) (s : List ℕ)
    → is_char r ≡ true
    → decode_from 0 0 0 (encode_char r ++ s) ≡ cons_char r (decode_from 0 0 0 s)
unfolding encode_char
decode_char r s h = elim (Bool-cases (ltb r 0x80)) [
  | inl t1 ↦ rw t1 (first_of_one r s (ground arith))
  | inr t1 ↦ elim (Bool-cases (ltb r 0x800)) [
    | inl t2 ↦ rw (t1, t2) (decode_two r s (ground arith) (ground arith))
    | inr t2 ↦ elim (Bool-cases (ltb r 0x10000)) [
      | inl t3 ↦ rw (t1, t2, t3) (decode_three r s (ground arith) (ground arith) h)
      | inr t3 ↦ rw (t1, t2, t3) (decode_four r s (ground arith) h)
    ]
  ]
]

-- What stands behind the text is decoded by itself.
abbrev pub prepend : Text → Option Text → Option Text
prepend t none = none
prepend t (some u) = some (t ++ u)

prepend-nil : (o : Option Text) → prepend [] o ≡ o
prepend-nil none = refl
prepend-nil (some u) = refl

prepend-cons : (r : ℕ) (t : Text) (o : Option Text) → cons_char r (prepend t o) ≡ prepend (r ∷ t) o
prepend-cons r t none = refl
prepend-cons r t (some u) = refl

decode_text :
    (t : Text) (s : List ℕ)
    → All (λ r. is_char r ≡ true) t
    → decode_from 0 0 0 (as_bytes t ++ s) ≡ prepend t (decode_from 0 0 0 s)
unfolding as_bytes
decode_text [] s h = sym (prepend-nil (decode_from 0 0 0 s))
decode_text (r ∷ t) s h =
    rw
      (
        append_assoc (encode_char r) (as_bytes t) s,
        decode_char r (as_bytes t ++ s) h.0,
        decode_text t s h.1,
      )
      (prepend-cons r t (decode_from 0 0 0 s))

pub from_utf8-append :
    (t : Text) (s : List ℕ)
    → All (λ r. is_char r ≡ true) t
    → from_utf8 (as_bytes t ++ s) ≡ prepend t (from_utf8 s)
unfolding from_utf8
from_utf8-append t s h = decode_text t s h

-- Bytes below 0x80 are characters.
pub from_utf8-replicate : (n b : ℕ) → b < 0x80 → from_utf8 (replicate n b) ≡ some (replicate n b)
unfolding from_utf8
from_utf8-replicate zero b h = unfold decode_from in refl
from_utf8-replicate (suc n) b h =
    first_of_one b (replicate n b) h ∙ rw (from_utf8-replicate n b h) refl

pub from_utf8-as_bytes :
    (t : Text) → All (λ r. is_char r ≡ true) t → from_utf8 (as_bytes t) ≡ some t
from_utf8-as_bytes t h =
    ap from_utf8 (sym (append-nil (as_bytes t)))
    ∙ from_utf8-append t [] h
    ∙ rw (from_utf8-replicate 0 0 (omega arith)) (ap some (append-nil t))
