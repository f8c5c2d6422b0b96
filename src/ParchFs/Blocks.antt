-- ===== src/ParchFs/Blocks.antt =====
-- Taking a block or an inode in parchfs/parchfs.cpp: what `alloc_blk` does to the bitmaps and to the
-- rest of the image.
use parch_testbench.Prelude.{
  List, ℕ, ◌+◌, ◌*◌, ◌/◌, ◌≤◌, ◌<◌, ◌≡◌, ◌≢◌, ◌∙◌, refl, ap, Bool, true, false, Bool-cases, ◌⊎◌,
  inl, inr, Option, none, some, ◌||◌, arith, ltb, ◌==◌, ==_refl,
}
use parch_testbench.Machine.Blocks.{Memory}
use parch_testbench.ParchFs.{
  write_blk, set, get, memset, decrement, first_available, get_blk, take_blk, alloc_blk, blk_size,
  block_bitmap_size, superblock, fs_block_bitmap, mm_block_bitmap, inode_list, free_block,
}
use parch_testbench.ParchFs.Bitmap.{
  IsBytes, set-IsBytes, set_outside, get-set, IsFirst, first_available-IsFirst,
}
use parch_testbench.ParchFs.Image.{
  decrement-IsBytes, decrement_outside, memset_inside, memset_outside, memset-IsBytes,
}

-- The positions of a block bitmap, and the first block that holds a part of the file system itself.
abbrev pub positions : ℕ
positions = 524288

abbrev pub first_reserved : ℕ
first_reserved = 523742

-- An image whose block 0 and whose blocks with the inodes, the bitmaps and the superblock are in use.
pub record IsValid (m : Memory) : Type 0 where
  pub bytes : IsBytes m
  pub bad_block : get fs_block_bitmap 0 m ≡ true
  pub reserved : (b : ℕ) → first_reserved ≤ b → b < positions → get fs_block_bitmap b m ≡ true

-- Outside the block.
abbrev pub IsBeside : ℕ → ℕ → Type 0
IsBeside res a = (a < res * blk_size) ⊎ (res * blk_size + blk_size ≤ a)

-- The block was free and is in use in both bitmaps, it is zero, and the other blocks, the inodes and
-- their bitmap are as before.
pub record IsTaken (m : Memory) (res : ℕ) (m' : Memory) : Type 0 where
  pub not_bad : res ≢ 0
  pub was_free : get fs_block_bitmap res m ≡ false
  pub in_fs :
      (q : ℕ) → q < positions → get fs_block_bitmap q m' ≡ (q == res || get fs_block_bitmap q m)
  pub in_mm :
      (q : ℕ) → q < positions → get mm_block_bitmap q m' ≡ (q == res || get mm_block_bitmap q m)
  pub zero_filled : (a : ℕ) → res * blk_size ≤ a → a < res * blk_size + blk_size → m' a ≡ 0
  pub beside : (a : ℕ) → a < mm_block_bitmap → IsBeside res a → m' a ≡ m a
  pub valid : IsValid m'

pub or_true : (b : Bool) → (b || true) ≡ true
or_true true = refl
or_true false = refl

pub get_cong : (p q : ℕ) (m m' : Memory) → m' (p + q / 8) ≡ m (p + q / 8) → get p q m' ≡ get p q m
unfolding get
get_cong p q m m' e = rw e refl

-- The image with the block in the bitmaps, and before it is filled.
abbrev in_bitmaps : ℕ → Memory → Memory
in_bitmaps res m = set mm_block_bitmap res (set fs_block_bitmap res m)

abbrev marked : ℕ → Memory → Memory
marked res m = decrement (superblock + free_block) (in_bitmaps res m)

module _ (m : Memory) (res : ℕ) (bytes : IsBytes m) (low : res < first_reserved) where
  marked-IsBytes : IsBytes (marked res m)
  marked-IsBytes = decrement-IsBytes (superblock + free_block) (in_bitmaps res m) (
      set-IsBytes mm_block_bitmap res (set fs_block_bitmap res m)
        (set-IsBytes fs_block_bitmap res m bytes))

  marked_before : (a : ℕ) → a < superblock → marked res m a ≡ in_bitmaps res m a
  marked_before a lt =
      decrement_outside (superblock + free_block) a (in_bitmaps res m) (inl (omega arith))

  marked_fs :
      (q : ℕ)
      → q < positions
      → get fs_block_bitmap q (marked res m) ≡ (q == res || get fs_block_bitmap q m)
  marked_fs q small =
      let m1 : Memory = set fs_block_bitmap res m in
      get_cong fs_block_bitmap q m1 (marked res m) (
        marked_before (fs_block_bitmap + q / 8) (omega arith)
        ∙ set_outside mm_block_bitmap res (fs_block_bitmap + q / 8) m1 (omega arith))
      ∙ get-set fs_block_bitmap res q m bytes

  marked_mm :
      (q : ℕ)
      → q < positions
      → get mm_block_bitmap q (marked res m) ≡ (q == res || get mm_block_bitmap q m)
  marked_mm q small =
      let m1 : Memory = set fs_block_bitmap res m in
      get_cong mm_block_bitmap q (in_bitmaps res m) (marked res m)
        (marked_before (mm_block_bitmap + q / 8) (omega arith))
      ∙ (get-set mm_block_bitmap res q m1 (set-IsBytes fs_block_bitmap res m bytes)
          ∙ ap (λ b. q == res || b)
              (get_cong mm_block_bitmap q m m1
                (set_outside fs_block_bitmap res (mm_block_bitmap + q / 8) m (omega arith))))

  marked_below : (a : ℕ) → a < mm_block_bitmap → marked res m a ≡ m a
  marked_below a lt =
      marked_before a (omega arith)
      ∙ (set_outside mm_block_bitmap res a (set fs_block_bitmap res m) (omega arith)
          ∙ set_outside fs_block_bitmap res a m (omega arith))

  -- The filled image.
  abbrev pub filled : Memory
  filled = memset (marked res m) (res * blk_size) 0 blk_size

  filled_beside : (a : ℕ) → IsBeside res a → filled a ≡ marked res m a
  filled_beside a h = memset_outside (marked res m) (res * blk_size) 0 blk_size a h

  -- The bitmaps lie behind every block that is free.
  get-filled : (p q : ℕ) → inode_list ≤ p → get p q filled ≡ get p q (marked res m)
  get-filled p q behind =
      get_cong p q (marked res m) filled (filled_beside (p + q / 8) (inr (omega arith)))

  pub filled-IsTaken : IsValid m → get fs_block_bitmap res m ≡ false → IsTaken m res filled
  filled-IsTaken valid free = record {
    not_bad = λ e. let never : true ≡ false = rw (e, valid.bad_block) at free in cc never;
    was_free = free;
    in_fs = fs;
    in_mm = λ q small. get-filled mm_block_bitmap q (omega arith) ∙ marked_mm q small;
    zero_filled = λ a lo hi. memset_inside (marked res m) (res * blk_size) 0 blk_size a lo hi;
    beside = λ a lt h. filled_beside a h ∙ marked_below a lt;
    valid = record {
      bytes = memset-IsBytes (marked res m) (res * blk_size) blk_size marked-IsBytes;
      bad_block = fs 0 (omega arith) ∙ ap (λ b. 0 == res || b) valid.bad_block ∙ or_true (0 == res);
      reserved = λ b lo hi.
          fs b hi ∙ ap (λ u. b == res || u) (valid.reserved b lo hi) ∙ or_true (b == res);
    };
  }
    where
      fs :
          (q : ℕ)
          → q < positions
          → get fs_block_bitmap q filled ≡ (q == res || get fs_block_bitmap q m)
      fs q small = get-filled fs_block_bitmap q (omega arith) ∙ marked_fs q small

  pub take_blk_lem : take_blk res m ≡ some (res, filled)
  unfolding take_blk get_blk
  take_blk_lem =
      let fs : get fs_block_bitmap res (marked res m) ≡ true =
        rw (marked_fs res (omega arith), ==_refl res) refl in
      let mm : get mm_block_bitmap res (marked res m) ≡ true =
        rw (marked_mm res (omega arith), ==_refl res) refl in
      rw (fs, mm) refl

pub free-lt :
    (m : Memory) (b : ℕ)
    → IsValid m
    → b < positions
    → get fs_block_bitmap b m ≡ false
    → b < first_reserved
free-lt m b valid small free = elim (Bool-cases (ltb b first_reserved)) [
  | inl e ↦ ground (arith, e)
  | inr e ↦
      let never : true ≡ false = rw (valid.reserved b (ground (arith, e)) small) at free in
      absurd (cc never)
]

first-le :
    (m : Memory) (res b : ℕ)
    → ((j : ℕ) → 0 ≤ j → j < res → get fs_block_bitmap j m ≡ true)
    → get fs_block_bitmap b m ≡ false
    → res ≤ b
first-le m res b before free = elim (Bool-cases (ltb b res)) [
  | inl e ↦
      let lt : b < res = ground (arith, e) in
      let never : true ≡ false = rw (before b (omega arith) lt) at free in absurd (cc never)
  | inr e ↦ ground (arith, e)
]

-- In a valid image with a free block, `alloc_blk` takes a block: the first free one. It was free and is
-- not block 0, and behind the call both bitmaps have it in use and are as before at every other block,
-- it holds zeros, all other blocks, the inodes and their bitmap are as before, and the image is valid.
pub alloc_blk-IsTaken :
    (m : Memory) (b : ℕ)
    → IsValid m
    → b < positions
    → get fs_block_bitmap b m ≡ false
    → (res : ℕ) × (m' : Memory) × (alloc_blk m ≡ some (res, m')) × (res ≤ b) × IsTaken m res m'
unfolding alloc_blk
alloc_blk-IsTaken m b valid small free =
    found (first_available fs_block_bitmap block_bitmap_size m) refl
      (first_available-IsFirst fs_block_bitmap block_bitmap_size m)
  where
    found :
        (o : Option ℕ)
        → first_available fs_block_bitmap block_bitmap_size m ≡ o
        → IsFirst fs_block_bitmap 0 positions m o
        → (res : ℕ) × (m' : Memory) × (alloc_blk m ≡ some (res, m')) × (res ≤ b) × IsTaken m res m'
    found none e all = let never : true ≡ false = rw (all b (omega arith) small) at free in cc never
    found (some res) e (lo, hi, unused, before) =
        let low : res < first_reserved = free-lt m res valid hi unused in
        let least : res ≤ b = first-le m res b before free in
        (
          res,
          filled m res valid.bytes low,
          rw e (take_blk_lem m res valid.bytes low),
          least,
          filled-IsTaken m res valid.bytes low valid unused,
        )

-- Where the kernel ends behind `BASE_ADDRESS`, no block of the image can be written: the call panics.
pub write_blk_fails :
    (e_kernel blkno : ℕ) (buf : List ℕ) (m : Memory)
    → 0x80000000 ≤ e_kernel
    → blkno < positions
    → write_blk e_kernel blkno buf m ≡ none
unfolding write_blk
write_blk_fails e_kernel blkno buf m above small =
    let test : ltb (blkno * blk_size) e_kernel ≡ true = ground (arith, above, small) in
    elim (Bool-cases (get fs_block_bitmap blkno m)) [
      | inl used ↦ rw (used, test) refl
      | inr free ↦ rw free refl
    ]
