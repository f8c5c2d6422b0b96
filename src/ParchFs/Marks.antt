-- ===== src/ParchFs/Marks.antt =====
-- Marking blocks in the bitmaps, and the superblock that the constructor of `ParchFS` in
-- parchfs/parchfs.cpp writes.
use parch_testbench.Prelude.{
  ℕ, Bool, sym, zero, suc, ◌+◌, ◌*◌, ◌/◌, ◌%◌, ◌≤◌, ◌<◌, ◌≡◌, ◌∙◌, refl, ap, true, inl, ◌||◌, ◌&&◌,
  not, arith, ◌==◌, leb, ltb, false,
}
use parch_testbench.Machine.Blocks.{Memory, store, le_bytes, store_outside}
use parch_testbench.ParchFs.{
  set, get, memset, init_superblock, mark_blocks, blk_size, inode_count, root_inode, superblock,
  fs_block_bitmap, mm_block_bitmap, free_inode, free_block, get_bit,
}
use parch_testbench.ParchFs.Bitmap.{IsBytes, set-IsBytes, set_outside, get-set}
use parch_testbench.ParchFs.Bits.{every, every_lem}
use parch_testbench.ParchFs.Blocks.{positions, get_cong}
use parch_testbench.ParchFs.Image.{le_bytes-All, store-IsBytes, memset-IsBytes, memset_outside}

pub init_superblock-IsBytes :
    (managed time : ℕ) (m : Memory) → IsBytes m → IsBytes (init_superblock managed time m)
unfolding init_superblock
init_superblock-IsBytes managed time m h = memset-IsBytes _ (superblock + 308) 3788 (
    word 4 304 root_inode _ (
      word 8 296 time _ (
        word 8 free_block (managed / blk_size) _ (
          word 8 free_inode inode_count _ (
            word 8 272 (managed / blk_size) _ (
              word 8 264 inode_count _ (
                word 8 256 0 _ (
                  memset-IsBytes _ (superblock + 8) (31 * 8) (
                    store-IsBytes m superblock (le_bytes 8 0xbeefbeefbeefbeef) h
                      (le_bytes-All 8 0xbeefbeefbeefbeef))))))))))
  where
    word :
        (n at w : ℕ) (m : Memory) → IsBytes m → IsBytes (store m (superblock + at) (le_bytes n w))
    word n at w m h = store-IsBytes m (superblock + at) (le_bytes n w) h (le_bytes-All n w)

-- What marking a block in both bitmaps does to the bitmap at an address.
abbrev pub Marks : ℕ → Type 0
Marks p =
    (blk q : ℕ) (m : Memory)
    → IsBytes m
    → blk < positions
    → q < positions
    → get p q (set mm_block_bitmap blk (set fs_block_bitmap blk m)) ≡ (q == blk || get p q m)

pub fs-Marks : Marks fs_block_bitmap
fs-Marks blk q m bytes small inside =
    let m1 : Memory = set fs_block_bitmap blk m in
    get_cong fs_block_bitmap q m1 (set mm_block_bitmap blk m1)
      (set_outside mm_block_bitmap blk (fs_block_bitmap + q / 8) m1 (omega arith))
    ∙ get-set fs_block_bitmap blk q m bytes

pub mm-Marks : Marks mm_block_bitmap
mm-Marks blk q m bytes small inside =
    let m1 : Memory = set fs_block_bitmap blk m in
    get-set mm_block_bitmap blk q m1 (set-IsBytes fs_block_bitmap blk m bytes)
    ∙ ap (λ b. q == blk || b)
        (get_cong mm_block_bitmap q m m1
          (set_outside fs_block_bitmap blk (mm_block_bitmap + q / 8) m (omega arith)))

pub mark-IsBytes :
    (blk : ℕ) (m : Memory)
    → IsBytes m
    → IsBytes (set mm_block_bitmap blk (set fs_block_bitmap blk m))
mark-IsBytes blk m h =
    set-IsBytes mm_block_bitmap blk (set fs_block_bitmap blk m)
      (set-IsBytes fs_block_bitmap blk m h)

pub mark_blocks-IsBytes : (left i : ℕ) (m : Memory) → IsBytes m → IsBytes (mark_blocks left i m)
unfolding mark_blocks
mark_blocks-IsBytes zero i m h = h
mark_blocks-IsBytes (suc left) i m h = mark_blocks-IsBytes left (i + 1) _ (mark-IsBytes i m h)

-- A position that comes after the first of a range or is in the rest of it is in the range.
range_step :
    (i left q : ℕ) (b : Bool)
    → ((leb (i + 1) q && ltb q (i + 1 + left)) || (q == i || b))
      ≡ ((leb i q && ltb q (i + suc left)) || b)
range_step i left q b = ground arith

-- The blocks of the range are in use, the others are as before.
pub mark_blocks_lem :
    (p : ℕ) (marks : Marks p) (left i q : ℕ) (m : Memory)
    → IsBytes m
    → i + left ≤ positions
    → q < positions
    → get p q (mark_blocks left i m) ≡ ((leb i q && ltb q (i + left)) || get p q m)
unfolding mark_blocks
mark_blocks_lem p marks zero i q m h small inside = ground arith
mark_blocks_lem p marks (suc left) i q m h small inside =
    mark_blocks_lem p marks left (i + 1) q _ (mark-IsBytes i m h) (omega arith) inside
    ∙ (ap (λ b. (leb (i + 1) q && ltb q (i + 1 + left)) || b) (marks i q m h (omega arith) inside)
        ∙ range_step i left q (get p q m))

-- The marks change nothing below the bitmaps of the blocks.
pub mark_blocks_outside :
    (left i a : ℕ) (m : Memory) → a < mm_block_bitmap → mark_blocks left i m a ≡ m a
unfolding mark_blocks
mark_blocks_outside zero i a m low = refl
mark_blocks_outside (suc left) i a m low =
    mark_blocks_outside left (i + 1) a _ low
    ∙ (set_outside mm_block_bitmap i a (set fs_block_bitmap i m) (omega arith)
        ∙ set_outside fs_block_bitmap i a m (omega arith))

-- The image below the superblock is that of another.
abbrev pub IsLower : Memory → Memory → Type 0
IsLower m m1 = (a : ℕ) → a < superblock → m1 a ≡ m a

pub init_superblock-IsLower :
    (managed time : ℕ) (m : Memory) → IsLower m (init_superblock managed time m)
unfolding init_superblock
init_superblock-IsLower managed time m = cleared (superblock + 308) 3788 _ (omega arith) (
    word 4 304 root_inode _ (
      word 8 296 time _ (
        word 8 free_block (managed / blk_size) _ (
          word 8 free_inode inode_count _ (
            word 8 272 (managed / blk_size) _ (
              word 8 264 inode_count _ (
                word 8 256 0 _ (
                  cleared (superblock + 8) (31 * 8) _ (omega arith)
                    (word 8 0 0xbeefbeefbeefbeef m (λ a low. refl))))))))))
  where
    word :
        (n at w : ℕ) (m1 : Memory)
        → IsLower m m1
        → IsLower m (store m1 (superblock + at) (le_bytes n w))
    word n at w m1 h a low =
        store_outside m1 (superblock + at) a (le_bytes n w) (inl (omega (arith, low))) ∙ h a low

    cleared : (p n : ℕ) (m1 : Memory) → superblock ≤ p → IsLower m m1 → IsLower m (memset m1 p 0 n)
    cleared p n m1 lo h a low = memset_outside m1 p 0 n a (inl (omega (arith, low, lo))) ∙ h a low

unset : (b : Bool) → not b ≡ true → b ≡ false
unset true e = sym e
unset false e = refl

-- No position of a byte 0 is set.
pub get_zero : (p q : ℕ) (m : Memory) → m (p + q / 8) ≡ 0 → get p q m ≡ false
unfolding every get get_bit
get_zero p q m e =
    rw e
      (unset (get_bit 0 (q % 8)) (every_lem 8 (λ i. not (get_bit 0 i)) (q % 8) refl (omega arith)))
