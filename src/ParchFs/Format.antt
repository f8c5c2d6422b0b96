-- ===== src/ParchFs/Format.antt =====
-- The bitmaps that the constructor of `ParchFS` in parchfs/parchfs.cpp sets up before it makes the root
-- directory.
use parch_testbench.Prelude.{
  ℕ, Bool, ◌+◌, ◌-◌, ◌*◌, ◌/◌, ◌%◌, ◌^◌, ◌≤◌, ◌<◌, ◌≡◌, ◌∙◌, refl, ap, true, ◌||◌, ◌&&◌, arith,
  ◌==◌, leb, ltb, false,
}
use parch_testbench.Machine.Blocks.{Memory}
use parch_testbench.ParchFs.{
  set, get, memset, init_superblock, mark_blocks, format_bitmaps, pa2blkno, blk_size,
  block_bitmap_size, inode_bitmap_size, inode_size, inode_count, image_size, superblock,
  fs_block_bitmap, mm_block_bitmap, inode_bitmap, inode_list,
}
use parch_testbench.ParchFs.Bitmap.{IsBytes, set-IsBytes, set_outside, get-set}
use parch_testbench.ParchFs.Blocks.{IsValid, positions, get_cong}
use parch_testbench.ParchFs.Marks.{
  Marks, fs-Marks, mm-Marks, mark-IsBytes, mark_blocks-IsBytes, mark_blocks_lem,
  mark_blocks_outside, init_superblock-IsBytes, init_superblock-IsLower, get_zero,
}
use parch_testbench.ParchFs.Image.{memset-IsBytes}

-- The blocks in use: those up to the end of the kernel, and those from the one before the reserved space on.
abbrev pub in_use : ℕ → ℕ → ℕ → Bool
in_use e_kernel s_reserve q = leb q (pa2blkno e_kernel) || leb (pa2blkno s_reserve) (q + 1)

or_false : (b : Bool) → (b || false) ≡ b
or_false true = refl
or_false false = refl

-- The two ranges that are marked, and the block 0 of the first.
both_ranges :
    (first reserved kernel q : ℕ)
    → first + 1 ≡ reserved
    → first ≤ positions
    → q < positions
    → ((leb first q && ltb q (first + (positions - first)))
        || ((leb 0 q && ltb q (0 + (kernel + 1))) || (q == 0)))
      ≡ (leb q kernel || leb reserved (q + 1))
both_ranges first reserved kernel q e le inside = ground (arith, e, le, inside)

module _ (time : ℕ) (m : Memory) (bytes : IsBytes m) where
  emptied : Memory
  emptied =
      memset
        (memset
          (memset (memset m fs_block_bitmap 0 block_bitmap_size) mm_block_bitmap 0
            block_bitmap_size)
          inode_bitmap 0 inode_bitmap_size)
        inode_list 0 (inode_count * inode_size)

  emptied_lem : (a : ℕ) → inode_list ≤ a → a < superblock → emptied a ≡ 0
  unfolding emptied memset
  emptied_lem a lo hi = ground arith

  emptied-IsBytes : IsBytes emptied
  unfolding emptied
  emptied-IsBytes = memset-IsBytes _ inode_list (inode_count * inode_size) (
      memset-IsBytes _ inode_bitmap inode_bitmap_size (
        memset-IsBytes _ mm_block_bitmap block_bitmap_size
          (memset-IsBytes m fs_block_bitmap block_bitmap_size bytes)))

  -- The superblock is written, and the block 0 and the inode 0 are marked.
  begun : ℕ → Memory
  begun managed =
      set inode_bitmap 0
        (set mm_block_bitmap 0 (set fs_block_bitmap 0 (init_superblock managed time emptied)))

  begun-IsBytes : (managed : ℕ) → IsBytes (begun managed)
  unfolding begun
  begun-IsBytes managed =
      set-IsBytes inode_bitmap 0 _
        (mark-IsBytes 0 _ (init_superblock-IsBytes managed time emptied emptied-IsBytes))

  -- In a bitmap of blocks, the block 0 alone is marked.
  begun_blocks :
      (managed p q : ℕ)
      → Marks p
      → mm_block_bitmap ≤ p
      → p ≤ fs_block_bitmap
      → q < positions
      → get p q (begun managed) ≡ (q == 0)
  unfolding begun
  begun_blocks managed p q marks lo hi inside =
      let m5 : Memory = init_superblock managed time emptied in
      let m6 : Memory = set mm_block_bitmap 0 (set fs_block_bitmap 0 m5) in
      let clear : get p q m5 ≡ false = get_zero p q m5 (
        init_superblock-IsLower managed time emptied (p + q / 8) (omega (arith, hi, inside))
        ∙ emptied_lem (p + q / 8) (omega (arith, lo)) (omega (arith, hi, inside))) in
      get_cong p q m6 (set inode_bitmap 0 m6)
        (set_outside inode_bitmap 0 (p + q / 8) m6 (λ e. omega (arith, e, lo)))
      ∙ (marks 0 q m5 (init_superblock-IsBytes managed time emptied emptied-IsBytes) (omega arith)
            inside
          ∙ (ap (λ b. q == 0 || b) clear ∙ or_false (q == 0)))

  -- In the bitmap of the inodes, the inode 0 alone is marked.
  begun_inodes : (managed i : ℕ) → i < inode_count → get inode_bitmap i (begun managed) ≡ (i == 0)
  unfolding begun
  begun_inodes managed i inside =
      let m5 : Memory = init_superblock managed time emptied in
      let m6 : Memory = set mm_block_bitmap 0 (set fs_block_bitmap 0 m5) in
      let at : ℕ = inode_bitmap + i / 8 in
      let clear : get inode_bitmap i m6 ≡ false = get_zero inode_bitmap i m6 (
        set_outside mm_block_bitmap 0 at (set fs_block_bitmap 0 m5) (omega (arith, inside))
        ∙ (set_outside fs_block_bitmap 0 at m5 (omega (arith, inside))
            ∙ (init_superblock-IsLower managed time emptied at (omega (arith, inside))
                ∙ emptied_lem at (omega arith) (omega (arith, inside))))) in
      get-set inode_bitmap 0 i m6
        (mark-IsBytes 0 m5 (init_superblock-IsBytes managed time emptied emptied-IsBytes))
      ∙ (ap (λ b. i == 0 || b) clear ∙ or_false (i == 0))

  module _ (e_kernel s_reserve : ℕ) (lo : blk_size ≤ s_reserve) (hi : s_reserve ≤ inode_list)
      (kernel_fits : e_kernel < image_size) where
    managed : ℕ
    managed = (s_reserve + 2 ^ 64 - e_kernel) % 2 ^ 64

    first : ℕ
    first = (pa2blkno s_reserve + 2 ^ 32 - 1) % 2 ^ 32

    first_lem : first + 1 ≡ pa2blkno s_reserve
    unfolding first
    first_lem = omega (arith, lo, hi)

    kernel_marked : Memory
    kernel_marked = mark_blocks (pa2blkno e_kernel + 1) 0 (begun managed)

    kernel_marked-IsBytes : IsBytes kernel_marked
    unfolding kernel_marked
    kernel_marked-IsBytes =
        mark_blocks-IsBytes (pa2blkno e_kernel + 1) 0 (begun managed) (begun-IsBytes managed)

    format_blocks :
        (p q : ℕ)
        → Marks p
        → mm_block_bitmap ≤ p
        → p ≤ fs_block_bitmap
        → q < positions
        → get p q (format_bitmaps e_kernel s_reserve time m) ≡ in_use e_kernel s_reserve q
    unfolding format_bitmaps first managed kernel_marked begun emptied
    format_blocks p q marks low high inside =
        mark_blocks_lem p marks (pa2blkno image_size - first) first q kernel_marked
          kernel_marked-IsBytes (omega (arith, first_lem, hi)) inside
        ∙ (ap (λ b. (leb first q && ltb q (first + (pa2blkno image_size - first))) || b)
              (mark_blocks_lem p marks (pa2blkno e_kernel + 1) 0 q (begun managed)
                  (begun-IsBytes managed) (omega (arith, kernel_fits)) inside
                ∙ ap (λ b. (leb 0 q && ltb q (0 + (pa2blkno e_kernel + 1))) || b)
                    (begun_blocks managed p q marks low high inside))
            ∙ both_ranges first (pa2blkno s_reserve) (pa2blkno e_kernel) q first_lem
                (omega (arith, first_lem, hi)) inside)

    format_bitmaps-IsBytes : IsBytes (format_bitmaps e_kernel s_reserve time m)
    unfolding format_bitmaps first managed kernel_marked begun emptied
    format_bitmaps-IsBytes =
        mark_blocks-IsBytes (pa2blkno image_size - first) first kernel_marked kernel_marked-IsBytes

    format_inodes :
        (i : ℕ)
        → i < inode_count
        → get inode_bitmap i (format_bitmaps e_kernel s_reserve time m) ≡ (i == 0)
    unfolding format_bitmaps first managed kernel_marked begun emptied
    format_inodes i inside =
        let at : ℕ = inode_bitmap + i / 8 in
        get_cong inode_bitmap i (begun managed) (format_bitmaps e_kernel s_reserve time m) (
          mark_blocks_outside (pa2blkno image_size - first) first at kernel_marked
            (omega (arith, inside))
          ∙ mark_blocks_outside (pa2blkno e_kernel + 1) 0 at (begun managed)
              (omega (arith, inside)))
        ∙ begun_inodes managed i inside

-- Where the reserved space begins, at the second block or later, no later than the inodes, and the
-- kernel ends within the image: what the constructor has set up before it makes the root directory is
-- a valid image, whatever it found. In both bitmaps of blocks exactly the blocks up to the end of the
-- kernel and those from the one before the reserved space on are in use, and of the inodes the first
-- alone.
pub format_bitmaps-IsValid :
    (e_kernel s_reserve time : ℕ) (m : Memory)
    → IsBytes m
    → blk_size ≤ s_reserve
    → s_reserve ≤ inode_list
    → e_kernel < image_size
    → IsValid (format_bitmaps e_kernel s_reserve time m)
      × ((q : ℕ)
          → q < positions
          → (get fs_block_bitmap q (format_bitmaps e_kernel s_reserve time m)
              ≡ in_use e_kernel s_reserve q)
            × (get mm_block_bitmap q (format_bitmaps e_kernel s_reserve time m)
                ≡ in_use e_kernel s_reserve q))
      × ((i : ℕ)
          → i < inode_count
          → get inode_bitmap i (format_bitmaps e_kernel s_reserve time m) ≡ (i == 0))
format_bitmaps-IsValid e_kernel s_reserve time m bytes lo hi kernel_fits = (
  record {
    bytes = format_bitmaps-IsBytes time m bytes e_kernel s_reserve lo hi kernel_fits;
    bad_block = fs 0 (omega arith) ∙ ground arith;
    reserved = λ b low high. fs b high ∙ ground (arith, low, hi);
  },
  λ q inside. (
    fs q inside,
    format_blocks time m bytes e_kernel s_reserve lo hi kernel_fits mm_block_bitmap q mm-Marks
        (omega arith) (omega arith) inside,
  ),
  format_inodes time m bytes e_kernel s_reserve lo hi kernel_fits,
)
  where
    fs :
        (q : ℕ)
        → q < positions
        → get fs_block_bitmap q (format_bitmaps e_kernel s_reserve time m)
          ≡ in_use e_kernel s_reserve q
    fs q inside =
        format_blocks time m bytes e_kernel s_reserve lo hi kernel_fits fs_block_bitmap q fs-Marks
          (omega arith) (omega arith) inside
