-- ===== src/Samples/Images.antt =====
-- The theorems on the image builder, at an image of which the first block and the last ones are used.
use parch_testbench.Prelude.{
  ℕ, ◌+◌, ◌/◌, ◌%◌, ◌≤◌, ◌<◌, ◌≡◌, refl, true, false, some, ◌∙◌, [], ◌∷◌, ◌||◌, arith, leb, ◌==◌,
  if◌then◌else◌,
}
use parch_testbench.Machine.Blocks.{Memory}
use parch_testbench.ParchFs.{
  get_bit, get, clear, alloc_blk, format_bitmaps, fs_block_bitmap, mm_block_bitmap, inode_bitmap,
  inode_count,
}
use parch_testbench.ParchFs.Allocations.{Allocs, IsFair, Allocs-IsFair}
use parch_testbench.ParchFs.Bitmap.{IsBytes, get-clear}
use parch_testbench.ParchFs.Bits.{every, every_lem}
use parch_testbench.ParchFs.Blocks.{IsValid, IsTaken, first_reserved, positions, alloc_blk-IsTaken}
use parch_testbench.ParchFs.Format.{in_use, format_bitmaps-IsValid}

abbrev image : Memory
image a = if a == fs_block_bitmap then 1 else if leb (fs_block_bitmap + 65467) a then 255 else 0

image-IsBytes : IsBytes image
image-IsBytes a = ground arith

full_byte : (j : ℕ) → j < 8 → get_bit 255 j ≡ true
unfolding every get_bit
full_byte j small = every_lem 8 (get_bit 255) j refl small

last_used : (b : ℕ) → first_reserved ≤ b → b < positions → get fs_block_bitmap b image ≡ true
unfolding get
last_used b low high =
    let full : image (fs_block_bitmap + b / 8) ≡ 255 = ground (arith, low) in
    rw full (full_byte (b % 8) (omega arith))

image-IsValid : IsValid image
unfolding get get_bit
image-IsValid = record { bytes = image-IsBytes; bad_block = refl; reserved = last_used }

alloc_blk-IsTaken_example :
    (res : ℕ) × (m' : Memory) × (alloc_blk image ≡ some (res, m'))
    × (res ≤ 7)
    × IsTaken image res m'
unfolding get get_bit
alloc_blk-IsTaken_example = alloc_blk-IsTaken image 7 image-IsValid (omega arith) refl

format_bitmaps-IsValid_example :
    IsValid (format_bitmaps 0x2800 0x70000000 5 image)
    × ((q : ℕ)
        → q < positions
        → (get fs_block_bitmap q (format_bitmaps 0x2800 0x70000000 5 image)
            ≡ in_use 0x2800 0x70000000 q)
          × (get mm_block_bitmap q (format_bitmaps 0x2800 0x70000000 5 image)
              ≡ in_use 0x2800 0x70000000 q))
    × ((i : ℕ)
        → i < inode_count
        → get inode_bitmap i (format_bitmaps 0x2800 0x70000000 5 image) ≡ (i == 0))
format_bitmaps-IsValid_example =
    format_bitmaps-IsValid 0x2800 0x70000000 5 image image-IsBytes (omega arith) (omega arith)
      (omega arith)

get-clear_example :
    get fs_block_bitmap 9 (clear fs_block_bitmap 9 image) ≡ (9 == 9 || get fs_block_bitmap 9 image)
get-clear_example = get-clear fs_block_bitmap 9 9 image image-IsBytes

first_call :
    (res : ℕ) × (m' : Memory) × (alloc_blk image ≡ some (res, m'))
    × (res ≤ 7)
    × IsTaken image res m'
unfolding get get_bit
first_call = alloc_blk-IsTaken image 7 image-IsValid (omega arith) refl

second_call :
    (res : ℕ) × (m' : Memory) × (alloc_blk first_call.1 ≡ some (res, m'))
    × (res ≤ 9)
    × IsTaken first_call.1 res m'
unfolding get get_bit
second_call =
    let (res, m', done, low, taken) = first_call in
    alloc_blk-IsTaken m' 9 taken.valid (omega arith) (
      let other : (9 == res) ≡ false = ground (arith, low) in
      taken.in_fs 9 (omega arith) ∙ rw other refl)

Allocs-IsFair_example : IsFair image (second_call.0 ∷ first_call.0 ∷ []) second_call.1
Allocs-IsFair_example =
    Allocs-IsFair image second_call.1 (second_call.0 ∷ first_call.0 ∷ []) image-IsValid
      (Allocs.takes (Allocs.takes Allocs.begun first_call.2) second_call.2)
