-- ===== src/ParchFs.antt =====
-- parchfs/parchfs.cpp and parchfs/parchfs.hpp, the image builder: bits, the bitmaps of inodes and of
-- blocks, and the allocation of both. The mapped file is a memory whose address 0 is `mmap_ptr`; an
-- action that runs into a failed assertion or `panic` has no result.
pub mod Allocations
pub mod Bitmap
pub mod Bits
pub mod Blocks
pub mod Format
pub mod Image
pub mod Marks
use Prim.Native.Nat.{bit_and, bit_or}
use parch_testbench.Prelude.{
  ℕ, zero, suc, ◌+◌, ◌-◌, ◌*◌, ◌/◌, ◌%◌, ◌^◌, Bool, true, false, ◌&&◌, not, Option, none, some,
  List, [], ◌∷◌, leb, ltb, ◌==◌, if◌then◌else◌,
}
use parch_testbench.Machine.Blocks.{Memory, store, load, le_bytes, of_le_bytes}

-- The byte operations, for positions below 8.
unfoldable pub set_bit : ℕ → ℕ → ℕ
set_bit bits pos = bit_or bits (2 ^ pos) % 256

unfoldable pub clear_bit : ℕ → ℕ → ℕ
clear_bit bits pos = bit_and bits (255 - 2 ^ pos)

unfoldable pub set_bit_val : ℕ → Bool → ℕ → ℕ
unfolding set_bit clear_bit
set_bit_val bits val pos = if val then set_bit bits pos else clear_bit bits pos

unfoldable pub get_bit : ℕ → ℕ → Bool
get_bit bits pos = not (bit_and bits (2 ^ pos) == 0)

abbrev pub blk_size : ℕ
blk_size = 4096

-- The sizes of `INodeBitmap` and of `BlockBitmap`, in bytes.
abbrev pub inode_bitmap_size : ℕ
inode_bitmap_size = 4096

abbrev pub block_bitmap_size : ℕ
block_bitmap_size = 65536

-- Where the parts lie in the image, which begins at `BASE_ADDRESS` and ends at `PHYS_END_ADDRESS`.
abbrev pub superblock : ℕ
superblock = 0x7ffff000

abbrev pub fs_block_bitmap : ℕ
fs_block_bitmap = 0x7ffef000

abbrev pub mm_block_bitmap : ℕ
mm_block_bitmap = 0x7ffdf000

abbrev pub inode_bitmap : ℕ
inode_bitmap = 0x7ffde000

abbrev pub inode_list : ℕ
inode_list = 0x7fdde000

-- The sizes of an `INode`, and where `free_inode` and `free_block` lie in the `SuperBlock`.
abbrev pub inode_size : ℕ
inode_size = 256

abbrev pub free_inode : ℕ
free_inode = 280

abbrev pub free_block : ℕ
free_block = 288

abbrev pub inode_count : ℕ
inode_count = 8192

abbrev pub root_inode : ℕ
root_inode = 1

-- `e_reserve - s_kernel`
abbrev pub image_size : ℕ
image_size = 0x80000000

-- `memset(p, b, n)`
unfoldable pub memset : Memory → ℕ → ℕ → ℕ → Memory
memset m p b n a = if leb p a && ltb a (p + n) then b else m a

-- The methods of the bitmap at an address.
unfoldable pub set : ℕ → ℕ → Memory → Memory
unfolding store set_bit
set p pos m = store m (p + pos / 8) (set_bit (m (p + pos / 8)) (pos % 8) ∷ [])

-- It sets the bit.
unfoldable pub clear : ℕ → ℕ → Memory → Memory
unfolding store set_bit
clear p pos m = store m (p + pos / 8) (set_bit (m (p + pos / 8)) (pos % 8) ∷ [])

unfoldable pub set_val : ℕ → ℕ → Bool → Memory → Memory
unfolding store set_bit_val
set_val p pos val m = store m (p + pos / 8) (set_bit_val (m (p + pos / 8)) val (pos % 8) ∷ [])

unfoldable pub get : ℕ → ℕ → Memory → Bool
unfolding get_bit
get p pos m = get_bit (m (p + pos / 8)) (pos % 8)

-- The positions from `i` on, of which `left` are left.
unfoldable pub find_free : ℕ → ℕ → ℕ → Memory → Option ℕ
unfolding get
find_free p zero i m = none
find_free p (suc left) i m =
    let rest = find_free p left (i + 1) m in if get p i m then rest else some i

unfoldable pub first_available : ℕ → ℕ → Memory → Option ℕ
unfolding find_free
first_available p size m = find_free p (size * 8) 0 m

-- `free_block--` and `free_inode--`
abbrev pub decrement : ℕ → Memory → Memory
decrement p m = store m p (le_bytes 8 ((of_le_bytes (load m p 8) + (2 ^ 64 - 1)) % 2 ^ 64))

-- The address of a block that both bitmaps have in use.
unfoldable pub get_blk : ℕ → Memory → Option ℕ
unfolding get
get_blk blk m =
    if get fs_block_bitmap blk m && get mm_block_bitmap blk m then some (blk * blk_size) else none

unfoldable pub get_inode : ℕ → Memory → Option ℕ
unfolding get
get_inode inode m =
    if get inode_bitmap inode m then some (inode_list + inode * inode_size) else none

-- `memset(…, 0, n)` at an address that may fail.
abbrev pub zeroed : ℕ → Option ℕ → ℕ → Memory → Option (ℕ × Memory)
zeroed res none n m = none
zeroed res (some p) n m = some (res, memset m p 0 n)

-- A block that was found free: both bitmaps, the count and the content.
unfoldable pub take_blk : ℕ → Memory → Option (ℕ × Memory)
unfolding set get_blk memset store load le_bytes of_le_bytes
take_blk res m =
    let m' =
      decrement (superblock + free_block) (set mm_block_bitmap res (set fs_block_bitmap res m)) in
    zeroed res (get_blk res m') blk_size m'

abbrev pub taken_blk : Option ℕ → Memory → Option (ℕ × Memory)
taken_blk none m = none
taken_blk (some res) m = take_blk res m

unfoldable pub alloc_blk : Memory → Option (ℕ × Memory)
unfolding first_available take_blk
alloc_blk m = taken_blk (first_available fs_block_bitmap block_bitmap_size m) m

unfoldable pub take_inode : ℕ → Memory → Option (ℕ × Memory)
unfolding set get_inode memset store load le_bytes of_le_bytes
take_inode res m =
    let m' = set inode_bitmap res (decrement (superblock + free_inode) m) in
    zeroed res (get_inode res m') inode_size m'

abbrev pub taken_inode : Option ℕ → Memory → Option (ℕ × Memory)
taken_inode none m = none
taken_inode (some res) m = take_inode res m

unfoldable pub alloc_inode : Memory → Option (ℕ × Memory)
unfolding first_available take_inode
alloc_inode m = taken_inode (first_available inode_bitmap inode_bitmap_size m) m

-- `SuperBlock::init`, at a time.
unfoldable pub init_superblock : ℕ → ℕ → Memory → Memory
unfolding store memset le_bytes
init_superblock managed_length time m =
    let blocks = managed_length / blk_size in
    let m1 = store m superblock (le_bytes 8 0xbeefbeefbeefbeef) in
    let m2 = memset m1 (superblock + 8) 0 (31 * 8) in
    let m3 = store m2 (superblock + 256) (le_bytes 8 0) in
    let m4 = store m3 (superblock + 264) (le_bytes 8 inode_count) in
    let m5 = store m4 (superblock + 272) (le_bytes 8 blocks) in
    let m6 = store m5 (superblock + free_inode) (le_bytes 8 inode_count) in
    let m7 = store m6 (superblock + free_block) (le_bytes 8 blocks) in
    let m8 = store m7 (superblock + 296) (le_bytes 8 time) in
    let m9 = store m8 (superblock + 304) (le_bytes 4 root_inode) in
    memset m9 (superblock + 308) 0 3788

-- The blocks from one on are marked as used, of which `left` are left.
unfoldable pub mark_blocks : ℕ → ℕ → Memory → Memory
unfolding set
mark_blocks zero blk_no m = m
mark_blocks (suc left) blk_no m =
    mark_blocks left (blk_no + 1) (set mm_block_bitmap blk_no (set fs_block_bitmap blk_no m))

-- The number of the block with an address, which counts from `s_kernel`.
abbrev pub pa2blkno : ℕ → ℕ
pa2blkno pa = pa / blk_size

-- The bitmaps, the inodes and the superblock of a new file system. This is the constructor from
-- `clear_all` on, up to the call of `make_dir` for the root directory, which is not a part of it:
-- `e_kernel` and `s_reserve` count from `s_kernel`.
unfoldable pub format_bitmaps : ℕ → ℕ → ℕ → Memory → Memory
unfolding set memset init_superblock mark_blocks
format_bitmaps e_kernel s_reserve time m =
    let m1 = memset m fs_block_bitmap 0 block_bitmap_size in
    let m2 = memset m1 mm_block_bitmap 0 block_bitmap_size in
    let m3 = memset m2 inode_bitmap 0 inode_bitmap_size in
    let m4 = memset m3 inode_list 0 (inode_count * inode_size) in
    let m5 = init_superblock ((s_reserve + 2 ^ 64 - e_kernel) % 2 ^ 64) time m4 in
    let m6 = set inode_bitmap 0 (set mm_block_bitmap 0 (set fs_block_bitmap 0 m5)) in
    let m7 = mark_blocks (pa2blkno e_kernel + 1) 0 m6 in
    let first = (pa2blkno s_reserve + 2 ^ 32 - 1) % 2 ^ 32 in
    mark_blocks (pa2blkno image_size - first) first m7

-- The block is written where it is in use and lies behind the kernel: its distance from the begin of
-- the image is compared with the address at which the kernel ends.
unfoldable pub write_blk : ℕ → ℕ → List ℕ → Memory → Option Memory
unfolding get store
write_blk e_kernel blkno buf m =
    if get fs_block_bitmap blkno m
    then if ltb (blkno * blk_size) e_kernel then none else some (store m (blkno * blk_size) buf)
    else none
