-- ===== src/ParchFs/Allocations.antt =====
-- Any number of calls of `alloc_blk` of parchfs/parchfs.cpp, with other work on the image between them.
use parch_testbench.Prelude.{
  ℕ, ◌<◌, ◌≡◌, ◌∙◌, refl, ap, true, false, Bool-cases, inl, inr, Lacks, All-map, Option, none, some,
  List, [], ◌∷◌, ◌||◌, All, ◌==◌, ==_refl,
}
use parch_testbench.Machine.Blocks.{Memory}
use parch_testbench.ParchFs.{get, first_available, alloc_blk, block_bitmap_size, fs_block_bitmap}
use parch_testbench.ParchFs.Bitmap.{IsFirst, first_available-IsFirst}
use parch_testbench.ParchFs.Blocks.{
  IsValid, IsTaken, positions, first_reserved, or_true, free-lt, filled, take_blk_lem,
  filled-IsTaken,
}

-- What `some` of a pair determines.
some_pair :
    (x y : ℕ × Memory) → ◌≡◌ {A = Option (ℕ × Memory)} (some x) (some y) → (x.0 ≡ y.0) × (x.1 ≡ y.1)
some_pair x y e = let same : x ≡ y = cc e in (ap (λ z. z.0) same, ap (λ z. z.1) same)

-- What `alloc_blk` returned, it has taken.
alloc_blk-some :
    (m m' : Memory) (res : ℕ)
    → IsValid m
    → alloc_blk m ≡ some (res, m')
    → (res < positions) × IsTaken m res m'
unfolding alloc_blk
alloc_blk-some m m' res valid done =
    found (first_available fs_block_bitmap block_bitmap_size m) refl
      (first_available-IsFirst fs_block_bitmap block_bitmap_size m)
  where
    found :
        (o : Option ℕ)
        → first_available fs_block_bitmap block_bitmap_size m ≡ o
        → IsFirst fs_block_bitmap 0 positions m o
        → (res < positions) × IsTaken m res m'
    found none e all = let never : none ≡ some (res, m') = rw e at done in absurd (cc never)
    found (some b) e (lo, hi, unused, before) =
        let low : b < first_reserved = free-lt m b valid hi unused in
        let m2 : Memory = filled m b valid.bytes low in
        let ran : ◌≡◌ {A = Option (ℕ × Memory)} (some (b, m2)) (some (res, m')) =
          rw (e, take_blk_lem m b valid.bytes low) at done in
        let (same, image) = some_pair (b, m2) (res, m') ran in
        (rw (← same) hi, rw (← same, ← image) (filled-IsTaken m b valid.bytes low valid unused))

-- From one image to another, by calls that returned the blocks, the last first, and by other work that
-- leaves the bitmap and a valid image.
pub data Allocs (m : Memory) : List ℕ → Memory → Type 0 where
  begun : Allocs m [] m
  takes :
      {m1 m2 : Memory} {blks : List ℕ} {res : ℕ}
      → Allocs m blks m1
      → alloc_blk m1 ≡ some (res, m2)
      → Allocs m (res ∷ blks) m2
  works :
      {m1 m2 : Memory} {blks : List ℕ}
      → Allocs m blks m1
      → IsValid m2
      → ((q : ℕ) → get fs_block_bitmap q m2 ≡ get fs_block_bitmap q m1)
      → Allocs m blks m2

abbrev pub Distinct : List ℕ → Type 0
Distinct [] = Unit
Distinct (b ∷ blks) = Lacks b blks × Distinct blks

-- A block that was free in the one image and is in use in the other.
abbrev pub IsHanded : Memory → Memory → ℕ → Type 0
IsHanded m m' b =
    (b < positions) × (get fs_block_bitmap b m ≡ false) × (get fs_block_bitmap b m' ≡ true)

pub record IsFair (m : Memory) (blks : List ℕ) (m' : Memory) : Type 0 where
  pub valid : IsValid m'
  pub distinct : Distinct blks
  pub handed : All (IsHanded m m') blks
  pub grows :
      (q : ℕ) → q < positions → get fs_block_bitmap q m ≡ true → get fs_block_bitmap q m' ≡ true

-- Of a valid image no block is handed out twice: the blocks that any number of calls of `alloc_blk`
-- return are distinct, and each was free at the begin and is in use at the end, where the image is
-- valid and all blocks that were in use still are.
pub Allocs-IsFair :
    (m m' : Memory) (blks : List ℕ) → IsValid m → Allocs m blks m' → IsFair m blks m'
Allocs-IsFair m _ _ valid begun = record {
  valid = valid;
  distinct = tt;
  handed = tt;
  grows = λ q small used. used;
}
Allocs-IsFair m m' _ valid (takes {m1 = m1} {blks = blks} {res = res} before done) =
    let fair : IsFair m blks m1 = Allocs-IsFair m m1 blks valid before in
    let (small, taken) = alloc_blk-some m1 m' res fair.valid done in
    let stays : (q : ℕ)
        → q < positions
        → get fs_block_bitmap q m1 ≡ true
        → get fs_block_bitmap q m' ≡ true =
      λ q low used. taken.in_fs q low ∙ (ap (λ b. q == res || b) used ∙ or_true (q == res)) in
    record {
      valid = taken.valid;
      distinct = (
        All-map
            (λ b (low, free, used) e.
              let never : false ≡ true = rw (e, taken.was_free) at used in cc never)
            blks fair.handed,
        fair.distinct,
      );
      handed = (
        (
          small,
          elim (Bool-cases (get fs_block_bitmap res m)) [
            | inl used ↦
                let never : true ≡ false = rw (fair.grows res small used) at taken.was_free in
                absurd (cc never)
            | inr free ↦ free
          ],
          taken.in_fs res small ∙ rw (==_refl res) refl,
        ),
        All-map (λ b (low, free, used). (low, free, stays b low used)) blks fair.handed,
      );
      grows = λ q low used. stays q low (fair.grows q low used);
    }
Allocs-IsFair m m' blks valid (works {m1 = m1} before valid' same) =
    let fair : IsFair m blks m1 = Allocs-IsFair m m1 blks valid before in
    record {
      valid = valid';
      distinct = fair.distinct;
      handed = All-map (λ b (low, free, used). (low, free, same b ∙ used)) blks fair.handed;
      grows = λ q low used. same q ∙ fair.grows q low used;
    }
