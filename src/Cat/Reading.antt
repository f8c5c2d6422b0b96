-- ===== src/Cat/Reading.antt =====
-- The reading loop of parch_utils/cat/src/main.rs.
use parch_testbench.Prelude.{
  ℕ, zero, suc, ◌-◌, ◌≤◌, ◌<◌, ◌≡◌, ◌≢◌, ◌∙◌, refl, sym, ap, ◌⊎◌, inl, inr, true, false, some, none,
  List, [], ◌∷◌, ◌++◌, append-nil, append_assoc, length, length-append, take-append, replicate,
  arith, leb, ◌==◌,
}
use parch_testbench.SyscallNum.{syscall_read}
use parch_testbench.Types.{FileDecstiptor}
use parch_testbench.Machine.{Platform, Registers, back, Machine, value, with_local, load_bytes}
use parch_testbench.Machine.Blocks.{Memory, store}
use parch_testbench.Machine.Buffers.{zeroed-store}
use parch_testbench.Syscall.{do_syscall, read}
use parch_testbench.Cat.{done, read_chunk, read_all}

abbrev pub read_call : FileDecstiptor → ℕ → Registers
read_call fd p = record {
  a0 = fd.inner;
  a1 = p;
  a2 = 128;
  a3 = 0;
  a4 = 0;
  a5 = 0;
  a7 = syscall_read;
}

-- A kernel that reads a file from the descriptor in pieces of at most 128 bytes, and 0 bytes at its
-- end; what `view` sees of the kernel stays.
pub record Reads (P : Platform) (fd : FileDecstiptor) {V : Type 0} (view : P.Kernel → V)
    : Type 0 where
  -- the bytes of the file that have not been read
  pub left : P.Kernel → List ℕ
  pub gives :
      (p : ℕ) (m : Memory) (k : P.Kernel)
      → left k ≢ []
      → (piece : List ℕ) × (rest : List ℕ) × (k' : P.Kernel) × (left k ≡ piece ++ rest)
        × (0 < length piece)
        × (length piece ≤ 128)
        × (P.ecall (read_call fd p) m k ≡ back (length piece) 0 (store m p piece) k')
        × (left k' ≡ rest)
        × (view k' ≡ view k)
  pub ends :
      (p : ℕ) (m : Memory) (k : P.Kernel)
      → left k ≡ []
      → (k' : P.Kernel) × (P.ecall (read_call fd p) m k ≡ back 0 0 m k')
        × (left k' ≡ [])
        × (view k' ≡ view k)

nil_cases : (l : List ℕ) → (l ≡ []) ⊎ (l ≢ [])
nil_cases [] = inl refl
nil_cases (x ∷ l) = inr (λ e. cc)

module _ {P : Platform} {V : Type 0} {view : P.Kernel → V} (fd : FileDecstiptor)
    (file : Reads P fd view) where
  open file use {left, gives, ends}

  read_chunk_lem :
      (s : Machine P)
      → left s.kernel ≢ []
      → (piece : List ℕ) × (rest : List ℕ) × (s' : Machine P) × (read_chunk fd s
          ≡ value (some piece) s')
        × (left s.kernel ≡ piece ++ rest)
        × (0 < length piece)
        × (left s'.kernel ≡ rest)
        × (view s'.kernel ≡ view s.kernel)
  unfolding read_chunk with_local read do_syscall load_bytes
  read_chunk_lem s more =
      let p : ℕ = P.frame 128 in
      let m1 : Memory = store s.mem p (replicate 128 0) in
      let (piece, rest, k', parts, some_read, fits, call, rest_left, kept) =
        gives p m1 s.kernel more in
      let test : (length piece == 0) ≡ false = ground (arith, some_read) in
      let room : leb (length piece) 128 ≡ true = ground (arith, fits) in
      (
        piece,
        rest,
        record s { mem = store m1 p piece; kernel = k' },
        rw
            (
              call,
              zeroed-store s.mem p 128 piece fits,
              test,
              room,
              take-append piece (replicate (128 - length piece) 0),
            )
            refl,
        parts,
        some_read,
        rest_left,
        kept,
      )

  read_chunk_end :
      (s : Machine P)
      → left s.kernel ≡ []
      → (s' : Machine P) × (read_chunk fd s ≡ value none s')
        × (left s'.kernel ≡ [])
        × (view s'.kernel ≡ view s.kernel)
  unfolding read_chunk with_local read do_syscall load_bytes
  read_chunk_end s end =
      let p : ℕ = P.frame 128 in
      let m1 : Memory = store s.mem p (replicate 128 0) in
      let (k', call, none_left, kept) = ends p m1 s.kernel end in
      (record s { mem = m1; kernel = k' }, rw call refl, none_left, kept)

  -- With more fuel than there are bytes left to read, the loop returns what it had followed by all of
  -- them, however the kernel cuts them into pieces, and leaves none; what `view` sees of the kernel
  -- stays.
  pub read_all_lem :
      (fuel : ℕ) (res : List ℕ) (s : Machine P)
      → length (left s.kernel) < fuel
      → (s' : Machine P) × (read_all fuel fd res s ≡ value (done (res ++ left s.kernel)) s')
        × (left s'.kernel ≡ [])
        × (view s'.kernel ≡ view s.kernel)
  unfolding read_all
  read_all_lem zero res s enough = elim enough [ ]
  read_all_lem (suc fuel) res s enough = elim (nil_cases (left s.kernel)) [
    | inl end ↦
        let (s1, run, none_left, kept) = read_chunk_end s end in
        (s1, rw run (ap (λ l. value (done l) s1) (sym (rw end (append-nil res)))), none_left, kept)
    | inr more ↦
        let (piece, rest, s1, run, parts, some_read, rest_left, kept) = read_chunk_lem s more in
        let fewer : length (left s1.kernel) < fuel =
          rw rest_left
            (omega (arith, enough, ap length parts, some_read, length-append piece rest)) in
        let (s2, again, none_left, kept_again) = read_all_lem fuel (res ++ piece) s1 fewer in
        let whole : (res ++ piece) ++ left s1.kernel ≡ res ++ left s.kernel =
          rw (parts, rest_left) (append_assoc res piece rest) in
        (s2, rw run (again ∙ ap (λ l. value (done l) s2) whole), none_left, kept_again ∙ kept)
  ]
