-- ===== src/Start/Arguments.antt =====
-- `_start` of usrlib_rust/src/lib.rs at arguments that stand in memory as `exec` of
-- usrlib_rust/src/syscall.rs lays them out.
use parch_testbench.Prelude.{
  ℕ, zero, suc, ◌+◌, ◌-◌, ◌*◌, ◌≤◌, ◌<◌, ◌≡◌, ◌∙◌, refl, ap, true, false, some, List, [], ◌∷◌, ◌++◌,
  append_assoc, Lacks, All, cons_parts, Bool-cases, inl, inr, length, length-append, set, replicate,
  arith, ltb, ◌==◌,
}
use parch_testbench.Machine.{
  Platform, Machine, M, value, panicked, out_of_bounds, ◌>>=◌, load_word, load_bytes,
}
use parch_testbench.Machine.Blocks.{
  Memory, load, le_bytes, of_le_bytes-le_bytes, length-le_bytes, load-append,
}
use parch_testbench.Syscall.Process.{words_bytes}
use parch_testbench.Syscall.Argv.{CString, Strings, Argv}
use parch_testbench.Allocator.{heap_size, init_heap}
use parch_testbench.Syscall.Process.{exit}
use parch_testbench.Start.{scan, strlen, argument, fill, start, argv_slots, unused}

pub scan_text :
    (fuel p : ℕ) (m : Memory) (a : List ℕ)
    → length a < fuel
    → Lacks 0 a
    → load m p (length (a ++ 0 ∷ [])) ≡ a ++ 0 ∷ []
    → scan fuel m p ≡ some (length a)
unfolding scan load
scan_text zero p m a lt h e = elim lt [ ]
scan_text (suc fuel) p m [] lt h e =
    let here : m p ≡ 0 = (cons_parts (m p) 0 [] [] e).0 in rw here refl
scan_text (suc fuel) p m (x ∷ a) lt h e =
    let (here, there) =
      cons_parts (m p) x (load m (p + 1) (length (a ++ 0 ∷ []))) (a ++ 0 ∷ []) e in
    let test : (x == 0) ≡ false = ground (arith, h.0) in
    rw (here, test, scan_text fuel (p + 1) m a (omega arith) h.1 there) refl

-- What the slots hold once the arguments are put in from slot `i` on.
put_all : ℕ → List (List ℕ) → List (List ℕ) → List (List ℕ)
put_all i [] slots = slots
put_all i (a ∷ argv) slots = put_all (i + 1) argv (set slots i a)

set_at_end :
    (done rest : List (List ℕ)) (u a : List ℕ)
    → set (done ++ u ∷ rest) (length done) a ≡ done ++ a ∷ rest
set_at_end [] rest u a = refl
set_at_end (x ∷ done) rest u a = ap (λ l. x ∷ l) (set_at_end done rest u a)

put_all_lem :
    (done argv : List (List ℕ)) (n : ℕ) (u : List ℕ)
    → length argv ≤ n
    → put_all (length done) argv (done ++ replicate n u)
      ≡ done ++ (argv ++ replicate (n - length argv) u)
unfolding put_all
put_all_lem done [] n u h = let all_left : n - 0 ≡ n = omega arith in rw all_left refl
put_all_lem done (a ∷ argv) zero u h = elim h [ ]
put_all_lem done (a ∷ argv) (suc n) u h =
    let next : length done + 1 ≡ length (done ++ a ∷ []) =
      omega (arith, length-append {0} done (a ∷ [])) in
    let left : suc n - length (a ∷ argv) ≡ n - length argv = omega arith in
    rw
      (
        set_at_end done (replicate n u) u a,
        next,
        left,
        ← append_assoc done (a ∷ []) (replicate n u),
      )
      (put_all_lem (done ++ a ∷ []) argv n u (omega arith) ∙ append_assoc done (a ∷ []) _)

module _ {P : Platform} (fuel q : ℕ) (s : Machine P) where
  -- The array of addresses from slot `i` on.
  abbrev Array : ℕ → List ℕ → Type 0
  Array i ps =
      load s.mem (q + 8 * i) (length (words_bytes (ps ++ 0 ∷ []))) ≡ words_bytes (ps ++ 0 ∷ [])

  Array-parts :
      (i p : ℕ) (ps : List ℕ)
      → Array i (p ∷ ps)
      → (load s.mem (q + 8 * i) 8 ≡ le_bytes 8 p) × Array (i + 1) ps
  unfolding words_bytes
  Array-parts i p ps h =
      let (first, rest) =
        load-append s.mem (q + 8 * i) (le_bytes 8 p) (words_bytes (ps ++ 0 ∷ [])) h in
      let eight : length (le_bytes 8 p) ≡ 8 = length-le_bytes 8 p in
      let next : q + 8 * i + 8 ≡ q + 8 * (i + 1) = omega arith in
      (rw eight at first, rw next at (rw eight at rest))

  argument_lem :
      (i p : ℕ) (a : List ℕ)
      → load s.mem (q + 8 * i) 8 ≡ le_bytes 8 p
      → CString s.mem p a
      → length a < fuel
      → argument fuel q i s ≡ value a s
  unfolding argument load_word strlen load_bytes
  argument_lem i p a word string lt =
      rw
        (
          word,
          of_le_bytes-le_bytes 8 p string.address,
          scan_text fuel p s.mem a lt string.no_nul string.text,
          (load-append s.mem p a (0 ∷ []) string.text).0,
        )
        refl

  fill_lem :
      (i : ℕ) (ps : List ℕ) (argv slots : List (List ℕ))
      → i + length argv ≤ argv_slots
      → Array i ps
      → Strings s.mem ps argv
      → All (λ a. length a < fuel) argv
      → fill fuel q (length argv) i slots s ≡ value (put_all i argv slots) s
  unfolding fill put_all
  fill_lem i [] [] slots room array strings short = refl
  fill_lem i [] (a ∷ argv) slots room array strings short = absurd strings
  fill_lem i (p ∷ ps) [] slots room array strings short = absurd strings
  fill_lem i (p ∷ ps) (a ∷ argv) slots room array strings short =
      let (word, rest) = Array-parts i p ps array in
      let test : ltb i argv_slots ≡ true = ground (arith, room) in
      rw (argument_lem i p a word strings.0 short.0, test)
        (fill_lem (i + 1) ps argv (set slots i a) (omega (arith, room)) rest strings.1 short.1)

  -- From memory with the arguments laid out at `q`, at most 16 of them and each shorter than the fuel,
  -- `_start` runs `main` with their count and the arguments in the first slots, the other slots unused,
  -- on the initialised heap, and exits with its result.
  pub start-Argv :
      (main : ℕ → List (List ℕ) → M P ℕ) (argv : List (List ℕ))
      → Argv s.mem q argv
      → length argv ≤ argv_slots
      → All (λ a. length a < fuel) argv
      → start fuel main (length argv) q s
        ≡ (main (length argv) (argv ++ replicate (argv_slots - length argv) unused) >>= exit)
            (record s { heap = P.init P.heap_space heap_size s.heap })
  unfolding start init_heap
  start-Argv main argv there room short = rw (all_filled argv there room short) refl
    where
      all_filled :
          (argv : List (List ℕ))
          → Argv s.mem q argv
          → length argv ≤ argv_slots
          → All (λ a. length a < fuel) argv
          → fill fuel q (length argv) 0 (replicate argv_slots unused) s
            ≡ value (argv ++ replicate (argv_slots - length argv) unused) s
      all_filled argv there room short =
          let base : q ≡ q + 8 * 0 = omega arith in
          fill_lem 0 there.addresses argv (replicate argv_slots unused) (omega (arith, room))
            (rw base at there.array) there.strings_there short
          ∙ ap (λ l. value l s) (put_all_lem [] argv argv_slots unused room)

  fill_overflow :
      (i : ℕ) (ps : List ℕ) (argv slots : List (List ℕ))
      → i ≤ argv_slots
      → argv_slots < i + length argv
      → Array i ps
      → Strings s.mem ps argv
      → All (λ a. length a < fuel) argv
      → fill fuel q (length argv) i slots s ≡ panicked out_of_bounds s
  unfolding fill
  fill_overflow i [] [] slots low many array strings short = absurd (omega (arith, low, many))
  fill_overflow i [] (a ∷ argv) slots low many array strings short = absurd strings
  fill_overflow i (p ∷ ps) [] slots low many array strings short = absurd strings
  fill_overflow i (p ∷ ps) (a ∷ argv) slots low many array strings short =
      let (word, rest) = Array-parts i p ps array in
      elim (Bool-cases (ltb i argv_slots)) [
        | inl room ↦
            rw (argument_lem i p a word strings.0 short.0, room)
              (fill_overflow (i + 1) ps argv (set slots i a) (ground (arith, room))
                (omega (arith, many)) rest strings.1 short.1)
        | inr full ↦ rw (argument_lem i p a word strings.0 short.0, full) refl
      ]

  -- From memory with more than 16 arguments laid out at `q`, each shorter than the fuel, `_start`
  -- panics with an index out of bounds, on the machine as it was: neither the heap is initialised
  -- nor `main` runs.
  pub start_overflow :
      (main : ℕ → List (List ℕ) → M P ℕ) (argv : List (List ℕ))
      → Argv s.mem q argv
      → argv_slots < length argv
      → All (λ a. length a < fuel) argv
      → start fuel main (length argv) q s ≡ panicked out_of_bounds s
  unfolding start
  start_overflow main argv there many short =
      let base : q ≡ q + 8 * 0 = omega arith in
      rw
        (fill_overflow 0 there.addresses argv (replicate argv_slots unused) (omega arith)
          (omega (arith, many)) (rw base at there.array) there.strings_there short)
        refl
