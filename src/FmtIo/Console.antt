-- ===== src/FmtIo/Console.antt =====
-- What usrlib_rust/src/fmt_io.rs relies on: a kernel that serves `read` of one byte on descriptor 0
-- from the typed bytes, and `write` on descriptor 1 by showing the bytes.
use parch_testbench.Prelude.{
  ℕ, ◌≡◌, ◌∙◌, refl, sym, ap, List, [], ◌∷◌, ◌++◌, append-nil, append_assoc, Text, length,
}
use parch_testbench.Utf8.{as_bytes}
use parch_testbench.ErrorNum.{ErrorNum, eeof}
use parch_testbench.SyscallNum.{syscall_read, syscall_write}
use parch_testbench.Machine.{
  Platform, Registers, back, Machine, M, value, error, with_local, load_byte, pure, ◌>>=◌,
}
use parch_testbench.Machine.Blocks.{Memory, store, load, load-store, written_first}
use parch_testbench.Syscall.{do_syscall, read, write}
use parch_testbench.FmtIo.{fmt_ok, write_str, write_fmt, print, getbyte_noecho}

abbrev pub read_byte_call : ℕ → Registers
read_byte_call p = record { a0 = 0; a1 = p; a2 = 1; a3 = 0; a4 = 0; a5 = 0; a7 = syscall_read }

abbrev pub write_call : ℕ → ℕ → Registers
write_call p n = record { a0 = 1; a1 = p; a2 = n; a3 = 0; a4 = 0; a5 = 0; a7 = syscall_write }

pub record Console (P : Platform) : Type 0 where
  -- the typed bytes that have not been read, and the bytes shown so far
  pub pending : P.Kernel → List ℕ
  pub shown : P.Kernel → List ℕ
  -- `read` hands over the next byte, and 0 at the end of the input
  pub reads :
      (p : ℕ) (m : Memory) (k : P.Kernel) (b : ℕ) (rest : List ℕ)
      → pending k ≡ b ∷ rest
      → (k' : P.Kernel) × (P.ecall (read_byte_call p) m k ≡ back 1 0 (store m p (b ∷ [])) k')
        × (pending k' ≡ rest)
        × (shown k' ≡ shown k)
  pub reads_end :
      (p : ℕ) (m : Memory) (k : P.Kernel)
      → pending k ≡ []
      → (k' : P.Kernel) × (P.ecall (read_byte_call p) m k ≡ back 0 0 m k')
        × (pending k' ≡ [])
        × (shown k' ≡ shown k)
  -- `write` shows the bytes of the slice
  pub writes :
      (p n : ℕ) (m : Memory) (k : P.Kernel)
      → (k' : P.Kernel) × (P.ecall (write_call p n) m k ≡ back n 0 m k')
        × (pending k' ≡ pending k)
        × (shown k' ≡ shown k ++ load m p n)

module _ {P : Platform} (c : Console P) where
  open c use {pending, shown, reads, reads_end, writes}

  -- From every state whose input begins with `inp`, the action returns `a`, has read exactly `inp`
  -- and has shown `out`.
  abbrev pub Does : {A : Type 0} → M P A → A → List ℕ → List ℕ → Type 0
  Does m a inp out =
      (s : Machine P) (rest : List ℕ)
      → pending s.kernel ≡ inp ++ rest
      → (s' : Machine P) × (m s ≡ value a s')
        × (pending s'.kernel ≡ rest)
        × (shown s'.kernel ≡ shown s.kernel ++ out)

  -- Where the input is `inp` and ends there, the action fails with `e` and has shown `out`.
  abbrev pub Fails : {A : Type 0} → M P A → ErrorNum → List ℕ → List ℕ → Type 0
  Fails m e inp out =
      (s : Machine P)
      → pending s.kernel ≡ inp
      → (s' : Machine P) × (m s ≡ error e s')
        × (pending s'.kernel ≡ [])
        × (shown s'.kernel ≡ shown s.kernel ++ out)

  pub Does-pure : {A : Type 0} (a : A) → Does (pure a) a [] []
  Does-pure a s rest h = (s, refl, h, sym (append-nil (shown s.kernel)))

  pub Does-cast :
      {A : Type 0} (m : M P A) (a : A) {i i' o o' : List ℕ}
      → i ≡ i'
      → o ≡ o'
      → Does m a i o
      → Does m a i' o'
  Does-cast m a ei eo d s rest h =
      let (s', run, in1, out1) = d s rest (h ∙ ap (λ l. l ++ rest) (sym ei)) in
      (s', run, in1, out1 ∙ ap (λ l. shown s.kernel ++ l) eo)

  pub Fails-cast :
      {A : Type 0} (m : M P A) (e : ErrorNum) {i i' o o' : List ℕ}
      → i ≡ i'
      → o ≡ o'
      → Fails m e i o
      → Fails m e i' o'
  Fails-cast m e ei eo d s h =
      let (s', run, in1, out1) = d s (h ∙ sym ei) in
      (s', run, in1, out1 ∙ ap (λ l. shown s.kernel ++ l) eo)

  pub Does-bind :
      {A B : Type 0} (m : M P A) (f : A → M P B) (a : A) (b : B) (i j o q : List ℕ)
      → Does m a i o
      → Does (f a) b j q
      → Does (m >>= f) b (i ++ j) (o ++ q)
  Does-bind m f a b i j o q hm hf s rest h =
      let (s1, run1, in1, out1) = hm s (j ++ rest) (h ∙ append_assoc i j rest) in
      let (s2, run2, in2, out2) = hf s1 rest in1 in
      (s2, rw run1 run2, in2, out2 ∙ ap (λ l. l ++ q) out1 ∙ append_assoc (shown s.kernel) o q)

  pub Fails-bind :
      {A B : Type 0} (m : M P A) (f : A → M P B) (a : A) (e : ErrorNum) (i j o q : List ℕ)
      → Does m a i o
      → Fails (f a) e j q
      → Fails (m >>= f) e (i ++ j) (o ++ q)
  Fails-bind m f a e i j o q hm hf s h =
      let (s1, run1, in1, out1) = hm s j h in
      let (s2, run2, in2, out2) = hf s1 in1 in
      (s2, rw run1 run2, in2, out2 ∙ ap (λ l. l ++ q) out1 ∙ append_assoc (shown s.kernel) o q)

  pub Fails-bind_first :
      {A B : Type 0} (m : M P A) (f : A → M P B) (e : ErrorNum) (i o : List ℕ)
      → Fails m e i o
      → Fails (m >>= f) e i o
  Fails-bind_first m f e i o hm s h =
      let (s1, run1, in1, out1) = hm s h in (s1, rw run1 refl, in1, out1)

  -- A byte is read from the front of the input.
  pub getbyte_lem : (b : ℕ) → Does getbyte_noecho b (b ∷ []) []
  unfolding getbyte_noecho with_local read do_syscall load_byte
  getbyte_lem b s rest h =
      let p : ℕ = P.frame 1 in
      let m : Memory = store s.mem p (0 ∷ []) in
      let (k', call, in1, out1) = reads p m s.kernel b rest h in
      (
        record s { mem = store m p (b ∷ []); kernel = k' },
        rw (call, written_first m p b []) refl,
        in1,
        out1 ∙ sym (append-nil (shown s.kernel)),
      )

  -- At the end of the input there is `EEOF`.
  pub getbyte_end : Fails getbyte_noecho eeof [] []
  unfolding getbyte_noecho with_local read do_syscall load_byte
  getbyte_end s h =
      let p : ℕ = P.frame 1 in
      let m : Memory = store s.mem p (0 ∷ []) in
      let (k', call, in1, out1) = reads_end p m s.kernel h in
      (
        record s { mem = m; kernel = k' },
        rw call refl,
        in1,
        out1 ∙ sym (append-nil (shown s.kernel)),
      )

  pub write_str_lem : (t : Text) → Does (write_str t) fmt_ok [] (as_bytes t)
  unfolding write_str write do_syscall with_local
  write_str_lem t s rest h =
      let p : ℕ = P.frame (length (as_bytes t)) in
      let m : Memory = store s.mem p (as_bytes t) in
      let (k', call, in1, out1) = writes p (length (as_bytes t)) m s.kernel in
      (
        record s { mem = m; kernel = k' },
        rw call refl,
        in1 ∙ h,
        out1 ∙ ap (λ l. shown s.kernel ++ l) (load-store s.mem p (as_bytes t)),
      )

  -- One piece is shown as its bytes.
  pub print_lem : (t : Text) → Does (print (t ∷ [])) tt [] (as_bytes t)
  unfolding print write_fmt
  print_lem t s rest h =
      let (s', run, in1, out1) = write_str_lem t s rest h in (s', rw run refl, in1, out1)
