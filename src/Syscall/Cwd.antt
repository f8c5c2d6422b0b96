-- ===== src/Syscall/Cwd.antt =====
-- `getcwd` of usrlib_rust/src/syscall.rs.
use parch_testbench.Prelude.{
  ℕ, ◌-◌, ◌≤◌, ◌≡◌, refl, true, ◌++◌, Text, All, length, replicate, arith,
}
use parch_testbench.Utf8.{is_char, as_bytes}
use parch_testbench.Utf8.RoundTrip.{from_utf8-append, from_utf8-replicate}
use parch_testbench.SyscallNum.{syscall_getcwd}
use parch_testbench.Machine.{Platform, Registers, back, Machine, value, with_local, load_bytes}
use parch_testbench.Machine.Blocks.{Memory, store}
use parch_testbench.Machine.Buffers.{zeroed-store}
use parch_testbench.Syscall.{do_syscall}
use parch_testbench.Syscall.Files.{getcwd_raw, getcwd}

abbrev pub getcwd_call : ℕ → ℕ → Registers
getcwd_call p len = record { a0 = p; a1 = len; a2 = 0; a3 = 0; a4 = 0; a5 = 0; a7 = syscall_getcwd }

-- The run at the buffer that it takes.
pub getcwd_lem :
    {P : Platform} (s : Machine P) (path : Text) (ret : ℕ) (k : P.Kernel)
    → All (λ r. is_char r ≡ true) path
    → length (as_bytes path) ≤ 1024
    → P.ecall
        (getcwd_call (P.frame 1024) 1024)
        (store s.mem (P.frame 1024) (replicate 1024 0))
        s.kernel
      ≡ back ret 0
          (store (store s.mem (P.frame 1024) (replicate 1024 0)) (P.frame 1024) (as_bytes path))
          k
    → (s' : Machine P) × (getcwd s ≡ value (path ++ replicate (1024 - length (as_bytes path)) 0) s')
      × (s'.kernel ≡ k)
unfolding getcwd getcwd_raw do_syscall with_local load_bytes
getcwd_lem {P} s path ret k valid fits written =
    let p : ℕ = P.frame 1024 in
    let m1 : Memory = store s.mem p (replicate 1024 0) in
    let left : ℕ = 1024 - length (as_bytes path) in
    (
      record s { mem = store m1 p (as_bytes path); kernel = k },
      rw
          (
            written,
            zeroed-store s.mem p 1024 (as_bytes path) fits,
            from_utf8-append path (replicate left 0) valid,
            from_utf8-replicate left 0 (omega arith),
          )
          refl,
      refl,
    )

-- Where the kernel writes the bytes of a path of at most 1024 bytes to the front of the buffer,
-- `getcwd` returns the path followed by a NUL character for each byte of the buffer that is left.
pub getcwd_pads :
    {P : Platform} (s : Machine P) (path : Text) (ret : ℕ) (k : P.Kernel)
    → All (λ r. is_char r ≡ true) path
    → length (as_bytes path) ≤ 1024
    → ((p : ℕ) (m : Memory)
        → P.ecall (getcwd_call p 1024) m s.kernel ≡ back ret 0 (store m p (as_bytes path)) k)
    → (s' : Machine P) × (getcwd s ≡ value (path ++ replicate (1024 - length (as_bytes path)) 0) s')
      × (s'.kernel ≡ k)
getcwd_pads {P} s path ret k valid fits written =
    getcwd_lem s path ret k valid fits (written (P.frame 1024) _)
