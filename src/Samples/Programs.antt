-- ===== src/Samples/Programs.antt =====
-- The theorems on system calls and on starting programs at concrete programs and machines.
use parch_testbench.Prelude.{
  ℕ, zero, suc, ◌-◌, ◌%◌, ◌<◌, ◌≡◌, refl, List, [], ◌∷◌, ◌++◌, map, codes, length, replicate, Lacks,
  All, arith,
}
use parch_testbench.Utf8.{as_bytes, encode_char}
use parch_testbench.ErrorNum.{enoent, code}
use parch_testbench.Types.OpenMode
use parch_testbench.Machine.{
  Registers, Machine, M, value, error, panicked, out_of_bounds, pure, back, ◌>>=◌,
}
use parch_testbench.Machine.Blocks.{Memory, load, store, le_bytes}
use parch_testbench.Allocator.Laws.{EndsAs, FailsAs}
use parch_testbench.Syscall.{usize_mod, do_syscall}
use parch_testbench.Syscall.Errors.{after, do_syscall-error}
use parch_testbench.Syscall.Process.{exec, exit, words_bytes}
use parch_testbench.Syscall.Argv.{CString, Strings, Argv, exec_call, exec_runs}
use parch_testbench.Start.{start, unused}
use parch_testbench.Start.Arguments.{start-Argv, start_overflow}
use parch_testbench.Shell.Command.{Command, command, default, file}
use parch_testbench.Shell.Execute.{execute}
use parch_testbench.Shell.Execute.Redirected.{prepared, write_mode}
use parch_testbench.Shell.Execute.Child.{execute-child, execute-refused, execute-parent}
use parch_testbench.Samples.{
  platform, Kernel, fresh_kernel, booted, alloc_laws, files, execs, refuses,
}

-- `/s -l > f` and `s -l < f`.
abbrev to_f : Command
to_f = command (codes "/s") (codes "-l" ∷ []) default (file (codes "f"))

abbrev from_f : Command
from_f = command (codes "s") (codes "-l" ∷ []) (file (codes "f")) default

abbrev machine : Machine platform
machine = booted fresh_kernel

program_bytes : as_bytes (codes "/s") ≡ codes "/s"
unfolding as_bytes encode_char
program_bytes = refl

name_bytes : as_bytes (codes "s") ≡ codes "s"
unfolding as_bytes encode_char
name_bytes = refl

option_bytes : as_bytes (codes "-l") ≡ codes "-l"
unfolding as_bytes encode_char
option_bytes = refl

file_bytes : as_bytes (codes "f") ≡ codes "f"
unfolding as_bytes encode_char
file_bytes = refl

program_text : Lacks 0 (as_bytes (codes "/s"))
program_text = rw program_bytes (omega arith, (omega arith, tt))

name_text : Lacks 0 (as_bytes (codes "s"))
name_text = rw name_bytes (omega arith, tt)

options_text : All (λ a. Lacks 0 (as_bytes a)) (codes "-l" ∷ [])
options_text = rw option_bytes ((omega arith, (omega arith, tt)), tt)

file_text : Lacks 0 (as_bytes (codes "f"))
file_text = rw file_bytes (omega arith, tt)

program_there : execs.IsProgram (as_bytes (codes "/s"))
unfolding execs
program_there = rw program_bytes (omega arith, refl)

file_there : (mode : ℕ) → files.CanOpen (as_bytes (codes "f")) mode
unfolding files
file_there mode = rw file_bytes (omega arith, refl)

exec_runs_example :
    EndsAs alloc_laws
      (execs.program (as_bytes (codes "/s")) (map as_bytes (codes "-l" ∷ [])) machine.kernel)
      (exec (codes "/s") (codes "-l" ∷ []) machine)
exec_runs_example =
    exec_runs alloc_laws execs (codes "/s") (codes "-l" ∷ []) machine program_there program_text
      options_text

execute-child_example :
    EndsAs alloc_laws
      (execs.program
        (as_bytes (codes "/s"))
        (map as_bytes (codes "-l" ∷ []))
        (prepared alloc_laws files to_f fresh_kernel))
      (execute to_f machine)
unfolding files
execute-child_example =
    execute-child alloc_laws files execs to_f machine fresh_kernel machine.mem refl tt tt tt
      (file_text, file_there write_mode) program_there program_text options_text

s_refused :
    (p q : ℕ) (m : Memory) (k : Kernel)
    → CString m p (as_bytes (codes "s"))
    → platform.ecall (exec_call p q) m k ≡ back ((usize_mod - code enoent) % usize_mod) 1 m k
s_refused p q m k string =
    refuses p q m k (as_bytes (codes "s")) (rw name_bytes (omega arith)) (rw name_bytes refl) string

execute-refused_example :
    FailsAs alloc_laws enoent
      (prepared alloc_laws files from_f fresh_kernel)
      (execute from_f machine)
unfolding files
execute-refused_example =
    execute-refused alloc_laws files enoent from_f machine fresh_kernel machine.mem refl tt tt
      (file_text, file_there OpenMode.read) tt name_text options_text
      (λ p q m string array. s_refused p q m _ string)

-- In the parent the child has number 4, and exits with 3.
abbrev parent_machine : Machine platform
parent_machine = booted (record fresh_kernel { forked = 4 })

execute-parent_example :
    (s' : Machine platform) × (execute to_f parent_machine ≡ value 3 s')
    × (s'.kernel ≡ parent_machine.kernel)
    × (s'.heap ≡ parent_machine.heap)
execute-parent_example =
    execute-parent to_f parent_machine 4 3 4 parent_machine.mem parent_machine.kernel
      parent_machine.kernel (omega arith) (omega arith) refl (λ p m. refl)

-- A call that the kernel does not know.
abbrev strange : Registers
strange = record { a0 = 0; a1 = 0; a2 = 0; a3 = 0; a4 = 0; a5 = 0; a7 = 99 }

-- The memory with the text of the program's name at 0x100.
abbrev named : Machine platform
named = record machine { mem = store machine.mem 0x100 (b's' ∷ 0 ∷ []) }

name_there : CString named.mem 0x100 (as_bytes (codes "s"))
unfolding store load
name_there = rw name_bytes (record {
  text = refl;
  no_nul = (omega arith, tt);
  not_null = omega arith;
  address = omega arith;
})

do_syscall-error_example :
    do_syscall (exec_call 0x100 0) named
    ≡ error enoent (after (exec_call 0x100 0) named named.mem fresh_kernel)
do_syscall-error_example =
    do_syscall-error (exec_call 0x100 0) named enoent ((usize_mod - code enoent) % usize_mod) 1
      named.mem fresh_kernel (omega arith) refl
      (s_refused 0x100 0 named.mem fresh_kernel name_there)

-- One string at 0x100, and at 0x200 an array of so many times its address.
abbrev repeated : ℕ → Machine platform
repeated n = record machine {
  mem =
      store (store machine.mem 0x100 (b'a' ∷ 0 ∷ [])) 0x200
        (words_bytes (replicate n 0x100 ++ 0 ∷ []));
}

abbrev a_string : List ℕ
a_string = b'a' ∷ []

Strings-all :
    (n p : ℕ) (m : Memory) (a : List ℕ) → CString m p a → Strings m (replicate n p) (replicate n a)
Strings-all zero p m a h = tt
Strings-all (suc n) p m a h = (h, Strings-all n p m a h)

short-All : (n : ℕ) → All (λ a. length a < 4) (replicate n a_string)
short-All zero = tt
short-All (suc n) = (omega arith, short-All n)

two_there : Argv (repeated 2).mem 0x200 (replicate 2 a_string)
unfolding store load words_bytes le_bytes
two_there = record {
  addresses = replicate 2 0x100;
  array = refl;
  strings_there = Strings-all 2 0x100 _ a_string (record {
    text = refl;
    no_nul = (omega arith, tt);
    not_null = omega arith;
    address = omega arith;
  });
}

many_there : Argv (repeated 17).mem 0x200 (replicate 17 a_string)
unfolding store load words_bytes le_bytes
many_there = record {
  addresses = replicate 17 0x100;
  array = refl;
  strings_there = Strings-all 17 0x100 _ a_string (record {
    text = refl;
    no_nul = (omega arith, tt);
    not_null = omega arith;
    address = omega arith;
  });
}

-- A `main` that returns how many slots it was given.
abbrev counting : ℕ → List (List ℕ) → M platform ℕ
counting argc argv = pure (length argv)

start-Argv_example :
    start 4 counting 2 0x200 (repeated 2)
    ≡ (counting 2 (a_string ∷ a_string ∷ replicate 14 unused) >>= exit)
        (record (repeated 2) { heap = 0x10000 })
start-Argv_example =
    start-Argv 4 0x200 (repeated 2) counting (replicate 2 a_string) two_there (omega arith)
      (short-All 2)

start_overflow_example :
    start 4 counting 17 0x200 (repeated 17) ≡ panicked out_of_bounds (repeated 17)
start_overflow_example =
    start_overflow 4 0x200 (repeated 17) counting (replicate 17 a_string) many_there (omega arith)
      (short-All 17)
