-- ===== src/Samples/Clocked.antt =====
-- The theorem on scripts at the machine with one file and a clock.
use parch_testbench.Prelude.{◌≡◌, refl, sym, inr, [], ◌∷◌, ◌++◌, codes, map, Lacks, arith}
use parch_testbench.Prelude.{◌&&◌, ◌==◌, if◌then◌else◌}
use parch_testbench.Machine.{Registers, Trap, back, Platform, Machine}
use parch_testbench.Machine.Blocks.{Memory, store, load, le_bytes}
use parch_testbench.SyscallNum.{syscall_open, syscall_read}
use parch_testbench.Allocator.Laws.{AllocLaws}
use parch_testbench.FmtIo.Console.{Console}
use parch_testbench.Shell.Serve.Scripts.{Script, main_script}
use parch_testbench.Shell.Serve.Transcript.{Children}
use parch_testbench.Shell.Serve.Prompt.{clock_path}
use parch_testbench.Samples.Sessions.{clock_bytes, root_bytes}
use parch_testbench.Utf8.{as_bytes, encode_char}
use parch_testbench.Start.{unused}
use parch_testbench.FmtIo.Runs.{ValueWith}
use parch_testbench.FmtIo.Specs.{Shown}
use parch_testbench.Shell.Serve
use parch_testbench.Shell.Serve.Clock.{Header, IsPrompt}
use parch_testbench.Shell.Serve.Scripts.{Script, main_script}
use parch_testbench.Shell.Serve.Session.{session_input}
use parch_testbench.Shell.Serve.Transcript.{IsSession}
use parch_testbench.Samples.{alloc_laws, read_path, is_program, blank, read_path_lem}
use parch_testbench.Samples.Disk.{serve, Disk, disk, at_terminal, script}
use parch_testbench.Samples.Sessions.{letters}
use parch_testbench.Samples.Transcripts.{entries, taken, script_bytes}

-- Absolute paths are names of the clock, which is opened on the descriptor 5.
abbrev serve_clocked : Registers → Memory → Disk → Trap Disk
serve_clocked r m k =
    if (r.a7 == syscall_open) && is_program (read_path m r.a0)
    then back 5 0 m k
    else if (r.a7 == syscall_read) && (r.a0 == 5)
    then back 8 0 (store m r.a1 (le_bytes 8 1700000000)) k
    else serve r m k

abbrev clocked : Platform
clocked = record disk { ecall = serve_clocked }

abbrev machine : Machine clocked
machine = record { mem = λ a. 0; heap = 0x10000; kernel = (at_terminal []).kernel }

clocked_laws : AllocLaws clocked
unfolding alloc_laws
clocked_laws = record { Live = alloc_laws.Live; fresh = alloc_laws.fresh; apart = alloc_laws.apart }

abbrev clocked_console : Console clocked
clocked_console = record {
  pending = λ k. k.pending;
  shown = λ k. k.shown;
  reads = λ p m k b rest h. (record k { pending = rest }, rw h refl, refl, refl);
  reads_end = λ p m k h. (k, rw h refl, h, refl);
  writes = λ p n m k. (record k { shown = k.shown ++ load m p n }, refl, refl, refl);
}

clocked-Children : Children clocked_console
clocked-Children = record {
  exit_code = λ m k. 3;
  printed = λ m k. b'x' ∷ [];
  forks = λ m k. (
    4,
    4,
    m,
    k,
    record k { shown = k.shown ++ b'x' ∷ [] },
    refl,
    omega arith,
    omega arith,
    (λ p m'. refl),
    refl,
    refl,
  );
}

abbrev header : Header clocked_console
header = record {
  place = record {
    cwd = codes "/";
    cwd_valid = (refl, tt);
    cwd_fits = rw root_bytes (omega arith);
    gives_cwd = λ p m k. (1, k, rw root_bytes refl, refl, refl);
  };
  clock = inr (record {
    fd = 5;
    opens = λ p m k string. (
      k,
      rw (read_path_lem m p clock_path (omega arith) (rw clock_bytes at string)) refl,
      (refl, refl),
    );
    gives_time = λ p m k. (1700000000, k, omega arith, refl, (refl, refl));
    closes = λ m k. (0, k, refl, (refl, refl));
  });
}

name_bytes : as_bytes (codes "sc") ≡ codes "sc"
unfolding as_bytes encode_char
name_bytes = refl

name_text : Lacks 0 (as_bytes (codes "sc"))
name_text = rw name_bytes (omega arith, (omega arith, tt))

opened : Script clocked_console (codes "sc") (session_input entries (codes "l"))
opened = record {
  closes = λ m k. (0, k, refl, refl);
  opens = λ p m k string. (
    record k { pending = script },
    rw (read_path_lem m p (codes "sc") (omega arith) (rw name_bytes at string)) refl,
    (sym script_bytes, refl),
  );
}

main_script_example :
    ValueWith
      (Shown clocked_console
        (IsSession clocked-Children blank (IsPrompt blank header.place) entries (codes "l"))
        []
        [])
      0
      (Serve.main blank 3 9 2 (map as_bytes (codes "sh" ∷ codes "sc" ∷ []) ++ unused ∷ []) machine)
main_script_example =
    main_script clocked_laws blank header clocked-Children machine 3 9 2 (codes "sh") (codes "sc")
      (unused ∷ []) entries (codes "l") (omega arith) (refl, (refl, tt)) name_text opened
      (omega arith) taken (omega arith) (letters (codes "l") (omega arith))
