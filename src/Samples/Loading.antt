-- ===== src/Samples/Loading.antt =====
-- The theorem on a line of the shell with cat, at the machine with one file in a child.
use parch_testbench.Prelude.{
  ◌<◌, ◌≡◌, refl, true, [], ◌∷◌, ◌++◌, codes, length, arith, ◌&&◌, ◌==◌, if◌then◌else◌,
}
use parch_testbench.Utf8.{as_bytes}
use parch_testbench.SyscallNum.{syscall_fork, syscall_exec}
use parch_testbench.Strings.{is_whitespace}
use parch_testbench.Types.{from}
use parch_testbench.Types.OpenMode
use parch_testbench.Machine.{Registers, Trap, back, gone, Platform, Machine}
use parch_testbench.Machine.Blocks.{Memory, store, load, le_bytes}
use parch_testbench.Allocator.Laws.{AllocLaws, EndsAs}
use parch_testbench.FmtIo.Console.{Console}
use parch_testbench.FmtIo.Leaves.{Leaves}
use parch_testbench.FmtIo.Opens.{ServesOpen}
use parch_testbench.FmtIo.Printing.{all_bytes}
use parch_testbench.FmtIo.Runs.{At}
use parch_testbench.Syscall.Process.{words_bytes}
use parch_testbench.Syscall.Argv.{Argv, Execs}
use parch_testbench.Start.{start}
use parch_testbench.Shell.Command.{Parse, parse, command, default}
use parch_testbench.Shell.Command.Words.{IsWord, render, none_given}
use parch_testbench.Shell.Execute.{execute}
use parch_testbench.Shell.Execute.Redirected.{Descriptors}
use parch_testbench.Cat
use parch_testbench.Cat.Reading.{Reads}
use parch_testbench.Cat.Whole.{terminal, content_text}
use parch_testbench.System.{Loaded}
use parch_testbench.System.Started.{cat_line}
use parch_testbench.Samples.{alloc_laws, read_path, is_program, blank, read_path_lem}
use parch_testbench.Samples.Children.{letter, slash_s, path_bytes, path_text}
use parch_testbench.Samples.Disk.{serve, Disk, disk, disk_console, at_terminal, stored, reads_file}
use parch_testbench.Samples.Sessions.{f_bytes, f_text}

-- In the child, where absolute paths are programs.
abbrev serve_child : Registers → Memory → Disk → Trap Disk
serve_child r m k =
    if r.a7 == syscall_fork
    then back 0 0 m k
    else if (r.a7 == syscall_exec) && is_program (read_path m r.a0)
    then gone k
    else serve r m k

abbrev pub child : Platform
child = record disk { ecall = serve_child }

child_laws : AllocLaws child
unfolding alloc_laws
child_laws = record { Live = alloc_laws.Live; fresh = alloc_laws.fresh; apart = alloc_laws.apart }

abbrev child_console : Console child
child_console = record {
  pending = disk_console.pending;
  shown = disk_console.shown;
  reads = disk_console.reads;
  reads_end = disk_console.reads_end;
  writes = disk_console.writes;
}

reads_child : Reads child (from 3) (terminal child_console)
reads_child = record { left = reads_file.left; gives = reads_file.gives; ends = reads_file.ends }

-- All descriptors are open, and none is free to be opened again.
child_files : Descriptors child
child_files = record {
  IsOpen = λ k fd. Unit;
  CanOpen = λ path mode. ⊥;
  closed = λ fd k. k;
  opened = λ fd path mode k. k;
  closes = λ fd m k h. refl;
  reopens = λ fd p mode m k path lower can string. absurd can;
  stays = λ fd mode k path j h. h;
}

abbrev child_execs : Execs child
child_execs = record {
  IsProgram = λ path. (length path < 64) × (is_program path ≡ true);
  program = λ path argv k. k;
  runs = λ p q m k path argv h string array. rw (read_path_lem m p path h.0 string, h.1) refl;
}

abbrev kernel : Disk
kernel = (at_terminal []).kernel

-- `/s` at 0x100, `f` at 0x110 and the array at 0x200.
abbrev pub image : Machine child
image = record {
  mem =
      store (store (store (λ a. 0) 0x100 (codes "/s" ++ 0 ∷ [])) 0x110 (codes "f" ++ 0 ∷ [])) 0x200
        (words_bytes (0x100 ∷ 0x110 ∷ 0 ∷ []));
  heap = 0x10000;
  kernel = kernel;
}

there : Argv image.mem 0x200 (codes "/s" ∷ codes "f" ∷ [])
unfolding store load words_bytes le_bytes
there = record {
  addresses = 0x100 ∷ 0x110 ∷ [];
  array = refl;
  strings_there = (
    record {
      text = refl;
      no_nul = (omega arith, (omega arith, tt));
      not_null = omega arith;
      address = omega arith;
    },
    (
      record {
        text = refl;
        no_nul = (omega arith, tt);
        not_null = omega arith;
        address = omega arith;
      },
      tt,
    ),
  );
}

loaded : Loaded child_execs child_console (as_bytes (codes "/s")) (as_bytes (codes "f") ∷ []) kernel
loaded = record {
  image = image;
  stack = 0x200;
  arguments = rw (path_bytes, f_bytes) there;
  runs_in = refl;
  quiet = (refl, refl);
}

f-IsWord : IsWord (codes "f")
unfolding is_whitespace
f-IsWord = record {
  not_empty = λ e. cc;
  plain = (letter b'f' refl (omega arith) (omega arith) (omega arith), tt);
}

f_opens : ServesOpen child_console (codes "f") OpenMode.read 3 (λ k. reads_child.left k ≡ stored)
unfolding reads_child reads_file
f_opens p m k string = (
  record k { file = stored },
  rw (read_path_lem m p (codes "f") (omega arith) (rw f_bytes at string)) refl,
  ((refl, refl), refl),
)

cat_line_example :
    (parse (render (codes "/s" ∷ codes "f" ∷ []) none_given)
      ≡ Parse.ok (command (codes "/s") (codes "f" ∷ []) default default))
    × EndsAs child_laws kernel
        (execute (command (codes "/s") (codes "f" ∷ []) default default) image)
    × Leaves child_console
        (λ k. k)
        (At child_console [] (all_bytes (content_text blank stored)))
        (start 4 (Cat.main blank 4) 2 0x200 image)
unfolding loaded child_files
cat_line_example =
    cat_line child_console child_laws child_files child_execs blank (λ k. k) (codes "/s")
      (codes "f") image kernel image.mem 4 3 reads_child stored slash_s f-IsWord (refl, tt)
      path_text f_text refl tt tt (rw path_bytes (omega arith, refl)) loaded f_opens (λ m k. refl)
      (rw path_bytes (omega arith)) (rw f_bytes (omega arith)) (omega arith)
