-- ===== src/Lib.antt =====
-- ParchTestbench: the Rust programs that run on the kernel, the builder of its file system's image, and
-- what holds of them.
--
-- A user program starts in `_start` (usrlib_rust/src/lib.rs), which collects its arguments, prepares
-- the heap and calls the program's `main`. It reaches the kernel by `do_syscall`
-- (usrlib_rust/src/syscall.rs) alone: the console of usrlib_rust/src/fmt_io.rs and the programs under
-- parch_utils (shell, cat, mkdir) are written on its wrappers. The shell reads a line, tries its
-- built-in commands, and otherwise parses the line (`Command::parse`) and runs it in a child
-- (`Command::execute`).
--
-- The files, and the code that each is about:
--   Machine              the state of a process: its memory, its heap and the kernel, with actions that
--                        return, fail, panic, leave the process or are out of fuel. `Platform` is the
--                        part that the sources do not define: the trap, the allocator of the
--                        `buddy_system_allocator` crate and the addresses of locals
--   Machine.Blocks       memory as a function of addresses; little-endian words
--   Machine.Footprint    the system calls of a run as steps of the kernel; Syscall.Footprint, Syscall.Calls,
--                        FmtIo.Footprint, Start.Footprint, Shell.Execute.Footprint,
--                        Shell.Serve.Footprint, Shell.Footprint, Cat.Footprint and Mkdir.Footprint say
--                        which calls the code makes, however it ends, its panic handlers included
--   Machine.Handled      what a process does from a panic on: its `#[panic_handler]`
--   Machine.Buffers      a zeroed array over whose front the kernel writes
--   Machine.Arguments    `str::from_utf8(argv[i]).unwrap()` and indexing of the argument slice
--   Prelude, Strings, Utf8, Formats
--                        names that all share; `find`, `trim`, `split` and the other string functions
--                        that the sources use; UTF-8; texts that `core::fmt` and `time` produce
--   ErrorNum             usrlib_rust/src/utils/error_num.rs
--   Types                usrlib_rust/src/utils/types.rs
--   SyscallNum           usrlib_rust/src/utils/syscall_num.rs
--   Allocator            usrlib_rust/src/allocator.rs, and the life of a `Vec`'s block
--   Syscall              usrlib_rust/src/syscall.rs: `do_syscall`, `read`, `write`, `read_vec`; Files has
--                        the calls on files and directories, Process those on processes and memory;
--                        Paths and Argv say how a path and the arguments of `exec` stand in memory
--   FmtIo                usrlib_rust/src/fmt_io.rs; Masks and Chars are about one character, Lines and
--                        Eof about a line; Runs has rules for what a run reads and shows, Specs
--                        for runs whose output is one of several, Leaves for those that end the
--                        process, and Opens what `open` does to them
--   Start                usrlib_rust/src/lib.rs
--   Shell.Command        `Command::parse` of parch_utils/shell/src/main.rs; Debug has the texts of `{:?}`
--   Shell.Execute        `Command::execute` of that file
--   Shell.Serve          the built-in commands, the prompt, `main` and the panic handler of that file;
--                        Prompt, Clock, Replies and Session build a whole session from what they show,
--                        Transcript one with programs, Scripts one from a file, Exits one that `exit`
--                        ends, Moves one in which `cd` changes the directory
--   Shell.Directory      what the commands leave of the kernel's state as it is
--   Cat, Mkdir           parch_utils/cat/src/main.rs and parch_utils/mkdir/src/main.rs
--   ParchFs              parchfs/parchfs.cpp and parchfs/parchfs.hpp: bits, bitmaps, the set-up of an image and
--                        the allocation of blocks and inodes; the mapped file is a memory from address 0
--   System               a line of the shell that runs cat, from its text to what the file shows
--   Build                usrlib_rust/build.rs, which writes the constants of SyscallNum from a table
--   Samples              platforms with a terminal, files and an allocator that satisfy the laws below,
--                        on which the theorems are applied
--
-- Interfaces. `FmtIo.Console.Console` is a kernel that serves one byte of the typed ones to a `read` on
-- descriptor 0 and shows what is written on descriptor 1. `Allocator.Laws.AllocLaws` says that a new
-- block lies apart from those in use. `Syscall.Argv.Execs` is a kernel that runs a program with the
-- arguments in memory, and `Shell.Execute.Redirected.Descriptors` one that opens a file on the lowest
-- free descriptor. `Cat.Reading.Reads` is a kernel that reads a file in pieces and leaves the rest of
-- its state, such as the terminal, alone. `Shell.Serve.Prompt.Prompt` is one that knows the working
-- directory and has no clock, `Shell.Serve.Clock.Header` one that may have a clock,
-- `Shell.Serve.Transcript.Children` one whose children exit, with what each shows and its code,
-- `Shell.Serve.Scripts.Script` one that opens a script in place of the terminal,
-- `Shell.Serve.Moves.Folders` one whose working directory only chdir changes, and `System.Loaded` one that has loaded a program and its arguments for `_start`.
-- Each is a record of laws that the theorems take as an argument.
--
-- Conventions. A `usize` or `isize` is its bit pattern, a number below 2 ^ 64, with the wrap-around
-- written out where the code has one. A text is the list of its characters; Rust's string positions
-- count bytes where those of `Shell.Command` count characters, and both cut at the same places. A
-- byte slice that the sources pass by pointer and length lies in memory while the call runs. A `Vec`
-- whose address reaches the kernel has a block of the allocator, which may be out of memory; other
-- texts and vectors are values that take no room. A panic is an outcome; the panic handler is an
-- action of its own, and `Machine.Handled` joins the two: it runs the handler in place of the rest.
-- The arithmetic of cat panics on overflow, as in the debug builds of the Makefile.
--
-- Fuel. `parse` recurses on one more than the characters of the line. `get_line` counts the characters
-- that it reads, `strlen` the bytes before the 0, `main_loop` the lines, `read_all` the reads and
-- `spin` the rounds of cat's `loop {}`; a loop out of fuel is `starved`, which is none of the
-- program's outcomes, with the state that was reached. The reports given to `Machine.Handled.handled`
-- bound the panics in the handler itself.
--
-- Not modelled: the kernel, the C library and programs (usrlib, test_programs, parch_utils/ls,
-- parch_utils/init_proc), which are not among the Rust programs; of the image builder parchfs the
-- contents of inodes and directories and the access to the host's files; the comparison of two
-- commands by address (`PartialEq for Command`), which nothing calls; what the build script prints for
-- cargo.
pub mod Prelude
pub mod Utf8
pub mod ErrorNum
pub mod Types
pub mod SyscallNum
pub mod Machine
pub mod Allocator
pub mod Formats
pub mod Syscall
pub mod FmtIo
pub mod Start
pub mod Strings
pub mod Shell
pub mod Cat
pub mod Mkdir
pub mod ParchFs
pub mod Build
pub mod System
pub mod Samples
