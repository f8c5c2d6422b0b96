-- ===== src/SyscallNum.antt =====
-- usrlib_rust/src/utils/syscall_num.rs: the numbers that select a system call.
use parch_testbench.Prelude.{ℕ}

abbrev pub syscall_write : ℕ
syscall_write = 0

abbrev pub syscall_read : ℕ
syscall_read = 1

abbrev pub syscall_open : ℕ
syscall_open = 2

abbrev pub syscall_openat : ℕ
syscall_openat = 3

abbrev pub syscall_close : ℕ
syscall_close = 4

abbrev pub syscall_dup : ℕ
syscall_dup = 5

abbrev pub syscall_fork : ℕ
syscall_fork = 6

abbrev pub syscall_exec : ℕ
syscall_exec = 7

abbrev pub syscall_exit : ℕ
syscall_exit = 8

abbrev pub syscall_mmap : ℕ
syscall_mmap = 9

abbrev pub syscall_signal : ℕ
syscall_signal = 10

abbrev pub syscall_waitpid : ℕ
syscall_waitpid = 11

abbrev pub syscall_sigaction : ℕ
syscall_sigaction = 12

abbrev pub syscall_sigreturn : ℕ
syscall_sigreturn = 13

abbrev pub syscall_getcwd : ℕ
syscall_getcwd = 14

abbrev pub syscall_chdir : ℕ
syscall_chdir = 15

abbrev pub syscall_sbrk : ℕ
syscall_sbrk = 16

abbrev pub syscall_getdents : ℕ
syscall_getdents = 17

abbrev pub syscall_pipe : ℕ
syscall_pipe = 18

abbrev pub syscall_sysstat : ℕ
syscall_sysstat = 19

abbrev pub syscall_munmap : ℕ
syscall_munmap = 20

abbrev pub syscall_mkdir : ℕ
syscall_mkdir = 21

abbrev pub syscall_ioctl : ℕ
syscall_ioctl = 22

abbrev pub syscall_delete : ℕ
syscall_delete = 23

abbrev pub syscall_seek : ℕ
syscall_seek = 24

abbrev pub syscall_time : ℕ
syscall_time = 25
