-- ===== src/Types/OpenMode.antt =====
-- `OpenMode` of usrlib_rust/src/utils/types.rs. A `bitflags!` type is its bits.
use parch_testbench.Prelude.{ℕ}

abbrev pub OpenMode : Type 0
OpenMode = ℕ

abbrev pub read : OpenMode
read = 1

abbrev pub write : OpenMode
write = 2

abbrev pub create : OpenMode
create = 4

abbrev pub exec : OpenMode
exec = 8

abbrev pub sys : OpenMode
sys = 16

abbrev pub no_follow : OpenMode
no_follow = 32
