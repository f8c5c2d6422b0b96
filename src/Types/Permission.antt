-- ===== src/Types/Permission.antt =====
-- `Permission` of usrlib_rust/src/utils/types.rs. A `bitflags!` type is its bits, `|` the bitwise or.
use Prim.Native.Nat.{bit_or}
use parch_testbench.Prelude.{ℕ}

abbrev pub Permission : Type 0
Permission = ℕ

abbrev pub owner_r : Permission
owner_r = 0o400

abbrev pub owner_w : Permission
owner_w = 0o200

abbrev pub owner_x : Permission
owner_x = 0o100

abbrev pub group_r : Permission
group_r = 0o040

abbrev pub group_w : Permission
group_w = 0o020

abbrev pub group_x : Permission
group_x = 0o010

abbrev pub other_r : Permission
other_r = 0o004

abbrev pub other_w : Permission
other_w = 0o002

abbrev pub other_x : Permission
other_x = 0o001

unfoldable pub default : Permission
default = bit_or (bit_or (bit_or owner_r owner_w) group_r) other_r

unfoldable pub ro : Permission
ro = bit_or (bit_or owner_r group_r) other_r
