-- ===== src/Types.antt =====
-- usrlib_rust/src/utils/types.rs: file descriptors and the flags that system calls take.
pub mod OpenMode
pub mod Permission
use parch_testbench.Prelude.{ℕ, List}

pub record FileDecstiptor : Type 0 where
  pub inner : ℕ

unfoldable pub from : ℕ → FileDecstiptor
from inner = record { inner = inner }

-- Laid out in this order without padding: 4, 2 and 122 bytes.
pub record Dirent : Type 0 where
  pub inode : ℕ
  pub f_type : ℕ
  pub name : List ℕ
