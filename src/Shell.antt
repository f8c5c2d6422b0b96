-- ===== src/Shell.antt =====
-- parch_utils/shell/src/main.rs: the shell.
pub mod Command
pub mod Directory
pub mod Execute
pub mod Footprint
pub mod Serve
mod Tests
