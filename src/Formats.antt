-- ===== src/Formats.antt =====
-- What the programs print by way of `core::fmt` and of the `time` crate, which are parameters.
use parch_testbench.Prelude.{ℕ, List, Text}

pub record Formats : Type 0 where
  -- `{}` of a `usize`, and of an `isize` by its bit pattern
  pub show_usize : ℕ → Text
  pub show_isize : ℕ → Text
  -- the time at +8 hours as `%F %r %z`, from nanoseconds since the epoch
  pub show_time : ℕ → Text
  -- `String::from_utf8_lossy`
  pub lossy : List ℕ → Text
  -- `{:?}` of a text, in quotes and escaped
  pub debug_str : Text → Text
