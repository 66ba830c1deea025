-- ===== src/Bits.antt =====
-- `&`, `|` and `~` on unsigned words: the digit recursion, tests of a mask, and power-of-two masks.
mod Step
mod Test
mod Mask
mod Single
pub use Step.{bit_or_step, bit_and_step, bit_and-zero, bit_or-zero}
pub use Mask.*
pub use Single.{has-bit}
pub use Test.{has-zero, has-or, bit_and_assoc, has-clear}
unfoldable pub use Test.{has, clear}
