-- ===== src/Base/Bits.antt =====
-- Laws of `&`, `|` and `^` at variables, from the recursion on binary digits that they stand for.
mod Step
mod Digits
mod Masks
pub use Digits.*
pub use Masks.*
