-- ===== src/Bits.antt =====
-- Words as lists of binary digits, and the bit operations of C as arithmetic.
mod Digits
mod Logic
mod Table
mod Single
pub use Single.*
pub use Logic.*
unfoldable pub use Table.*
unfoldable pub use Digits.*
