-- ===== src/Prelude/Bits.antt =====
-- The bit operations at variables: exclusive or, and with a mask, and or of disjoint fields.
mod Step
pub mod Words
pub use Step.*
pub use Prim.Native.Nat.{bit_and, bit_or, bit_xor}
