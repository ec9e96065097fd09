-- ===== src/Bits.antt =====
-- The bits of machine words: `|`, `&`, `~` and shifts by the value of each bit.
mod Step
mod Laws
mod Ops
unfoldable pub use Laws.*
unfoldable pub use Ops.*
pub use Step.*
