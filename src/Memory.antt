-- ===== src/Memory.antt =====
-- The byte-addressed memory that the C objects live in: an address holds a byte. `store` is
-- `memcpy` from an object outside, `load` reads consecutive bytes.
mod Laws
pub use Laws.*
mod Defs
unfoldable pub use Defs.{Memory, Ptr, update, store, load, zeroed}
