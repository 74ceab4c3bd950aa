-- ===== src/Storage.antt =====
-- ArbOS storage: crates/arb-arbos/src/storage/storage.rs.
-- `Slot` has a single slot, `Typed` the slots with a type, `Space` the hashed address space of a
-- `Storage` handle and its charged and uncharged calls. A newtype of a slot is that slot.
-- `HashCache` has the cache of `cached_keccak`; `Space` hashes without it.
pub mod HashCache
pub mod Slot
pub mod Typed
pub mod Space
pub mod Blob
mod Tests
