-- ===== src/Lib.antt =====
-- arb-reth: the ArbOS state that an Arbitrum node keeps in storage slots, and its gas arithmetic.
--
-- Sources: crates/arbitrum/src/multigas/resources.rs (`MultiGas`, gas by kind of resource),
-- crates/arb-arbos/src/burn.rs (`SystemBurner`, gas accounting and tracing),
-- crates/arb-arbos/src/storage/storage.rs (slots, typed slots, the hashed `Storage`),
-- crates/arb-arbos/src/storage/queue.rs and vector.rs, crates/arb-arbos/src/address_set.rs, the
-- L2 price of crates/arb-arbos/src/l2pricing, the L1 price and its batch posters of
-- crates/arb-arbos/src/l1pricing, the ArbSys precompile of
-- crates/arb-revm/src/arb_precompiles/arbsys.rs, the hard forks of crates/arb-revm/src/spec.rs and
-- precompiles.rs, and the EVM of evm.rs. A collection is built on a `Storage`, which is built on the
-- slots of one account, each of whose reads and writes charges a burner and calls a tracer. The L1 price keeps what the
-- batch posters are due and pays them from a funds pool. Most of the remaining lines of the crates
-- are the Go program in comments.
--
-- Files.
-- Prelude: Boolean tests and lists on the native numbers, 64-bit and 256-bit saturation, integers.
-- MultiGas: `MultiGas` and its methods; MultiGas/Kind: `ResourceKind` and `check_resource_kind`.
-- Host: what the code takes from revm and from the Keccak hash, as a record of functions, and the
--   record `IsStore` of what a store does: no call fails, and a read after a write sees it. The
--   source reads from the database of the journal and writes through the journal; that such a read
--   sees the writes before it is what `IsStore` assumes. Where the reads see only what was committed
--   before the call, a call that reads what it wrote behaves otherwise: `IsJournal` is such a host, and
--   the Uncommitted modules have what such calls then do. `IsBank` is the same for balances: a
--   transfer moves what the sender has and is refused for more, and touches no slot.
-- Burn: `SystemBurner`. World: the state that a call changes (the database, the burner's gas and
--   the tracer's events) and the monad of a call, which returns, fails with the database's error, or
--   panics. The burner's read-only flag never changes.
-- Bytes: big-endian bytes. Storage: `StorageSlot` (Slot), the typed slots (Typed), `Storage` (Space).
--   Storage/Blob has the bytes of `StorageBackedBytes`, Storage/HashCache the cache of hashes of
--   `cached_keccak`; all else hashes without it.
-- Queue, Vector, AddressSet: the collections. Constraint: the gas constraints. Pricing: the state of
--   the L2 price (l2pricing.rs); Pricing/Fees: multi_gas_fees.rs. Alias: the aliases of arbsys.rs.
-- Signed: the saturating and wrapping operations of I256. BatchPoster: batch_poster.rs. L1Pricing:
--   the state and the fees of l1pricing.rs; L1Pricing/Arith: the arithmetic of an update, Steps: its
--   stages, Update: the update from ArbOS version 10 on, Old: l1pricing_old_versions.rs, PosterCost:
--   what a transaction costs its poster. A transaction is any type with the operations of
--   `PosterTransaction`.
-- ArbSys: the functions of arbsys.rs and the dispatch on the selector. Spec: spec.rs, precompiles.rs.
-- Evm: evm.rs, over the `Evm` of revm.
-- World/Loop has the loops over a range, World/Ends the calls that return. A Laws, Cells, Keys,
-- Steps, Take, Reset, Refine, Calls, Order, Visit, Weights, Commit, Start, Chunks, Model, Add,
-- Swap, Move, Remove, Rectify, Clear, Members, Bounds, Safe, Total, Balance, Direction, Transfer,
-- Covered, Payments, Reprice, Before, DueList, Register, Clamp, Guards, Uncommitted, Opened, Refused,
-- Cached, Window, Aliased, Changes or Transparent module holds the proofs of its parent, but
-- L1Pricing/Steps; a Journaled module has the reads and writes on such a journal. Tests modules run the code on TestHost, whose database is a function
-- on slots and whose hash is concrete, or, for the storages below a table, on TestTable, whose hash
-- tells them apart, and JournalTests on TestJournal, whose reads see what was committed.
--
-- Numbers are native and unbounded; where a machine word wraps or saturates the definition writes
-- it out. Slot words are numbers, which the laws bound where a conversion depends on it. The
-- hash is a parameter: the laws on different offsets assume that the pages of one storage do not
-- collide (`NoPageCollision`), those of an address set also for its mapping (`Apart`), the law on one
-- page assumes nothing. Loops are recursion on the number of rounds; the loops on bytes have fuel,
-- one for each byte, and take at least a byte a round.
--
-- Not modelled: the retryables and the ArbOS state, whose operations are Go in comments; the lock
-- of the hash cache; what `eprintln` prints. Parameters: the encodings of alloy_rlp and the
-- compression of brotli (`Codec`), the map of the crate `lru` (`LruCache`), the selectors of the
-- `sol!` macro (`Selectors`) and the sets of precompiles of revm (`EthSets`) and its `Evm`
-- (`Revm`). The supply of ether is taken to fit in 256 bits, so a transfer does not overflow a
-- balance.
pub mod Prelude
pub mod MultiGas
pub mod Host
pub mod Burn
pub mod World
pub mod Bytes
pub mod Storage
pub mod Queue
pub mod TestHost
pub mod TestJournal
pub mod TestTable
pub mod Vector
pub mod AddressSet
pub mod Constraint
pub mod Pricing
pub mod Alias
pub mod Signed
pub mod BatchPoster
pub mod L1Pricing
pub mod ArbSys
pub mod Evm
pub mod Spec
