-- ===== src/Book.antt =====
-- rust/oclob-core/src/lib.rs: the private book of one market, its queries and the operations that
-- the ordered stream of commands applies to it.
pub mod Store
pub mod Action
pub mod Roots
pub mod Queries
pub mod Operations
pub mod Commands
pub mod Flat
pub mod Orders
pub mod Inserted
pub mod Found
pub mod Remainders
pub mod Slots
pub mod Invariant
pub mod Batch
pub mod Cancel
pub mod Naming
pub mod Expiry
pub mod Refused
