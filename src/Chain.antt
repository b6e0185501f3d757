-- ===== src/Chain.antt =====
-- The block chain of core/blockchain.go on the tables of core/rawdb: Rawdb has the tables, Head the
-- state and how a block becomes its head, Branches and Reorg the reorganization, Write how a block
-- is written with its state, Insert and Side how a batch of blocks is inserted, Ancestor the search
-- for ancestors.
pub mod Rawdb
pub mod Head
pub mod Branches
pub mod Reorg
pub mod Write
pub mod Insert
pub mod Side
pub mod Tables
pub mod Canonical
pub mod Grow
pub mod Finality
pub mod Inserted
pub mod Engine
pub mod Adopts
pub mod Completes
pub mod Tests
pub mod Walk
pub mod Meet
pub mod Settle
pub mod Reorged
pub mod Forks
pub mod Ancestor
pub mod Ancestry
pub mod Ends
