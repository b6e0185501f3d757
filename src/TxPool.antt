-- ===== src/TxPool.antt =====
-- core/tx_list.go, core/tx_noncer.go and the parts of core/tx_pool.go that keep transactions.
pub mod Transaction
pub mod SortedMap
pub mod TxList
pub mod Noncer
pub mod NoncerRuns
pub mod Lookup
pub mod PricedList
pub mod Index
pub mod Underpriced
pub mod Forward
pub mod Ready
pub mod Replace
pub mod Caps
pub mod Pool
pub mod Validate
pub mod Admit
pub mod Promote
pub mod Truncate
pub mod Reset
pub mod Invariant
pub mod Filter
pub mod Remove
pub mod Filed
pub mod Enqueue
pub mod Pending
pub mod Place
pub mod Dropped
pub mod RemoveTx
pub mod AddTx
pub mod Tests
pub mod PoolTests
