-- ===== src/Lib.antt =====
-- A verification library for benzene: its FBFT consensus, its transaction pool and its block
-- chain.
--
-- The consensus. The leader (consensus/leader.go) collects votes of a committee for a block, in a
-- prepare and a commit phase. It keeps the ballots in a decider (consensus/quorum) and looks blocks
-- and messages up in a log (consensus/fbft_log.go).
--   Quorum, Quorum/Committee: consensus/quorum/quorum.go and one-node-one-vote.go. CIdentities is
--     cIdentities; submit_vote is submitVote, aggregate_votes AggregateVotes, nth_next NthNext.
--   FbftLog: consensus/fbft_log.go. A Go map is an association list, its order that of `range`.
--   Leader: onPrepare and onCommit of consensus/leader.go, with consensus/checks.go and the start of
--     consensus/double_sign.go. They call the decider and the log; what they start elsewhere is a
--     list of actions. The BLS library is the record Library, a parameter.
--   Node: the side of a validator. Node has the rounds of consensus/consensus.go and
--     consensus_service.go (commitBlock, SetupForNewConsensus, tryCatchup, UpdatePublicKeys), and
--     Node/Validator the handlers of consensus/validator.go. The chain, the BLS masks, the decoder
--     and UpdateConsensusInformation are the record Services. The goroutine of onPrepared is a step
--     of its own, process_future. The callback PostConsensusJob is a field of Services, and a call
--     of it where it is not set is a panic. What InsertChain does, panics included, is Inserted.
--   Timeout: internal/utils/timer.go. Bytes: the bit count of internal/utils/bytes.go, by which the
--     decider reads a mask. MultiBls: Dedup of multibls/multibls.go.
-- The transaction pool (core/tx_pool.go) keeps for each account a list of pending and a list of
-- queued transactions, a lookup of all by hash, and a list of all by price.
--   TxPool/SortedMap, TxPool/TxList, TxPool/PricedList: txSortedMap, txList and txPricedList of
--     core/tx_list.go. TxPool/Transaction: what they read of core/types/transaction.go.
--   GoHeap: the algorithms of container/heap of Go, which the two heaps of core/tx_list.go run on.
--   TxPool/Noncer: core/tx_noncer.go, of which NoncerRuns has sequences of calls.
--   TxPool/Lookup: txLookup and accountSet of core/tx_pool.go.
--   TxPool/Pool, TxPool/Admit: validateTx, enqueueTx, promoteTx, removeTx, add, addTxsLocked, Status.
--   TxPool/Promote, TxPool/Truncate, TxPool/Reset: promoteExecutables, demoteUnexecutables, the two
--     truncations, reset and runReorg. The chain and go-ethereum's prque are records.
--   TxPool/Invariant: a pool in order. TxPool/Filed, Remove, Dropped, Enqueue, Pending, Place,
--     RemoveTx and AddTx: the operations on one transaction keep it in order.
-- The block chain (core/blockchain.go) keeps blocks by their hash, the canonical hash of each number,
-- and the head. It takes batches of blocks, of which commitBlock of the consensus gives it one.
--   Chain/Rawdb: the tables of core/rawdb. Chain/Head: the state, and writeHeadBlock. Chain/Branches,
--     Chain/Reorg: reorg and writeKnownBlock. Chain/Write: writeBlockWithState. Chain/Insert,
--     Chain/Side: insertChain, insertSideChain and InsertChain, with core/blockchain_insert.go.
--     Chain/Engine: the engine of internal/chain/sharding.go and the validator of
--     core/block_validator.go. The tries, the processor, caches and clock are the record Services. Of
--     the caches it has the one of headers, which get_header asks first; those of blocks are left out.
--   Chain/Canonical: a chain in order. Chain/Grow, Finality and Inserted: what keeps it so.
--     Chain/Ancestor: GetAncestor and GetBlockHashesFromHash of core/headerchain.go.
--     Chain/Walk, Meet, Settle and Reorged: the two branches of reorg, and what it makes of them.
-- Remove is named delete, Put insert, and the constructors new_ and the type.
--
-- The amount of a transaction is an integer with a sign, as big.Int is.
-- Hashes, keys, addresses and signatures are byte strings of a fixed length, as numbers. Numbers of
-- 64 bits keep their wrap-around where the code can reach it (before, ready_loop, promote_tx, pred64).
-- Loops that empty a heap run on its length as fuel: each round takes one element off.
-- The search for committed blocks runs on the number of messages: each round finds another one. The
-- loops of truncatePending run on the length of a list, which each round shortens, and the walk of
-- reset on the height of a block, which each parent lowers; so do the walks of the chain. InsertChain
-- within insertSideChain runs on fuel that the caller gives: how deep it goes is up to the
-- engine, and with the engine of internal/chain/sharding.go one level is enough (Chain/Ends).
-- The sifts of a heap run on the length of the slice, which is more than the depth of any index.
--
-- Not modelled: signatures, hashes, RLP and protobuf (parameters, or numbers), logging, metrics,
-- events, the journal, locks (a method holds its lock throughout), and the parts of the
-- repository that are glue or copies of go-ethereum: accounts, node, cmd, api, p2p, the writing
-- of headers alone, the start and the rewinding of the block chain, what the handlers broadcast, and
-- the channels that schedule the pool. commitBlock's FinishFinalityCount keeps a metric.
pub mod Bytes
pub mod Chain
pub mod FbftLog
pub mod GoHeap
pub mod Leader
pub mod MultiBls
pub mod Node
pub mod Prelude
pub mod Quorum
pub mod Tests
pub mod Timeout
pub mod TxPool
