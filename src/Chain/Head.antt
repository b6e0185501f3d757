-- ===== src/Chain/Head.antt =====
-- The state of the chain, and writeHeadBlock of core/blockchain.go. The cache of headers is a
-- parameter, which get_header asks; the caches of blocks are left out. The queue of future blocks and
-- the list of bad blocks are caches of a library, of type Q.
use benzene.Prelude.{ℕ, Bool, true, false, not, List, ◌==◌, if◌then◌else◌}
use benzene.Chain.Rawdb.{
  Header, Block, Database, read_canonical_hash, write_canonical_hash, write_tx_lookup_entries,
  write_block,
}

pub data InsertError : Type 0 where
  known_block pruned_ancestor future_block unknown_ancestor : InsertError
  parent_mismatch invalid_old_chain invalid_new_chain : InsertError
  non_contiguous blacklisted_hash far_future ghost_state missing_parent : InsertError
  other : ℕ → InsertError

pub data WriteStatus : Type 0 where
  non_stat canon_stat side_stat : WriteStatus

pub data Event : Type 0 where
  chain_event chain_head_event chain_side_event : Block → Event
  block_proc_event : Bool → Event

pub record BlockChain (Q : Type 0) : Type 0 where
  pub db : Database
  pub current_block : Block
  pub current_fast_block : Block
  -- The head of the header chain, and its hash.
  pub current_header : Header
  pub current_header_hash : ℕ
  pub future_blocks : Q
  pub bad_blocks : Q
  pub events : List Event

-- The batch of writeHeadBlock.
unfoldable pub head_tables : Block → Database → Database
head_tables b d =
    let update_heads = not (read_canonical_hash d b.header.number == b.header.hash) in
    let e =
      write_tx_lookup_entries b.header.number b.transactions
        (write_canonical_hash b.header.hash b.header.number d) in
    record e {
      head_block = b.header.hash;
      head_header = if update_heads then b.header.hash else e.head_header;
      head_fast_block = if update_heads then b.header.hash else e.head_fast_block;
    }

module _ {Q : Type 0} where
  -- HeaderChain.SetCurrentHeader
  unfoldable pub set_current_header : Header → BlockChain Q → BlockChain Q
  set_current_header h s = record s {
    db = record s.db { head_header = h.hash };
    current_header = h;
    current_header_hash = h.hash;
  }

  -- The markers in memory, where the heads are forced onto a block.
  unfoldable pub force_heads : Bool → Block → BlockChain Q → BlockChain Q
  unfolding set_current_header
  force_heads true b s = record (set_current_header b.header s) { current_fast_block = b }
  force_heads false b s = s

  unfoldable pub write_head_block : Block → BlockChain Q → BlockChain Q
  write_head_block b s =
      let update_heads = not (read_canonical_hash s.db b.header.number == b.header.hash) in
      record (force_heads update_heads b (record s { db = head_tables b s.db })) {
        current_block = b;
      }

  unfoldable pub write_block_without_state : Block → BlockChain Q → BlockChain Q
  write_block_without_state b s = record s { db = write_block b s.db }
