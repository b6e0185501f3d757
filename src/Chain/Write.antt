-- ===== src/Chain/Write.antt =====
-- writeBlockWithState of core/blockchain.go. State tries, the engine, the clock and the random
-- numbers are the record Services.
use benzene.Prelude.{
  ℕ, ◌+◌, Bool, true, false, not, ◌&&◌, ◌||◌, Option, none, some, List, [], ◌∷◌, ◌++◌, ltb, ◌==◌,
  if◌then◌else◌, ◌⊎◌, inl, inr,
}
use benzene.Chain.Rawdb.{Header, Block}
use benzene.Chain.Head.{
  InsertError, parent_mismatch, far_future, WriteStatus, canon_stat, side_stat, chain_event,
  chain_head_event, chain_side_event, BlockChain, write_head_block, write_block_without_state,
}
use benzene.Chain.Reorg.{reorg}

pub record Services (Q : Type 0) : Type 0 where
  pub cache_add : ℕ → Block → Q → Q
  pub cache_remove : ℕ → Q → Q
  pub cache_contains : ℕ → Q → Bool
  -- The header that the cache of headers, which drops the oldest ones, has under a hash.
  pub cached_header : BlockChain Q → ℕ → Option Header
  -- The result that the engine delivers for a block of a batch, by its index.
  pub verify_headers : BlockChain Q → List Block → Bool → ℕ → Option InsertError
  pub validate_body : Block → Option InsertError
  -- The interrupt, at the start of an insertion and later.
  pub terminating : Bool
  pub stopped : BlockChain Q → Bool
  pub is_bad_hash : ℕ → Bool
  pub now : ℕ
  -- The state of a root, the run of a block on it, and its commit to the tries.
  pub open_state : ℕ → Option InsertError
  pub process : Header → Block → Option InsertError
  pub validate_state : Block → Option InsertError
  pub commit_state : Block → Option InsertError
  pub has_state : BlockChain Q → ℕ → Bool
  pub block_size : Block → ℕ
  pub should_preserve : Option (Block → Bool)
  pub coin : Block → Bool

-- shouldPreserve, where it is set.
abbrev pub preserves : Option (Block → Bool) → Block → Bool
preserves none b = false
preserves (some f) b = f b

module _ {Q : Type 0} (lib : Services Q) where
  -- Is the block the new head? It is one number on, or further back, or wins a draw.
  unfoldable pub is_new_head : Block → Block → Bool
  is_new_head b current =
      if ltb current.header.number b.header.number
      then true
      else if ltb b.header.number current.header.number
      then true
      else if b.header.number == current.header.number
      then not (preserves lib.should_preserve current)
        && (preserves lib.should_preserve b || lib.coin b)
      else false

  -- The end of writeBlockWithState, with the status.
  unfoldable pub finish_write :
      Block → WriteStatus → Bool → BlockChain Q → BlockChain Q × WriteStatus
  unfolding write_head_block
  finish_write b canon_stat emit s =
      let t = write_head_block b s in
      let head_events = if emit then chain_head_event b ∷ [] else [] in
      (
        record t {
          future_blocks = lib.cache_remove b.header.hash t.future_blocks;
          events = t.events ++ (chain_event b ∷ head_events);
        },
        canon_stat,
      )
  finish_write b status emit s = (
    record s {
      future_blocks = lib.cache_remove b.header.hash s.future_blocks;
      events = s.events ++ (chain_side_event b ∷ []);
    },
    status,
  )

  -- What writeBlockWithState gives back: an error is written as `inr`.
  abbrev pub Written : Type 0
  Written = BlockChain Q × (WriteStatus ⊎ InsertError)

  unfoldable pub written : BlockChain Q × WriteStatus → Written
  written (s, status) = (s, inl status)

  -- The choice between the head and a side block.
  unfoldable pub place_block : Block → Bool → BlockChain Q → Option Written
  unfolding is_new_head finish_write reorg written
  place_block b emit s =
      let direct = written (finish_write b canon_stat emit s) in
      let moved : Option Written = elim (reorg s.current_block b s) [
        | none ↦ none
        | some (t, some e) ↦ some (t, inr e)
        | some (t, none) ↦ some (written (finish_write b canon_stat emit t))
      ] in
      if is_new_head b s.current_block
      then if b.header.parent_hash == s.current_block.header.hash then some direct else moved
      else some (written (finish_write b side_stat emit s))

  -- writeBlockWithState. The garbage collection of tries is left out.
  unfoldable pub write_block_with_state : Block → Bool → BlockChain Q → Option Written
  unfolding place_block write_block_without_state
  write_block_with_state b emit s =
      let t = write_block_without_state b s in
      let committed : Option Written = elim (lib.commit_state b) [
        | some e ↦ some (t, inr e)
        | none ↦ place_block b emit t
      ] in
      if b.header.parent_hash == s.current_block.header.hash
      then committed
      else some (s, inr parent_mismatch)

  -- addFutureBlock
  unfoldable pub add_future_block : Block → BlockChain Q → BlockChain Q × Option InsertError
  add_future_block b s =
      if ltb (lib.now + 30) b.header.time
      then (s, some far_future)
      else (record s { future_blocks = lib.cache_add b.header.hash b s.future_blocks }, none)

  -- reportBlock, without the log.
  unfoldable pub report_block : Block → BlockChain Q → BlockChain Q
  report_block b s = record s { bad_blocks = lib.cache_add b.header.hash b s.bad_blocks }
