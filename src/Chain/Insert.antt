-- ===== src/Chain/Insert.antt =====
-- InsertChain of core/blockchain.go with the iterator of core/blockchain_insert.go. The iterator is
-- the index of the current block, the header before it, and the blocks from the current one on. The
-- statistics, the prefetcher and the timers are left out. The second loop of insertChain over known
-- blocks is left out too: the first one has passed over all of them.
use benzene.Prelude.{
  ℕ, suc, Bool, true, false, ◌&&◌, ◌||◌, Option, none, some, List, [], ◌∷◌, ◌++◌, ◌==◌,
  if◌then◌else◌, ◌⊎◌, inl, inr,
}
use benzene.Chain.Rawdb.{Header, Block, suc64, pred64, read_header}
use benzene.Chain.Head.{
  InsertError, known_block, pruned_ancestor, future_block, unknown_ancestor, blacklisted_hash,
  canon_stat, non_stat, side_stat, chain_head_event, Event, BlockChain,
}
use benzene.Chain.Reorg.{write_known_block}
use benzene.Chain.Write.{Services, Written, write_block_with_state, add_future_block, report_block}

abbrev pub is_known : Option InsertError → Bool
is_known (some known_block) = true
is_known e = false

abbrev pub is_unknown : Option InsertError → Bool
is_unknown (some unknown_ancestor) = true
is_unknown e = false

abbrev pub is_future : Option InsertError → Bool
is_future (some future_block) = true
is_future e = false

abbrev pub is_pruned : Option InsertError → Bool
is_pruned (some pruned_ancestor) = true
is_pruned e = false

-- The errors at which the loop over the blocks goes on.
abbrev pub is_taken : Option InsertError → Bool
is_taken none = true
is_taken (some known_block) = true
is_taken (some e) = false

-- An insertion that returns the chain, an index and an error; one that reads a nil value; and a
-- chain of insertions within one another that is longer than the fuel.
pub data Outcome (Q : Type 0) : Type 0 where
  returns : BlockChain Q → ℕ → Option InsertError → Outcome Q
  panics unfinished : Outcome Q

-- Each block is one number on from the one before, and names it as its parent.
unfoldable pub is_contiguous : List Block → Bool
is_contiguous [] = true
is_contiguous (b ∷ []) = true
is_contiguous (b ∷ c ∷ bs) =
    c.header.number == suc64 b.header.number
    && c.header.parent_hash == b.header.hash
    && is_contiguous (c ∷ bs)

module _ {Q : Type 0} where
  abbrev pub send : Event → BlockChain Q → BlockChain Q
  send e s = record s { events = s.events ++ (e ∷ []) }

  -- The event that insertChain defers: the last canonical block, if it is the head.
  unfoldable pub announce : Option Block → BlockChain Q → BlockChain Q
  announce none s = s
  announce (some b) s =
      if s.current_block.header.hash == b.header.hash then send (chain_head_event b) s else s

module _ {Q : Type 0} (lib : Services Q) (results : ℕ → Option InsertError) where
  -- The error that the iterator gives with a block.
  unfoldable pub verdict : Block → ℕ → Option InsertError
  verdict b i = elim (results i) [ some e ↦ some e | none ↦ lib.validate_body b ]

  -- The known blocks at the front are passed over.
  unfoldable pub skip_known : ℕ → Option Header → List Block → ℕ × Option Header × List Block
  unfolding verdict
  skip_known i prev [] = (i, prev, [])
  skip_known i prev (b ∷ bs) =
      let rest = skip_known (suc i) (some b.header) bs in
      if is_known (verdict b i) then rest else (i, prev, b ∷ bs)

  -- Blocks for the queue: the first of the batch, and those whose parent is not known. After a loop
  -- that has come to a future block the index is not 0.
  unfoldable pub queue_all : Option Block → BlockChain Q → ℕ → List Block → Outcome Q
  unfolding verdict announce
  queue_all last s i [] = returns (announce last s) i none
  queue_all last s i (b ∷ bs) =
      let (t, refused) = add_future_block lib b s in
      let next : Outcome Q = elim refused [
        | some e ↦ returns (announce last t) i (some e)
        | none ↦ queue_all last t (suc i) bs
      ] in
      if i == 0 || is_unknown (verdict b i) then next else returns (announce last s) i (verdict b i)

  -- The end of insertChain, at a block that is not processed.
  unfoldable pub queue_rest : Option Block → BlockChain Q → ℕ → Block → List Block → Outcome Q
  unfolding verdict announce queue_all
  queue_rest last s i b bs =
      let (t, refused) = add_future_block lib b s in
      let queued : Outcome Q = elim refused [
        | some e ↦ returns (announce last t) i (some e)
        | none ↦ queue_all last t (suc i) bs
      ] in
      if is_future (verdict b i) then queued else returns (announce last s) i (verdict b i)

  -- GetHeader: what the cache of headers has under the hash, whatever the number is, or the database.
  unfoldable pub get_header : BlockChain Q → ℕ → ℕ → Option Header
  get_header s hash number = elim (lib.cached_header s hash) [
    | some h ↦ some h
    | none ↦ read_header s.db hash number
  ]

  -- The header on whose state a block runs.
  unfoldable pub parent_header : BlockChain Q → Option Header → Block → Option Header
  unfolding get_header
  parent_header s (some h) b = some h
  parent_header s none b = get_header s b.header.parent_hash (pred64 b.header.number)

  -- What the loop does with the result of writeBlockWithState.
  unfoldable pub after_write :
      Option Block → ℕ → Block → Option (Written lib) → Outcome Q ⊎ (BlockChain Q × Option Block)
  unfolding announce
  after_write last i b none = inl unfinished
  after_write last i b (some (t, inr e)) = inl (returns (announce last t) i (some e))
  after_write last i b (some (t, inl canon_stat)) = inr (t, some b)
  after_write last i b (some (t, inl side_stat)) = inr (t, last)
  after_write last i b (some (t, inl non_stat)) = inr (t, last)

  -- One block that is not known: `inl` is the end of the insertion, `inr` goes on.
  unfoldable pub execute :
      Option Block → BlockChain Q → ℕ → Header → Block → Outcome Q ⊎ (BlockChain Q × Option Block)
  unfolding announce after_write
  execute last s i parent b =
      let bad = λ (e : InsertError). returns (announce last (report_block lib b s)) i (some e) in
      elim (lib.open_state parent.root) [
        | some e ↦ inl (returns (announce last s) i (some e))
        | none ↦ elim (lib.process parent b) [
          | some e ↦ inl (bad e)
          | none ↦ elim (lib.validate_state b) [
            | some e ↦ inl (bad e)
            | none ↦ after_write last i b (write_block_with_state lib b false s)
          ]
        ]
      ]

  -- What the loop does with the result of writeKnownBlock.
  unfoldable pub after_known :
      Option Block
      → ℕ
      → Block
      → Option (BlockChain Q × Option InsertError)
      → Outcome Q ⊎ (BlockChain Q × Option Block)
  unfolding announce
  after_known last i b none = inl unfinished
  after_known last i b (some (t, some e)) = inl (returns (announce last t) i (some e))
  after_known last i b (some (t, none)) = inr (t, some b)

  -- The body of the loop over the blocks, up to where the next one is taken.
  unfoldable pub take_block :
      Option Block
      → BlockChain Q
      → ℕ
      → Option Header
      → Block
      → Outcome Q ⊎ (BlockChain Q × Option Block)
  unfolding announce after_known execute parent_header verdict
  take_block last s i prev b =
      let known = after_known last i b (write_known_block b s) in
      let fresh : Outcome Q ⊎ (BlockChain Q × Option Block) = elim (parent_header s prev b) [
        | none ↦ inl panics
        | some parent ↦ execute last s i parent b
      ] in
      if lib.stopped s
      then inl (returns (announce last s) i (verdict b i))
      else if lib.is_bad_hash b.header.hash
      then inl (returns (announce last (report_block lib b s)) i (some blacklisted_hash))
      else if is_known (verdict b i)
      then known
      else fresh

  -- The loop over the blocks.
  unfoldable pub process_all :
      Option Block → BlockChain Q → ℕ → Option Header → List Block → Outcome Q
  process_all last s i prev [] = returns (announce last s) i none
  process_all last s i prev (b ∷ bs) =
      let next : Outcome Q = elim (take_block last s i prev b) [
        | inl out ↦ out
        | inr (t, last') ↦ process_all last' t (suc i) (some b.header) bs
      ] in
      if is_taken (verdict b i) then next else queue_rest last s i b bs
