-- ===== src/Chain/Side.antt =====
-- insertSideChain, insertChain and InsertChain of core/blockchain.go. insertSideChain calls
-- insertChain again, on the blocks whose state is missing: how deep is up to the engine, and so the
-- calls within one another run on fuel.
use benzene.Prelude.{
  ℕ, zero, suc, ◌+◌, ◌*◌, Bool, true, false, ◌&&◌, ◌||◌, Option, none, some, List, [], ◌∷◌, ◌++◌,
  has, length, ltb, leb, ◌==◌, if◌then◌else◌,
}
use benzene.Chain.Rawdb.{Header, Block, pred64, read_canonical_hash, read_header, read_block}
use benzene.Chain.Head.{
  InsertError, non_contiguous, ghost_state, missing_parent, block_proc_event, BlockChain,
  write_block_without_state,
}
use benzene.Chain.Write.{Services, report_block}
use benzene.Chain.Insert.{
  Outcome, returns, panics, unfinished, is_pruned, is_future, is_unknown, is_contiguous, send,
  verdict, skip_known, queue_all, process_all,
}

-- What a canonical block says of a side block at its number.
pub data Sight : Type 0 where
  same ghost new : Sight

abbrev pub is_none : Option InsertError → Bool
is_none none = true
is_none (some e) = false

abbrev pub is_ghost : Sight → Bool
is_ghost ghost = true
is_ghost seen = false

module _ {Q : Type 0} where
  -- GetBlockByNumber
  unfoldable pub get_block_by_number : BlockChain Q → ℕ → Option Block
  get_block_by_number s n =
      let hash = read_canonical_hash s.db n in if hash == 0 then none else read_block s.db hash n

  unfoldable pub has_block : BlockChain Q → Block → Bool
  has_block s b = has b.header.hash s.db.bodies

  unfoldable pub sight : BlockChain Q → Block → Block → Sight
  unfolding get_block_by_number
  sight s current b =
      let compared : Sight = elim (get_block_by_number s b.header.number) [
        | none ↦ new
        | some c ↦
            if c.header.hash == b.header.hash
            then same
            else if c.header.root == b.header.root
            then ghost
            else new
      ] in
      if leb b.header.number current.header.number then compared else new

  -- A new block of a side chain is written, unless the database has it.
  unfoldable pub write_side : Sight → BlockChain Q → Block → BlockChain Q
  write_side new s b = if has_block s b then s else write_block_without_state b s
  write_side same s b = s
  write_side ghost s b = s

  -- The headers without a state from a header back, the first one in front, on what they stand. The
  -- fuel is the number of the header: each parent's is one less.
  unfoldable pub gather :
      (BlockChain Q → ℕ → Bool)
      → ℕ
      → BlockChain Q
      → Header
      → List Header
      → Option (Option Header × List Header)
  gather has_state zero s h acc = none
  gather has_state (suc fuel) s h acc =
      let next : Option (Option Header × List Header) =
        elim (read_header s.db h.parent_hash (pred64 h.number)) [
          | none ↦ some (none, h ∷ acc)
          | some p ↦ gather has_state fuel s p (h ∷ acc)
        ] in
      if has_state s h.root then some (some h, acc) else next

module _ {Q : Type 0} (lib : Services Q) where
  -- The loop of insertSideChain over the blocks whose ancestors are pruned: it writes them without
  -- their state. The last part is an error that ends the insertion.
  unfoldable pub write_sides :
      (ℕ → Option InsertError)
      → Block
      → BlockChain Q
      → ℕ
      → Option Header
      → List Block
      → BlockChain Q × ℕ × Option Header × Option InsertError
  write_sides results current s i prev [] = (s, i, prev, none)
  write_sides results current s i prev (b ∷ bs) =
      let seen = sight s current b in
      let next = write_sides results current (write_side seen s b) (suc i) (some b.header) bs in
      let side = if is_ghost seen then (s, i, prev, some ghost_state) else next in
      if is_pruned (verdict lib results b i) then side else (s, i, prev, none)

  -- What is left at the end of insertSideChain. `insert` is insertChain.
  unfoldable pub import_last :
      (BlockChain Q → List Block → Outcome Q) → BlockChain Q → List Block → Outcome Q
  import_last insert s [] = returns s 0 none
  import_last insert s (b ∷ batch) = insert s (b ∷ batch)

  -- What follows an insertion in the middle.
  unfoldable pub after_batch : (BlockChain Q → Outcome Q) → Outcome Q → Outcome Q
  after_batch next (returns t i (some e)) = returns t 0 (some e)
  after_batch next (returns t i none) = if lib.stopped t then returns t 0 none else next t
  after_batch next panics = panics
  after_batch next unfinished = unfinished

  -- The blocks whose state is missing are inserted in parts of 2048 blocks or 64 MB.
  unfoldable pub import_all :
      (BlockChain Q → List Block → Outcome Q)
      → BlockChain Q
      → List Block
      → ℕ
      → List Header
      → Outcome Q
  import_all insert s batch memory [] = import_last insert s batch
  import_all insert s batch memory (h ∷ hs) = elim (read_block s.db h.hash h.number) [
    | none ↦ panics
    | some b ↦
        let batch' = batch ++ (b ∷ []) in
        let memory' = memory + lib.block_size b in
        let flushed = after_batch (λ t. import_all insert t [] 0 hs) (insert s batch') in
        let next = import_all insert s batch' memory' hs in
        if leb 2048 (length batch') || ltb (64 * 1024 * 1024) memory' then flushed else next
  ]

  -- What insertSideChain does with the headers that it gathers.
  unfoldable pub import_gathered :
      (BlockChain Q → List Block → Outcome Q)
      → BlockChain Q
      → ℕ
      → Option (Option Header × List Header)
      → Outcome Q
  import_gathered insert t i none = unfinished
  import_gathered insert t i (some (none, hs)) = returns t i (some missing_parent)
  import_gathered insert t i (some (some h, hs)) = import_all insert t [] 0 hs

  -- Its part behind the first loop.
  unfoldable pub after_sides :
      (BlockChain Q → List Block → Outcome Q)
      → BlockChain Q × ℕ × Option Header × Option InsertError
      → Outcome Q
  after_sides insert (t, i, last, some e) = returns t i (some e)
  after_sides insert (t, i, none, none) = returns t i (some missing_parent)
  after_sides insert (t, i, some h, none) =
      import_gathered insert t i (gather lib.has_state (suc h.number) t h [])

  -- insertSideChain, from a block with a pruned ancestor on.
  unfoldable pub insert_side_chain :
      (BlockChain Q → List Block → Outcome Q)
      → (ℕ → Option InsertError)
      → BlockChain Q
      → ℕ
      → Option Header
      → List Block
      → Outcome Q
  insert_side_chain insert results s i prev bs =
      after_sides insert (write_sides results s.current_block s i prev bs)

  -- What insertChain does from the first block on that is not known.
  unfoldable pub direct :
      (BlockChain Q → List Block → Outcome Q)
      → (ℕ → Option InsertError)
      → ℕ
      → BlockChain Q
      → ℕ
      → Option Header
      → List Block
      → Outcome Q
  direct insert results first_parent s i prev [] = process_all lib results none s i prev []
  direct insert results first_parent s i prev (b ∷ bs) =
      let queued = queue_all lib results none s i (b ∷ bs) in
      let failed =
        returns
          (report_block lib b
            (record s { future_blocks = lib.cache_remove b.header.hash s.future_blocks }))
          i (verdict lib results b i) in
      if is_pruned (verdict lib results b i)
      then insert_side_chain insert results s i prev (b ∷ bs)
      else if is_future (verdict lib results b i)
          || is_unknown (verdict lib results b i) && lib.cache_contains first_parent s.future_blocks
      then queued
      else if is_none (verdict lib results b i)
      then process_all lib results none s i prev (b ∷ bs)
      else failed

  abbrev pub parent_of_first : List Block → ℕ
  parent_of_first [] = 0
  parent_of_first (b ∷ bs) = b.header.parent_hash

  -- insertChain
  unfoldable pub insert_chain_on : ℕ → Bool → BlockChain Q → List Block → Outcome Q
  insert_chain_on zero verify_seals s chain = unfinished
  insert_chain_on (suc fuel) verify_seals s chain =
      let results = lib.verify_headers s chain verify_seals in
      let (i, prev, bs) = skip_known lib results 0 none chain in
      let out = direct (insert_chain_on fuel false) results (parent_of_first chain) s i prev bs in
      if lib.terminating then returns s 0 none else out

  -- The event that InsertChain sends when it is done.
  abbrev pub finished : Outcome Q → Outcome Q
  finished (returns s i e) = returns (send (block_proc_event false) s) i e
  finished panics = panics
  finished unfinished = unfinished

  -- InsertChain
  unfoldable pub insert_chain : ℕ → BlockChain Q → List Block → Outcome Q
  insert_chain fuel s [] = returns s 0 none
  insert_chain fuel s (b ∷ bs) =
      let t = send (block_proc_event true) s in
      if is_contiguous (b ∷ bs)
      then finished (insert_chain_on fuel true t (b ∷ bs))
      else finished (returns t 0 (some non_contiguous))
