-- ===== src/Chain/Reorg.antt =====
-- reorg and writeKnownBlock of core/blockchain.go.
use benzene.Prelude.{
  ℕ, Bool, true, false, not, Option, none, some, List, [], ◌∷◌, ◌++◌, select, length, ◌==◌,
  if◌then◌else◌,
}
use benzene.Chain.Rawdb.{Block, suc64, delete_tx_lookup_entries}
use benzene.Chain.Head.{InsertError, Event, chain_side_event, BlockChain, write_head_block}
use benzene.Chain.Branches.{
  meets, fails, unfinished, branches, assigned_from, delete_canonical_hashes,
}

abbrev pub contains_hash : List ℕ → ℕ → Bool
contains_hash [] k = false
contains_hash (h ∷ hs) k = if h == k then true else contains_hash hs k

-- types.TxDifference, of hashes.
abbrev pub hash_difference : List ℕ → List ℕ → List ℕ
hash_difference a b = select (λ tx. not (contains_hash b tx)) a

abbrev pub transactions_of : List Block → List ℕ
transactions_of [] = []
transactions_of (b ∷ bs) = b.transactions ++ transactions_of bs

abbrev pub side_events : List Block → List Event
side_events [] = []
side_events (b ∷ bs) = side_events bs ++ (chain_side_event b ∷ [])

abbrev pub tail : List Block → List Block
tail [] = []
tail (b ∷ bs) = bs

module _ {Q : Type 0} where
  -- The blocks but the first, from the last one on.
  unfoldable pub write_new_chain : List Block → BlockChain Q → BlockChain Q
  write_new_chain [] s = s
  write_new_chain (b ∷ bs) s = write_head_block b (write_new_chain bs s)

  -- What reorg does with the branches that it found.
  unfoldable pub adopt : List Block → List Block → BlockChain Q → BlockChain Q
  unfolding write_new_chain
  adopt old_chain new_chain s =
      let t = write_new_chain (tail new_chain) s in
      let dropped =
        hash_difference (transactions_of old_chain) (transactions_of (tail new_chain)) in
      let above =
        assigned_from (length t.db.canonical) t.db (suc64 t.current_block.header.number) in
      record t {
        db = delete_canonical_hashes above (delete_tx_lookup_entries dropped t.db);
        events = t.events ++ side_events old_chain;
      }

  -- reorg; `none` is a walk that does not end.
  unfoldable pub reorg : Block → Block → BlockChain Q → Option (BlockChain Q × Option InsertError)
  unfolding branches adopt
  reorg old new s = elim (branches s.db old new) [
    | meets old_chain new_chain b ↦ some (adopt old_chain new_chain s, none)
    | fails e ↦ some (s, some e)
    | unfinished ↦ none
  ]

  unfoldable pub write_known_block :
      Block → BlockChain Q → Option (BlockChain Q × Option InsertError)
  unfolding reorg write_head_block
  write_known_block b s =
      let connected : BlockChain Q × Option InsertError = (write_head_block b s, none) in
      let moved : Option (BlockChain Q × Option InsertError) = elim (reorg s.current_block b s) [
        | none ↦ none
        | some (t, some e) ↦ some (t, some e)
        | some (t, none) ↦ some (write_head_block b t, none)
      ] in
      if b.header.parent_hash == s.current_block.header.hash then some connected else moved
