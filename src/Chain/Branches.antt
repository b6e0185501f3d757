-- ===== src/Chain/Branches.antt =====
-- The walks of reorg of core/blockchain.go: down two branches to where they meet, and up the numbers
-- that have a canonical hash.
use benzene.Prelude.{
  ℕ, zero, suc, Option, none, some, List, [], ◌∷◌, ◌++◌, ltb, ◌==◌, if◌then◌else◌,
}
use benzene.Chain.Rawdb.{
  Block, Database, suc64, pred64, read_canonical_hash, delete_canonical_hash, read_block,
}
use benzene.Chain.Head.{InsertError, invalid_old_chain, invalid_new_chain}

-- The block that a block names as its parent.
unfoldable pub parent_of : Database → Block → Option Block
parent_of d b = read_block d b.header.parent_hash (pred64 b.header.number)

-- A walk back to a number. The fuel is the difference of the numbers: each parent's is one less.
unfoldable pub retreat : ℕ → Database → ℕ → Block → List Block → Option (Block × List Block)
retreat zero d n b chain = some (b, chain)
retreat (suc fuel) d n b chain =
    let next : Option (Block × List Block) = elim (parent_of d b) [
      | none ↦ none
      | some p ↦ retreat fuel d n p (chain ++ (b ∷ []))
    ] in
    if b.header.number == n then some (b, chain) else next

-- Where the two branches of a reorganization meet, with the blocks of each above that.
pub data Meeting : Type 0 where
  meets : List Block → List Block → Block → Meeting
  fails : InsertError → Meeting
  unfinished : Meeting

-- Both branches step back together, from the same number.
unfoldable pub meet : ℕ → Database → Block → Block → List Block → List Block → Meeting
meet zero d old new old_chain new_chain = unfinished
meet (suc fuel) d old new old_chain new_chain =
    let next : Meeting = elim (parent_of d old) [
      | none ↦ fails invalid_old_chain
      | some old' ↦ elim (parent_of d new) [
        | none ↦ fails invalid_new_chain
        | some new' ↦ meet fuel d old' new' (old_chain ++ (old ∷ [])) (new_chain ++ (new ∷ []))
      ]
    ] in
    if old.header.hash == new.header.hash then meets old_chain new_chain old else next

-- The branches of reorg: the longer one is cut to the number of the other, then both step back.
-- They meet at number 0 at the latest.
unfoldable pub branches : Database → Block → Block → Meeting
unfolding retreat meet
branches d old new =
    let a : ℕ = old.header.number in
    let b : ℕ = new.header.number in
    if ltb b a
    then elim (retreat a d b old []) [
      | none ↦ fails invalid_old_chain
      | some (old', dropped) ↦ meet (suc a) d old' new dropped []
    ]
    else elim (retreat b d a new []) [
      | none ↦ fails invalid_new_chain
      | some (new', added) ↦ meet (suc b) d old new' [] added
    ]

-- The numbers from one on that have a canonical hash, up to the first that has none. Each has an
-- entry of its own, so that the number of entries is enough fuel.
unfoldable pub assigned_from : ℕ → Database → ℕ → List ℕ
assigned_from zero d n = []
assigned_from (suc fuel) d n =
    let rest = n ∷ assigned_from fuel d (suc64 n) in
    if read_canonical_hash d n == 0 then [] else rest

unfoldable pub delete_canonical_hashes : List ℕ → Database → Database
delete_canonical_hashes [] d = d
delete_canonical_hashes (n ∷ ns) d = delete_canonical_hashes ns (delete_canonical_hash n d)
