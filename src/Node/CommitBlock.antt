-- ===== src/Node/CommitBlock.antt =====
-- commitBlock of consensus/consensus.go: the ways it ends.
use benzene.Prelude.{ℕ, ◌≤◌, ◌<◌, ◌≡◌, ◌≢◌, ◌⊎◌, true, none, some, [], ◌∷◌}
use benzene.FbftLog.{Block, FbftMessage}
use benzene.Node.Setup.{IsFresh, IsNext}
use benzene.Node.{
  Node, Services, inserted, refused, crashed, Ended, done, failed, panicked, finish_block,
}

module _ {Chain Mask : Type 0} (lib : Services Chain Mask) where
  -- The node once the chain has the block: it was there already, or the chain took it.
  abbrev pub Grown : Node Chain Mask → Block → Node Chain Mask → Type 0
  Grown s blk t =
      ((lib.current_number s.chain < blk.number)
        × (c : Chain) × (lib.insert_chain s.chain blk ≡ inserted c)
        × (t ≡ record s { chain = c }))
      ⊎ ((blk.number ≤ lib.current_number s.chain) × (t ≡ s))

  -- An error: the chain has refused the block, or there is not one sender. The message is turned
  -- down only once the chain has the block.
  abbrev pub Fails : Node Chain Mask → Block → FbftMessage → Node Chain Mask → Type 0
  Fails s blk m t =
      ((c : Chain) × (lib.current_number s.chain < blk.number)
        × (lib.insert_chain s.chain blk ≡ refused c)
        × (t ≡ record s { chain = c }))
      ⊎ (Grown s blk t × ((k : ℕ) → m.sender_pubkeys ≢ k ∷ []))

  -- A panic: of InsertChain, or of the call of PostConsensusJob where none is set.
  abbrev pub Panics : Node Chain Mask → Block → FbftMessage → Node Chain Mask → Type 0
  Panics s blk m t =
      ((lib.current_number s.chain < blk.number)
        × (lib.insert_chain s.chain blk ≡ crashed)
        × (t ≡ s))
      ⊎ (Grown s blk t × (k : ℕ) × (m.sender_pubkeys ≡ k ∷ []) × (lib.post_consensus_job ≡ none))

  -- The next round, begun by the one sender of the message after the callback has run.
  abbrev pub Begins : Node Chain Mask → Block → FbftMessage → Node Chain Mask → Type 0
  Begins s blk m t =
      (u : Node Chain Mask) × (k : ℕ) × (job : Node Chain Mask → Block → Node Chain Mask) × Grown s
        blk u
      × (m.sender_pubkeys ≡ k ∷ [])
      × (lib.post_consensus_job ≡ some job)
      × IsFresh lib t
      × ((lib.is_last_block_in_epoch blk ≡ true) ⊎ IsNext lib (job u blk) t blk k)

  abbrev pub IsEnd : Node Chain Mask → Block → FbftMessage → Node Chain Mask × Ended → Type 0
  IsEnd s blk m (t, done) = Begins s blk m t
  IsEnd s blk m (t, failed) = Fails s blk m t
  IsEnd s blk m (t, panicked) = Panics s blk m t

  -- commitBlock past its first step.
  abbrev next : Block → FbftMessage → Node Chain Mask × Ended → Node Chain Mask × Ended
  next blk m first = elim first.1 [
    | done ↦ finish_block lib first.0 blk m
    | failed ↦ (first.0, failed)
    | panicked ↦ (first.0, panicked)
  ]
