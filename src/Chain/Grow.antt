-- ===== src/Chain/Grow.antt =====
-- writeBlockWithState of core/blockchain.go keeps the chain in order, and what was canonical stays so.
use benzene.Prelude.{
  ℕ, suc, ◌≡◌, ◌≢◌, refl, ◌⊎◌, inl, inr, none, some, arith, Bool, true, false, Bool-cases,
  Option-cases, ◌==◌, ==_iff, Option,
}
use benzene.Chain.Rawdb.{Block, read_canonical_hash, read_block, write_block}
use benzene.Chain.Head.{
  BlockChain, canon_stat, write_head_block, set_current_header, force_heads,
  write_block_without_state, InsertError, WriteStatus, parent_mismatch,
}
use benzene.Chain.Write.{
  Services, is_new_head, finish_write, written, place_block, write_block_with_state,
}
use benzene.Chain.Tables.{read_block-write_block}
use benzene.Chain.Canonical.{
  IsGood, IsChain, Extends, Extends-refl, Extends-trans, head_tables-IsChain, write_block-IsChain,
  number_next, head_header-IsChain, write_block-Extends,
}

module _ {Q : Type 0} (names : ℕ → Block) where
  abbrev pub InOrder : BlockChain Q → Type 0
  InOrder s = IsChain names s.db s.current_block

  -- The chain is in order, and what was canonical is still so.
  abbrev pub Grows : BlockChain Q → BlockChain Q → Type 0
  Grows s t = InOrder t × Extends s.db s.current_block t.db t.current_block

  force_heads-Grows :
      (u : Bool) (b c : Block) (s t : BlockChain Q)
      → IsChain names t.db c × Extends s.db s.current_block t.db c
      → IsChain names (force_heads u b t).db c
        × Extends s.db s.current_block (force_heads u b t).db c
  unfolding force_heads set_current_header read_canonical_hash
  force_heads-Grows true b c s t (v, x) = (
    head_header-IsChain names t.db c b.header.hash v,
    record { grows = x.grows; keeps = x.keeps },
  )
  force_heads-Grows false b c s t g = g

  -- A good block on the head that is stored becomes the head.
  pub write_head_block-Grows :
      (b : Block) (s : BlockChain Q)
      → InOrder s
      → IsGood names b
      → b.header.parent_hash ≡ s.current_block.header.hash
      → read_block s.db b.header.hash b.header.number ≡ some b
      → Grows s (write_head_block b s)
  unfolding write_head_block
  write_head_block-Grows b s v g p r =
      force_heads-Grows _ b b s _ (head_tables-IsChain names s.db s.current_block b v g p r)

  -- Why a block is not written on the head: its parent is another block, or its state, of which
  -- `committed` is the error, is not committed.
  abbrev pub IsTurnedDown : Option InsertError → BlockChain Q → Block → InsertError → Type 0
  IsTurnedDown committed s b e =
      ((b.header.parent_hash ≢ s.current_block.header.hash) × (e ≡ parent_mismatch))
      ⊎ ((b.header.parent_hash ≡ s.current_block.header.hash) × (committed ≡ some e))

  -- What writeBlockWithState leaves: the block on top where its parent is the head and its state is
  -- committed, or else the head as it was and the reason.
  abbrev pub AfterWrite :
      Option InsertError
      → BlockChain Q
      → Block
      → Option (BlockChain Q × (WriteStatus ⊎ InsertError))
      → Type 0
  AfterWrite committed s b none = ⊥
  AfterWrite committed s b (some (t, inl status)) =
      Grows s t
      × (t.current_block ≡ b)
      × (b.header.parent_hash ≡ s.current_block.header.hash)
      × (committed ≡ none)
      × (status ≡ canon_stat)
  AfterWrite committed s b (some (t, inr e)) =
      Grows s t × (t.current_block ≡ s.current_block) × IsTurnedDown committed s b e

  -- The block is written under its hash.
  stored :
      (b : Block) (s : BlockChain Q)
      → read_block (write_block b s.db) b.header.hash b.header.number ≡ some b
  stored b s = ground (arith, read_block-write_block b s.db b.header.hash b.header.number)

  pub Grows-later :
      (s t u : BlockChain Q)
      → Extends s.db s.current_block t.db t.current_block
      → Grows t u
      → Grows s u
  Grows-later s t u x (v, y) = (v, Extends-trans x y)

  head_now : (b : Block) (s : BlockChain Q) → (write_head_block b s).current_block ≡ b
  unfolding write_head_block
  head_now b s = refl

  module _ (lib : Services Q) where
    placed :
        (b : Block) (emit : Bool) (s : BlockChain Q)
        → b.header.number ≡ suc s.current_block.header.number
        → b.header.parent_hash ≡ s.current_block.header.hash
        → place_block lib b emit s ≡ some (written lib (finish_write lib b canon_stat emit s))
    unfolding place_block is_new_head
    placed b emit s num par = ground arith

    -- Of a good block on a chain in order, whatever the libraries answer: writeBlockWithState ends,
    -- and keeps the chain in order and all that was canonical. Either its parent is the head and its
    -- state is committed, and the block is the head then and its status canonical; or the head stays,
    -- and the error is parent_mismatch where the parent is not the head, and the error of the commit
    -- where it is.
    pub write_block_with_state-AfterWrite :
        (b : Block) (emit : Bool) (s : BlockChain Q)
        → InOrder s
        → IsGood names b
        → AfterWrite (lib.commit_state b) s b (write_block_with_state lib b emit s)
    unfolding write_block_with_state write_block_without_state written finish_write
    write_block_with_state-AfterWrite b emit s v g =
        elim (Bool-cases (b.header.parent_hash == s.current_block.header.hash)) [
          | inl on_head ↦
              let p = (==_iff b.header.parent_hash s.current_block.header.hash).0 on_head in
              let t : BlockChain Q = record s { db = write_block b s.db } in
              let w = write_block-IsChain names s.db s.current_block b v g in
              let num = number_next names s.db s.current_block b v.path g p in
              let same = write_block-Extends b s.db s.current_block in
              rw on_head (elim (Option-cases (lib.commit_state b)) [
                | inl fine ↦
                    rw (fine, placed b emit t num p)
                      (
                        Grows-later s t (write_head_block b t) same
                            (write_head_block-Grows b t w g p (stored b s)),
                        head_now b t,
                        p,
                        refl,
                        refl,
                      )
                | inr (err, e) ↦ rw e ((w, same), refl, inr (p, refl))
              ])
          | inr off ↦
              let apart : b.header.parent_hash ≢ s.current_block.header.hash =
                λ e. ground (arith, e, off) in
              rw off ((v, Extends-refl s.db s.current_block), refl, inl (apart, refl))
        ]
