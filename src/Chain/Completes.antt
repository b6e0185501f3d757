-- ===== src/Chain/Completes.antt =====
-- InsertChain of core/blockchain.go with the engine that the node runs with, as a whole: what it
-- adopts, and where it panics.
use benzene.Prelude.{
  ℕ, suc, ◌^◌, ◌<◌, ◌≡◌, refl, ap, inl, inr, none, some, Option, List, [], ◌∷◌, arith, Bool, true,
  false, Option-cases, All, ◌∙◌, if◌then◌else◌,
}
use benzene.Chain.Rawdb.{Header, Database, Block, read_block, read_header, pred64}
use benzene.Chain.Head.{InsertError, BlockChain, block_proc_event}
use benzene.Chain.Write.{Services}
use benzene.Chain.Insert.{
  Outcome, panics, verdict, skip_known, get_header, parent_header, take_block, process_all, send,
  is_contiguous,
}
use benzene.Chain.Side.{direct, insert_chain_on, insert_chain, finished}
use benzene.Chain.Engine.{verify_from, verify_from-none, with_engine}
use benzene.Chain.Canonical.{IsGood, number_next}
use benzene.Chain.Grow.{InOrder}
use benzene.Chain.Ends.{no_verdict}
use benzene.Chain.Adopts.{RunsThrough, Adopted, process_all-Adopted}

if-false : {A : Type 0} (c : Bool) (x y : A) → c ≡ false → (if c then x else y) ≡ y
if-false true x y h = cc
if-false false x y h = refl

read_block-read_header :
    (d : Database) (h n : ℕ) (b : Block)
    → read_block d h n ≡ some b
    → read_header d h n ≡ some b.header
unfolding read_block
read_block-read_header d h n b e = elim (Option-cases (read_header d h n)) [
  | inl missing ↦ ground arith
  | inr (k, found) ↦ ground arith
]

-- The number before one that is not 0.
pred64-suc : (n m : ℕ) → n ≡ suc m → n < 2 ^ 64 → pred64 n ≡ m
pred64-suc n m e l = omega arith

module _ {Q : Type 0} (lib : Services Q) (runs : RunsThrough lib) where
  abbrev verdicts : List Block → ℕ → Option InsertError
  verdicts bs = λ i. verify_from [] bs i

  insert_chain_step :
      (fuel : ℕ) (s : BlockChain Q) (b : Block) (bs : List Block)
      → is_contiguous (b ∷ bs) ≡ true
      → insert_chain (with_engine lib) (suc fuel) s (b ∷ bs)
        ≡ finished (with_engine lib) (
            process_all
              (with_engine lib)
              (verdicts (b ∷ bs))
              none
              (send (block_proc_event true) s)
              0
              none
              (b ∷ bs))
  unfolding insert_chain insert_chain_on direct skip_known with_engine
  insert_chain_step fuel s b bs linked =
      rw linked (ap (finished (with_engine lib)) (if-false lib.terminating _ _ runs.goes_on))

  stored_head :
      (names : ℕ → Block) (s : BlockChain Q)
      → InOrder names s
      → read_header s.db s.current_block.header.hash s.current_block.header.number
        ≡ some s.current_block.header
  stored_head names s v =
      let at = v.path.stored s.current_block.header.number (omega arith) in
      let here = rw v.path.at_head at at in
      read_block-read_header s.db _ _ s.current_block (rw v.path.named at here)

  found_head :
      (names : ℕ → Block) (s : BlockChain Q) (b : Block)
      → InOrder names s
      → IsGood names b
      → b.header.parent_hash ≡ s.current_block.header.hash
      → b.header.number < 2 ^ 64
      → read_header s.db b.header.parent_hash (pred64 b.header.number) ≡ some s.current_block.header
  found_head names s b v g p l =
      let next = number_next names s.db s.current_block b v.path g p in
      ap (λ h. read_header s.db h (pred64 b.header.number)) p
      ∙ ap (λ n. read_header s.db s.current_block.header.hash n)
          (pred64-suc b.header.number s.current_block.header.number next l)
      ∙ stored_head names s v

  -- The header of a parent that is stored is found, in the cache or in the database.
  found_parent :
      (results : ℕ → Option InsertError) (s : BlockChain Q) (b : Block) (h : Header)
      → read_header s.db b.header.parent_hash (pred64 b.header.number) ≡ some h
      → (p : Header) × (parent_header (with_engine lib) results s none b ≡ some p)
  unfolding parent_header get_header with_engine
  found_parent results s b h e = elim (Option-cases (lib.cached_header s b.header.parent_hash)) [
    | inl cold ↦ (h, ground (arith, cold, e))
    | inr (p, warm) ↦ (p, ground (arith, warm))
  ]

  finished-Adopted :
      (names : ℕ → Block) (s : BlockChain Q) (b : Block) (bs : List Block) (out : Outcome Q)
      → Adopted lib runs names (send (block_proc_event true) s) b bs 0 out
      → Adopted lib runs names s b bs 0 (finished (with_engine lib) out)
  finished-Adopted names s b bs out a = record {
    chain = send (block_proc_event false) a.chain;
    ends = ap (finished (with_engine lib)) a.ends;
    head = a.head;
    grows = a.grows;
  }

  -- Where nothing stops the insertion, InsertChain of good linked blocks on the head returns no error
  -- and the length of the batch, the last block is the head, the chain is in order, and what was
  -- canonical is still so.
  pub insert_chain-Adopted :
      (names : ℕ → Block) (fuel : ℕ) (s : BlockChain Q) (b : Block) (bs : List Block)
      → InOrder names s
      → All (IsGood names) (b ∷ bs)
      → is_contiguous (b ∷ bs) ≡ true
      → b.header.parent_hash ≡ s.current_block.header.hash
      → b.header.number < 2 ^ 64
      → Adopted lib runs names s b bs 0 (insert_chain (with_engine lib) (suc fuel) s (b ∷ bs))
  unfolding parent_header
  insert_chain-Adopted names fuel s b bs v good linked p l =
      let (h, found) =
        found_parent (verdicts (b ∷ bs)) (send (block_proc_event true) s) b s.current_block.header
          (found_head names s b v good.0 p l) in
      rw (insert_chain_step fuel s b bs linked) (
        finished-Adopted names s b bs _ (
          process_all-Adopted lib runs names (verdicts (b ∷ bs)) none
            (send (block_proc_event true) s) 0 none b bs h (λ i. verify_from-none [] (b ∷ bs) i) v
            good linked p found))

  process_panics :
      (results : ℕ → Option InsertError) (s : BlockChain Q) (b : Block) (bs : List Block)
      → verdict (with_engine lib) results b 0 ≡ none
      → lib.cached_header s b.header.parent_hash ≡ none
      → read_header s.db b.header.parent_hash (pred64 b.header.number) ≡ none
      → process_all (with_engine lib) results none s 0 none (b ∷ bs) ≡ panics
  unfolding process_all take_block parent_header get_header with_engine
  process_panics results s b bs fine cold missing =
      ground (arith, fine, runs.not_stopped s, runs.no_bad_hash b.header.hash, cold, missing)

  -- The engine does not look at the parent of a block: where nothing stops the insertion, InsertChain
  -- of a linked batch panics if the header that its first block names is neither in the cache of
  -- headers nor stored at the number before the block's.
  pub insert_chain-panics :
      (fuel : ℕ) (s : BlockChain Q) (b : Block) (bs : List Block)
      → is_contiguous (b ∷ bs) ≡ true
      → lib.cached_header (send (block_proc_event true) s) b.header.parent_hash ≡ none
      → read_header s.db b.header.parent_hash (pred64 b.header.number) ≡ none
      → insert_chain (with_engine lib) (suc fuel) s (b ∷ bs) ≡ panics
  insert_chain-panics fuel s b bs linked cold missing =
      insert_chain_step fuel s b bs linked
      ∙ ap (finished (with_engine lib)) (
          process_panics (verdicts (b ∷ bs)) (send (block_proc_event true) s) b bs
            (no_verdict lib (b ∷ bs) b 0) cold missing)
