-- ===== src/Chain/Adopts.antt =====
-- InsertChain of core/blockchain.go with the engine that the node runs with: where nothing stops the
-- insertion it adopts every block of a batch that stands on the head.
use benzene.Prelude.{
  ℕ, suc, ◌+◌, ◌<◌, ◌≡◌, refl, ap, inl, inr, none, some, Option, List, [], ◌∷◌, arith, true, false,
  Bool-cases, All, ◌==◌, ◌∙◌, sym, subst, length,
}
use benzene.Chain.Rawdb.{Header, Block}
use benzene.Chain.Head.{InsertError, BlockChain, canon_stat, write_block_without_state}
use benzene.Chain.Write.{
  Services, finish_write, written, is_new_head, place_block, write_block_with_state,
}
use benzene.Chain.Insert.{
  Outcome, returns, announce, verdict, parent_header, after_write, execute, take_block, is_taken,
  process_all, is_contiguous,
}
use benzene.Chain.Canonical.{IsGood, number_next}
use benzene.Chain.Grow.{InOrder, Grows, Grows-later, AfterWrite, write_block_with_state-AfterWrite}
use benzene.Chain.Finality.{announce-Grows}
use benzene.Chain.Engine.{with_engine, validate_body, validate_state}

-- Nothing stops an insertion: no interrupt, no bad hash, and no error of the tries.
pub record RunsThrough {Q : Type 0} (lib : Services Q) : Type 0 where
  pub goes_on : lib.terminating ≡ false
  pub not_stopped : (s : BlockChain Q) → lib.stopped s ≡ false
  pub no_bad_hash : (h : ℕ) → lib.is_bad_hash h ≡ false
  pub opens : (root : ℕ) → lib.open_state root ≡ none
  pub runs : (h : Header) (b : Block) → lib.process h b ≡ none
  pub commits : (b : Block) → lib.commit_state b ≡ none

module _ {Q : Type 0} (lib : Services Q) (runs : RunsThrough lib) where
  -- The state after a block on the head.
  abbrev pub after_block : BlockChain Q → Block → BlockChain Q
  after_block s b =
      (finish_write (with_engine lib) b canon_stat false (write_block_without_state b s)).0

  pub writes :
      (b : Block) (s : BlockChain Q)
      → b.header.parent_hash ≡ s.current_block.header.hash
      → s.current_block.header.number < b.header.number
      → write_block_with_state (with_engine lib) b false s ≡ some (after_block s b, inl canon_stat)
  unfolding write_block_with_state place_block is_new_head written with_engine
      write_block_without_state finish_write
  writes b s p l = ground (arith, runs.commits b)

  pub takes :
      (results : ℕ → Option InsertError) (last : Option Block) (s : BlockChain Q) (i : ℕ)
      (prev : Option Header) (b : Block) (h : Header)
      → results i ≡ none
      → parent_header (with_engine lib) results s prev b ≡ some h
      → b.header.parent_hash ≡ s.current_block.header.hash
      → s.current_block.header.number < b.header.number
      → (take_block (with_engine lib) results last s i prev b ≡ inr (after_block s b, some b))
        × (is_taken (verdict (with_engine lib) results b i) ≡ true)
  unfolding take_block verdict execute after_write with_engine validate_body validate_state
  takes results last s i prev b h none_here found p l = ground (
    arith,
    runs.not_stopped s,
    runs.no_bad_hash b.header.hash,
    runs.opens h.root,
    runs.runs h b,
    writes b s p l,
    none_here,
    found,
  )

  pub process_step :
      (results : ℕ → Option InsertError) (last : Option Block) (s : BlockChain Q) (i : ℕ)
      (prev : Option Header) (b : Block) (bs : List Block) (t : BlockChain Q) (last' : Option Block)
      → take_block (with_engine lib) results last s i prev b ≡ inr (t, last')
      → is_taken (verdict (with_engine lib) results b i) ≡ true
      → process_all (with_engine lib) results last s i prev (b ∷ bs)
        ≡ process_all (with_engine lib) results last' t (suc i) (some b.header) bs
  unfolding process_all
  process_step results last s i prev b bs t last' taken goes = rw (goes, taken) refl

  pub announce-head :
      (last : Option Block) (s : BlockChain Q) → (announce last s).current_block ≡ s.current_block
  unfolding announce
  announce-head none s = refl
  announce-head (some b) s = elim (Bool-cases (s.current_block.header.hash == b.header.hash)) [
    | inl same ↦ rw same refl
    | inr other ↦ rw other refl
  ]

  linked_next :
      (b c : Block) (bs : List Block)
      → is_contiguous (b ∷ c ∷ bs) ≡ true
      → (c.header.parent_hash ≡ b.header.hash) × (is_contiguous (c ∷ bs) ≡ true)
  unfolding is_contiguous
  linked_next b c bs h = ground arith

  abbrev pub last_block : Block → List Block → Block
  last_block b [] = b
  last_block b (c ∷ bs) = last_block c bs

  -- What an insertion that adopts all leaves.
  pub record Adopted (names : ℕ → Block) (s : BlockChain Q) (b : Block) (bs : List Block) (i : ℕ)
      (out : Outcome Q) : Type 0 where
    pub chain : BlockChain Q
    pub ends : out ≡ returns chain (i + length (b ∷ bs)) none
    pub head : chain.current_block ≡ last_block b bs
    pub grows : Grows names s chain

  module _ (names : ℕ → Block) where
    after_block-Grows :
        (s : BlockChain Q) (b : Block)
        → InOrder names s
        → IsGood names b
        → b.header.parent_hash ≡ s.current_block.header.hash
        → Grows names s (after_block s b) × ((after_block s b).current_block ≡ b)
    after_block-Grows s b v g p =
        let l = number_next names s.db s.current_block b v.path g p in
        let w = write_block_with_state-AfterWrite names (with_engine lib) b false s v g in
        let e = writes b s p (omega (arith, l)) in
        let after = subst (AfterWrite names ((with_engine lib).commit_state b) s b) e w in
        (after.0, after.1)

    pub process_all-Adopted :
        (results : ℕ → Option InsertError) (last : Option Block) (s : BlockChain Q) (i : ℕ)
        (prev : Option Header) (b : Block) (bs : List Block) (h : Header)
        → ((j : ℕ) → results j ≡ none)
        → InOrder names s
        → All (IsGood names) (b ∷ bs)
        → is_contiguous (b ∷ bs) ≡ true
        → b.header.parent_hash ≡ s.current_block.header.hash
        → parent_header (with_engine lib) results s prev b ≡ some h
        → Adopted names s b bs i (process_all (with_engine lib) results last s i prev (b ∷ bs))
    unfolding parent_header process_all
    process_all-Adopted results last s i prev b [] h quiet v good linked p found =
        let (grows, now) = after_block-Grows s b v good.0 p in
        let l = number_next names s.db s.current_block b v.path good.0 p in
        let (taken, goes) = takes results last s i prev b h (quiet i) found p (omega (arith, l)) in
        record {
          chain = announce (some b) (after_block s b);
          ends =
              process_step results last s i prev b [] (after_block s b) (some b) taken goes
              ∙ ap (λ n. returns (announce (some b) (after_block s b)) n none) (omega arith);
          head = announce-head (some b) (after_block s b) ∙ now;
          grows = announce-Grows names (some b) s (after_block s b) grows;
        }
    process_all-Adopted results last s i prev b (c ∷ bs) h quiet v good linked p found =
        let (grows, now) = after_block-Grows s b v good.0 p in
        let l = number_next names s.db s.current_block b v.path good.0 p in
        let (taken, goes) = takes results last s i prev b h (quiet i) found p (omega (arith, l)) in
        let (parent, more) = linked_next b c bs linked in
        let rest =
          process_all-Adopted results (some b) (after_block s b) (suc i) (some b.header) c bs
            b.header quiet grows.0 good.1 more (parent ∙ ap (λ k. k.header.hash) (sym now)) refl in
        record {
          chain = rest.chain;
          ends =
              process_step results last s i prev b (c ∷ bs) (after_block s b) (some b) taken goes
              ∙ rest.ends
              ∙ ap (λ n. returns rest.chain n none) (omega arith);
          head = rest.head;
          grows = Grows-later names s (after_block s b) rest.chain grows.1 rest.grows;
        }
