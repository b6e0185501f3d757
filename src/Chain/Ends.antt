-- ===== src/Chain/Ends.antt =====
-- InsertChain of core/blockchain.go with the engine that the node runs with ends: no batch makes it
-- call itself, and no block that it writes makes it walk the branches of a reorganization.
use benzene.Prelude.{
  ℕ, suc, ◌≡◌, refl, sym, ◌∙◌, inl, inr, none, some, Option, List, [], ◌∷◌, Bool, true, false,
  Bool-cases, All, if◌then◌else◌,
}
use benzene.Chain.Rawdb.{Block}
use benzene.Chain.Head.{InsertError, known_block, BlockChain, block_proc_event}
use benzene.Chain.Write.{Services}
use benzene.Chain.Insert.{
  Outcome, returns, panics, unfinished, verdict, skip_known, send, is_contiguous,
}
use benzene.Chain.Side.{direct, insert_chain_on, insert_chain, finished}
use benzene.Chain.Engine.{verify_from, verify_from-none, with_engine, validate_body}
use benzene.Chain.Canonical.{IsGood, Extends-refl}
use benzene.Chain.Grow.{InOrder}
use benzene.Chain.Finality.{Kept, process_all-Kept}

module _ {Q : Type 0} (lib : Services Q) where
  pub no_verdict :
      (bs : List Block) (b : Block) (i : ℕ)
      → verdict (with_engine lib) (λ j. verify_from [] bs j) b i ≡ none
  unfolding verdict with_engine validate_body
  no_verdict bs b i = rw (verify_from-none [] bs i, verdict) refl

  module _ (names : ℕ → Block) where
    either-Kept :
        (c : Bool) (s : BlockChain Q) (x y : Outcome Q)
        → Kept names ⊥ s x
        → Kept names ⊥ s y
        → Kept names ⊥ s (if c then x else y)
    either-Kept true s x y k l = k
    either-Kept false s x y k l = l

    finished-Kept :
        (s : BlockChain Q) (out : Outcome Q)
        → Kept names ⊥ s out
        → Kept names ⊥ s (finished (with_engine lib) out)
    finished-Kept s (returns t i e) k = k
    finished-Kept s panics k = tt
    finished-Kept s unfinished k = k

    on_engine-Kept :
        (fuel : ℕ) (s : BlockChain Q) (b : Block) (bs : List Block)
        → InOrder names s
        → All (IsGood names) (b ∷ bs)
        → Kept names ⊥ s (insert_chain_on (with_engine lib) (suc fuel) true s (b ∷ bs))
    unfolding insert_chain_on direct skip_known with_engine
    on_engine-Kept fuel s b bs v good =
        either-Kept lib.terminating s _ _ (v, Extends-refl s.db s.current_block)
          (process_all-Kept names ⊥ (with_engine lib) (λ j. verify_from [] (b ∷ bs) j) none s 0 none
            (b ∷ bs)
            (λ c j e.
              let e' : ◌≡◌ {A = Option InsertError} none (some known_block) =
                sym (no_verdict (b ∷ bs) c j) ∙ e in
              cc)
            v good)

    -- With the node's engine, whatever the tries, the processor and the caches answer: InsertChain of
    -- good blocks on a chain in order never runs out of fuel, of which one level is enough. It returns
    -- a chain in order in which every canonical block is canonical still, or it panics.
    pub insert_chain-Ends :
        (fuel : ℕ) (s : BlockChain Q) (bs : List Block)
        → InOrder names s
        → All (IsGood names) bs
        → Kept names ⊥ s (insert_chain (with_engine lib) (suc fuel) s bs)
    unfolding insert_chain
    insert_chain-Ends fuel s [] v good = (v, Extends-refl s.db s.current_block)
    insert_chain-Ends fuel s (b ∷ bs) v good = elim (Bool-cases (is_contiguous (b ∷ bs))) [
      | inr no_chain ↦ rw no_chain (v, Extends-refl s.db s.current_block)
      | inl linked ↦
          rw linked
            (finished-Kept s _ (on_engine-Kept fuel (send (block_proc_event true) s) b bs v good))
    ]
