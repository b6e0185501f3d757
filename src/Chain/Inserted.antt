-- ===== src/Chain/Inserted.antt =====
-- insertSideChain, insertChain and InsertChain of core/blockchain.go: the chain stays in order, and no
-- canonical block is replaced.
use benzene.Prelude.{
  ℕ, zero, suc, ◌≢◌, inl, inr, none, some, Option, List, [], ◌∷◌, ◌++◌, Bool, true, false,
  Bool-cases, Option-cases, All, subst, leb, ltb, length, ◌+◌, ◌*◌, ◌||◌, if◌then◌else◌, ◌&&◌,
}
use benzene.Chain.Rawdb.{Header, Block, read_block}
use benzene.Chain.Head.{
  InsertError, known_block, BlockChain, write_block_without_state, block_proc_event,
}
use benzene.Chain.Write.{Services, report_block}
use benzene.Chain.Insert.{
  Outcome, returns, panics, unfinished, is_known, is_pruned, is_future, is_unknown, verdict,
  skip_known, is_contiguous, send,
}
use benzene.Chain.Side.{
  Sight, same, ghost, new, sight, is_ghost, write_side, has_block, gather, write_sides, import_last,
  import_all, after_batch, insert_side_chain, import_gathered, after_sides, is_none, direct,
  parent_of_first, insert_chain_on, finished, insert_chain,
}
use benzene.Chain.Canonical.{IsGood, Extends-refl, write_block-IsChain, write_block-Extends}
use benzene.Chain.Grow.{InOrder, Grows, Grows-later}
use benzene.Chain.Finality.{Kept, Kept-later, queue_all-Kept, process_all-Kept}

All-snoc :
    (P : Block → Type 0) (bs : List Block) (b : Block) → All P bs → P b → All P (bs ++ (b ∷ []))
All-snoc P [] b h p = (p, tt)
All-snoc P (c ∷ bs) b h p = (h.0, All-snoc P bs b h.1 p)

module _ {Q : Type 0} (names : ℕ → Block) (lib : Services Q) where
  if-Kept :
      (s : BlockChain Q) (c : Bool) (x y : Outcome Q)
      → Kept names Unit s x
      → Kept names Unit s y
      → Kept names Unit s (if c then x else y)
  if-Kept s true x y k l = k
  if-Kept s false x y k l = l

  skip_known-All :
      (results : ℕ → Option InsertError) (i : ℕ) (prev : Option Header) (bs : List Block)
      → All (IsGood names) bs
      → All (IsGood names) (skip_known lib results i prev bs).2
  unfolding skip_known
  skip_known-All results i prev [] good = tt
  skip_known-All results i prev (b ∷ bs) good =
      elim (Bool-cases (is_known (verdict lib results b i))) [
        | inl known ↦ rw known (skip_known-All results (suc i) (some b.header) bs good.1)
        | inr other ↦ rw other good
      ]

  written-Grows :
      (s : BlockChain Q) (b : Block)
      → InOrder names s
      → IsGood names b
      → Grows names s (write_block_without_state b s)
  unfolding write_block_without_state
  written-Grows s b v g = (
    write_block-IsChain names s.db s.current_block b v g,
    write_block-Extends b s.db s.current_block,
  )

  write_side-Grows :
      (seen : Sight) (s : BlockChain Q) (b : Block)
      → InOrder names s
      → IsGood names b
      → Grows names s (write_side seen s b)
  unfolding write_side
  write_side-Grows new s b v g = elim (Bool-cases (has_block s b)) [
    | inl old ↦ rw old (v, Extends-refl s.db s.current_block)
    | inr fresh ↦ rw fresh (written-Grows s b v g)
  ]
  write_side-Grows same s b v g = (v, Extends-refl s.db s.current_block)
  write_side-Grows ghost s b v g = (v, Extends-refl s.db s.current_block)

  write_sides-Grows :
      (results : ℕ → Option InsertError) (current : Block) (s : BlockChain Q) (i : ℕ)
      (prev : Option Header) (bs : List Block)
      → InOrder names s
      → All (IsGood names) bs
      → Grows names s (write_sides lib results current s i prev bs).0
  unfolding write_sides
  write_sides-Grows results current s i prev [] v good = (v, Extends-refl s.db s.current_block)
  write_sides-Grows results current s i prev (b ∷ bs) v good =
      let still : Grows names s s = (v, Extends-refl s.db s.current_block) in
      let seen = sight s current b in
      let one = write_side-Grows seen s b v good.0 in
      let rest =
        write_sides-Grows results current (write_side seen s b) (suc i) (some b.header) bs one.0
          good.1 in
      elim (Bool-cases (is_pruned (verdict lib results b i))) [
        | inr stop ↦ rw stop still
        | inl run ↦ rw run (elim (Bool-cases (is_ghost (sight s current b))) [
          | inl bad ↦ rw bad still
          | inr fine ↦ rw fine (
              Grows-later names s (write_side seen s b)
                (write_sides lib results current (write_side seen s b) (suc i) (some b.header) bs).0
                one.1 rest)
        ])
      ]

  after_batch-Kept :
      (s : BlockChain Q) (next : BlockChain Q → Outcome Q)
      → ((t : BlockChain Q) → InOrder names t → Kept names Unit t (next t))
      → (out : Outcome Q) → Kept names Unit s out
      → Kept names Unit s (after_batch lib next out)
  unfolding after_batch
  after_batch-Kept s next h (returns t i (some e)) k = k
  after_batch-Kept s next h (returns t i none) k = elim (Bool-cases (lib.stopped t)) [
    | inl stop ↦ rw stop k
    | inr run ↦ rw run (Kept-later names Unit s t (next t) k.1 (h t k.0))
  ]
  after_batch-Kept s next h panics k = tt
  after_batch-Kept s next h unfinished k = tt

  abbrev Inserts : (BlockChain Q → List Block → Outcome Q) → Type 0
  Inserts insert =
      (s : BlockChain Q) (bs : List Block)
      → InOrder names s
      → All (IsGood names) bs
      → Kept names Unit s (insert s bs)

  module _ (insert : BlockChain Q → List Block → Outcome Q) (inserts : Inserts insert) where
    import_last-Kept :
        (s : BlockChain Q) (batch : List Block)
        → InOrder names s
        → All (IsGood names) batch
        → Kept names Unit s (import_last lib insert s batch)
    unfolding import_last
    import_last-Kept s [] v good = (v, Extends-refl s.db s.current_block)
    import_last-Kept s (b ∷ batch) v good = inserts s (b ∷ batch) v good

    import_all-Kept :
        (s : BlockChain Q) (batch : List Block) (memory : ℕ) (hs : List Header)
        → InOrder names s
        → All (IsGood names) batch
        → Kept names Unit s (import_all lib insert s batch memory hs)
    unfolding import_all
    import_all-Kept s batch memory [] v good = import_last-Kept s batch v good
    import_all-Kept s batch memory (h ∷ hs) v good =
        elim (Option-cases (read_block s.db h.hash h.number)) [
          | inl missing ↦ rw (missing, Kept) tt
          | inr (b, found) ↦
              let batch' = batch ++ (b ∷ []) in
              let good' =
                All-snoc (IsGood names) batch b good (v.path.good h.hash h.number b found).1 in
              let more = import_all-Kept s batch' (memory + lib.block_size b) hs v good' in
              rw (found, Kept)
                (elim (Bool-cases (
                  leb 2048 (length batch') || ltb (64 * 1024 * 1024) (memory + lib.block_size b))) [
                    | inr room ↦ rw room more
                    | inl full ↦ rw full (
                        after_batch-Kept s (λ t. import_all lib insert t [] 0 hs)
                          (λ t w. import_all-Kept t [] 0 hs w tt) (insert s batch')
                          (inserts s batch' v good'))
                  ])
        ]

    import_gathered-Kept :
        (s : BlockChain Q) (i : ℕ) (found : Option (Option Header × List Header))
        → InOrder names s
        → Kept names Unit s (import_gathered lib insert s i found)
    unfolding import_gathered
    import_gathered-Kept s i none v = tt
    import_gathered-Kept s i (some (none, hs)) v = (v, Extends-refl s.db s.current_block)
    import_gathered-Kept s i (some (some h, hs)) v = import_all-Kept s [] 0 hs v tt

    after_sides-Kept :
        (s t : BlockChain Q) (i : ℕ) (last : Option Header) (failed : Option InsertError)
        → Grows names s t
        → Kept names Unit s (after_sides lib insert (t, i, last, failed))
    unfolding after_sides
    after_sides-Kept s t i last (some e) g = g
    after_sides-Kept s t i none none g = g
    after_sides-Kept s t i (some h) none g =
        let found = gather lib.has_state (suc h.number) t h [] in
        Kept-later names Unit s t (import_gathered lib insert t i found) g.1
          (import_gathered-Kept t i found g.0)

    insert_side_chain-Kept :
        (results : ℕ → Option InsertError) (s : BlockChain Q) (i : ℕ) (prev : Option Header)
        (bs : List Block)
        → InOrder names s
        → All (IsGood names) bs
        → Kept names Unit s (insert_side_chain lib insert results s i prev bs)
    unfolding insert_side_chain
    insert_side_chain-Kept results s i prev bs v good =
        let written = write_sides lib results s.current_block s i prev bs in
        after_sides-Kept s written.0 written.1 written.2 written.3
          (write_sides-Grows results s.current_block s i prev bs v good)

    direct-Kept :
        (results : ℕ → Option InsertError) (first : ℕ) (s : BlockChain Q) (i : ℕ)
        (prev : Option Header) (bs : List Block)
        → ((b : Block) (j : ℕ) → verdict lib results b j ≢ some known_block)
        → InOrder names s
        → All (IsGood names) bs
        → Kept names Unit s (direct lib insert results first s i prev bs)
    unfolding direct report_block
    direct-Kept results first s i prev [] h v good =
        process_all-Kept names Unit lib results none s i prev [] h v good
    direct-Kept results first s i prev (b ∷ bs) h v good =
        let still : Grows names s s = (v, Extends-refl s.db s.current_block) in
        elim (Bool-cases (is_pruned (verdict lib results b i))) [
          | inl pruned ↦ rw pruned (insert_side_chain-Kept results s i prev (b ∷ bs) v good)
          | inr known ↦
              rw known
                (elim (Bool-cases (
                  is_future (verdict lib results b i)
                  || is_unknown (verdict lib results b i)
                    && lib.cache_contains first s.future_blocks)) [
                      | inl late ↦
                          rw late (queue_all-Kept names Unit lib results none s s i (b ∷ bs) still)
                      | inr now ↦ rw now (elim (Bool-cases (is_none (verdict lib results b i))) [
                        | inl fine ↦ rw fine (
                            process_all-Kept names Unit lib results none s i prev (b ∷ bs) h v good)
                        | inr bad ↦ rw bad still
                      ])
                    ])
        ]

  module _
      (verified : (s : BlockChain Q) (bs : List Block) (seals : Bool) (i : ℕ)
        → lib.verify_headers s bs seals i ≢ some known_block)
      (validated : (b : Block) → lib.validate_body b ≢ some known_block) where
    verdict-known :
        (s : BlockChain Q) (bs : List Block) (seals : Bool) (b : Block) (i : ℕ)
        → verdict lib (lib.verify_headers s bs seals) b i ≢ some known_block
    unfolding verdict
    verdict-known s bs seals b i = elim (Option-cases (lib.verify_headers s bs seals i)) [
      | inl fine ↦ rw (fine, verdict) (validated b)
      | inr (e, eq) ↦
          rw (eq, verdict) (subst (λ o. o ≢ some known_block) eq (verified s bs seals i))
    ]

    insert_chain_on-Kept :
        (fuel : ℕ) (seals : Bool) (s : BlockChain Q) (bs : List Block)
        → InOrder names s
        → All (IsGood names) bs
        → Kept names Unit s (insert_chain_on lib fuel seals s bs)
    unfolding insert_chain_on
    insert_chain_on-Kept zero seals s bs v good = tt
    insert_chain_on-Kept (suc fuel) seals s bs v good =
        let results = lib.verify_headers s bs seals in
        let (i, prev, rest) = skip_known lib results 0 none bs in
        if-Kept s lib.terminating _ _ (v, Extends-refl s.db s.current_block)
          (direct-Kept (insert_chain_on lib fuel false)
            (λ t cs w g. insert_chain_on-Kept fuel false t cs w g) results (parent_of_first lib bs)
            s i prev rest (λ b j. verdict-known s bs seals b j) v
            (skip_known-All results 0 none bs good))

    finished-Kept :
        (s : BlockChain Q) (out : Outcome Q)
        → Kept names Unit s out
        → Kept names Unit s (finished lib out)
    finished-Kept s (returns t i e) k = k
    finished-Kept s panics k = tt
    finished-Kept s unfinished k = tt

    -- InsertChain of good blocks, by an engine that does not call a block known: the chain stays in
    -- order, and every canonical block stays canonical.
    pub insert_chain-Kept :
        (fuel : ℕ) (s : BlockChain Q) (bs : List Block)
        → InOrder names s
        → All (IsGood names) bs
        → Kept names Unit s (insert_chain lib fuel s bs)
    unfolding insert_chain
    insert_chain-Kept fuel s [] v good = (v, Extends-refl s.db s.current_block)
    insert_chain-Kept fuel s (b ∷ bs) v good = elim (Bool-cases (is_contiguous (b ∷ bs))) [
      | inr no_chain ↦ rw no_chain (v, Extends-refl s.db s.current_block)
      | inl linked ↦ rw linked (
          finished-Kept s _
            (insert_chain_on-Kept fuel true (send (block_proc_event true) s) (b ∷ bs) v good))
    ]
