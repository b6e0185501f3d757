-- ===== src/Chain/Finality.antt =====
-- InsertChain of core/blockchain.go: the chain stays in order, and no canonical block is replaced.
use benzene.Prelude.{
  ℕ, suc, ◌≡◌, ◌≢◌, refl, ◌⊎◌, inl, inr, none, some, Option, List, [], ◌∷◌, false, Bool-cases,
  Option-cases, All, ◌==◌, ◌||◌, subst, ltb, ◌+◌,
}
use benzene.Chain.Rawdb.{Header, Block}
use benzene.Chain.Head.{InsertError, known_block, BlockChain, canon_stat, non_stat, side_stat}
use benzene.Chain.Write.{Services, Written, add_future_block, report_block}
use benzene.Chain.Insert.{
  Outcome, returns, panics, unfinished, is_known, is_unknown, is_future, announce, verdict,
  queue_all, queue_rest, parent_header, after_write, execute, take_block, is_taken, process_all,
}
use benzene.Chain.Canonical.{IsGood, Extends, Extends-refl}
use benzene.Chain.Grow.{InOrder, Grows, AfterWrite, write_block_with_state-AfterWrite, Grows-later}

Sum-cases : {A B : Type 0} (w : A ⊎ B) → ((a : A) × (w ≡ inl a)) ⊎ ((b : B) × (w ≡ inr b))
Sum-cases (inl a) = inl (a, refl)
Sum-cases (inr b) = inr (b, refl)

module _ {Q : Type 0} (names : ℕ → Block) where
  pub announce-Grows :
      (last : Option Block) (s t : BlockChain Q) → Grows names s t → Grows names s (announce last t)
  unfolding announce
  announce-Grows none s t g = g
  announce-Grows (some b) s t g = elim (Bool-cases (t.current_block.header.hash == b.header.hash)) [
    | inl same ↦ rw same g
    | inr other ↦ rw other g
  ]

-- `Ends` is what is asked of an insertion that ran out of fuel.
module _ {Q : Type 0} (names : ℕ → Block) (Ends : Type 0) where
  -- A chain that an insertion gives back has grown.
  abbrev pub Kept : BlockChain Q → Outcome Q → Type 0
  Kept s (returns t i e) = Grows names s t
  Kept s panics = Unit
  Kept s unfinished = Ends

  abbrev KeptStep : BlockChain Q → Outcome Q ⊎ (BlockChain Q × Option Block) → Type 0
  KeptStep s (inl out) = Kept s out
  KeptStep s (inr (t, last)) = Grows names s t

  pub Kept-later :
      (s t : BlockChain Q) (out : Outcome Q)
      → Extends s.db s.current_block t.db t.current_block
      → Kept t out
      → Kept s out
  Kept-later s t (returns u i e) x k = Grows-later names s t u x k
  Kept-later s t panics x k = tt
  Kept-later s t unfinished x k = k

  module _ (lib : Services Q) (results : ℕ → Option InsertError) where
    after_write-KeptStep :
        (last : Option Block) (i : ℕ) (b : Block) (s : BlockChain Q) (w : Option (Written lib))
        → AfterWrite names (lib.commit_state b) s b w
        → KeptStep s (after_write lib results last i b w)
    unfolding after_write
    after_write-KeptStep last i b s none a = absurd a
    after_write-KeptStep last i b s (some (t, inr e)) a = announce-Grows names last s t a.0
    after_write-KeptStep last i b s (some (t, inl canon_stat)) a = a.0
    after_write-KeptStep last i b s (some (t, inl side_stat)) a = a.0
    after_write-KeptStep last i b s (some (t, inl non_stat)) a = a.0

    execute-KeptStep :
        (last : Option Block) (s : BlockChain Q) (i : ℕ) (parent : Header) (b : Block)
        → InOrder names s
        → IsGood names b
        → KeptStep s (execute lib results last s i parent b)
    unfolding execute report_block
    execute-KeptStep last s i parent b v g =
        let same : Grows names s s = (v, Extends-refl s.db s.current_block) in
        elim (Option-cases (lib.open_state parent.root)) [
          | inr (e, eq) ↦ rw (eq, KeptStep) (announce-Grows names last s s same)
          | inl opened ↦
              rw (opened, KeptStep)
                (elim (Option-cases (lib.process parent b)) [
                  | inr (e, eq) ↦
                      rw (eq, KeptStep) (announce-Grows names last s (report_block lib b s) same)
                  | inl run ↦
                      rw (run, KeptStep)
                        (elim (Option-cases (lib.validate_state b)) [
                          | inr (e, eq) ↦
                              rw (eq, KeptStep)
                                (announce-Grows names last s (report_block lib b s) same)
                          | inl valid ↦ rw valid (
                              after_write-KeptStep last i b s _
                                (write_block_with_state-AfterWrite names lib b false s v g))
                        ])
                ])
        ]

    is_known-false : (e : Option InsertError) → e ≢ some known_block → is_known e ≡ false
    is_known-false none h = refl
    is_known-false (some known_block) h = absurd (h refl)
    is_known-false (some e) h = refl

    take_block-KeptStep :
        (last : Option Block) (s : BlockChain Q) (i : ℕ) (prev : Option Header) (b : Block)
        → verdict lib results b i ≢ some known_block
        → InOrder names s
        → IsGood names b
        → KeptStep s (take_block lib results last s i prev b)
    unfolding take_block report_block
    take_block-KeptStep last s i prev b h v g =
        let same : Grows names s s = (v, Extends-refl s.db s.current_block) in
        elim (Bool-cases (lib.stopped s)) [
          | inl stop ↦ rw stop (announce-Grows names last s s same)
          | inr run ↦ rw run (elim (Bool-cases (lib.is_bad_hash b.header.hash)) [
            | inl bad ↦ rw bad (announce-Grows names last s (report_block lib b s) same)
            | inr fine ↦
                rw (fine, is_known-false _ h)
                  (elim (Option-cases (parent_header lib results s prev b)) [
                    | inl missing ↦ rw missing tt
                    | inr (p, found) ↦ rw found (execute-KeptStep last s i p b v g)
                  ])
          ])
        ]

    add_future_block-Grows :
        (b : Block) (s t : BlockChain Q)
        → Grows names s t
        → Grows names s (add_future_block lib b t).0
    unfolding add_future_block
    add_future_block-Grows b s t g = elim (Bool-cases (ltb (lib.now + 30) b.header.time)) [
      | inl late ↦ rw late g
      | inr soon ↦ rw soon g
    ]

    pub queue_all-Kept :
        (last : Option Block) (s t : BlockChain Q) (i : ℕ) (bs : List Block)
        → Grows names s t
        → Kept s (queue_all lib results last t i bs)
    unfolding queue_all
    queue_all-Kept last s t i [] g = announce-Grows names last s t g
    queue_all-Kept last s t i (b ∷ bs) g =
        let added = add_future_block-Grows b s t g in
        elim (Bool-cases (i == 0 || is_unknown (verdict lib results b i))) [
          | inr stop ↦ rw stop (announce-Grows names last s t g)
          | inl run ↦ rw run (elim (Option-cases (add_future_block lib b t).1) [
            | inr (e, eq) ↦ rw eq (announce-Grows names last s _ added)
            | inl fine ↦
                rw fine (queue_all-Kept last s (add_future_block lib b t).0 (suc i) bs added)
          ])
        ]

    queue_rest-Kept :
        (last : Option Block) (s : BlockChain Q) (i : ℕ) (b : Block) (bs : List Block)
        → InOrder names s
        → Kept s (queue_rest lib results last s i b bs)
    unfolding queue_rest
    queue_rest-Kept last s i b bs v =
        let same : Grows names s s = (v, Extends-refl s.db s.current_block) in
        let stop = announce-Grows names last s s same in
        let added = add_future_block-Grows b s s same in
        elim (Bool-cases (is_future (verdict lib results b i))) [
          | inr other ↦ rw other stop
          | inl future ↦ rw future (elim (Option-cases (add_future_block lib b s).1) [
            | inr (e, eq) ↦ rw eq (announce-Grows names last s (add_future_block lib b s).0 added)
            | inl fine ↦
                rw fine (queue_all-Kept last s (add_future_block lib b s).0 (suc i) bs added)
          ])
        ]

    pub process_all-Kept :
        (last : Option Block) (s : BlockChain Q) (i : ℕ) (prev : Option Header) (bs : List Block)
        → ((b : Block) (j : ℕ) → verdict lib results b j ≢ some known_block)
        → InOrder names s
        → All (IsGood names) bs
        → Kept s (process_all lib results last s i prev bs)
    unfolding process_all
    process_all-Kept last s i prev [] h v good =
        announce-Grows names last s s (v, Extends-refl s.db s.current_block)
    process_all-Kept last s i prev (b ∷ bs) h v good =
        let step = take_block-KeptStep last s i prev b (h b i) v good.0 in
        elim (Bool-cases (is_taken (verdict lib results b i))) [
          | inr stop ↦ rw stop (queue_rest-Kept last s i b bs v)
          | inl run ↦ rw run (elim (Sum-cases (take_block lib results last s i prev b)) [
            | inl (out, eq) ↦ rw eq (subst (KeptStep s) eq step)
            | inr ((t, last'), eq) ↦
                let g : Grows names s t = subst (KeptStep s) eq step in
                rw eq (
                  Kept-later s t _ g.1
                    (process_all-Kept last' t (suc i) (some b.header) bs h g.0 good.1))
          ])
        ]
