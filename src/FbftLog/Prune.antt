-- ===== src/FbftLog/Prune.antt =====
-- What the deletions leave.
use benzene.Prelude.{
  ℕ, ◌+◌, ◌-◌, ◌^◌, ◌≤◌, ◌<◌, ◌≡◌, refl, ◌∙◌, ◌↔◌, inl, inr, Bool, true, false, not, ◌&&◌, none,
  some, [], ◌∷◌, arith, Dict, get?, has, remove, get?-remove, get?-keep_inv, get?-keep-some, IsMap,
  Bool-cases, ltb, ◌==◌, if◌then◌else◌,
}
use benzene.FbftLog.{
  Block, FbftMessage, FbftLog, id, delete_entry, delete_blocks, delete_blocks_less_than,
  delete_messages_less_than, delete_block_by_number, get_block_by_hash, is_block_verified,
  prune_cache_before_block, before,
}
use benzene.FbftLog.Entries.{IsLog, step, step-IsLog, deletes_blocks_less_than}
use benzene.FbftLog.Queries.{Stored}

has-remove :
    {V : Type 0} (k j : ℕ) (m : Dict V) → has j (remove k m) ≡ (if k == j then false else has j m)
has-remove k j [] = ground arith
has-remove k j ((i, v) ∷ m) = ground (arith, has-remove k j m)

and_false : (t : Bool) → (t && false) ≡ false
and_false true = refl
and_false false = refl

delete_entry-messages :
    (t : Bool) (k : ℕ) (log : FbftLog) → (delete_entry t k log).messages ≡ log.messages
unfolding delete_entry
delete_entry-messages true k log = refl
delete_entry-messages false k log = refl

-- One round changes the entries of its own hash only, and those only if the test holds.
delete_entry_lem :
    (t : Bool) (k h : ℕ) (log : FbftLog)
    → (get? h (delete_entry t k log).blocks ≡ (if t && k == h then none else get? h log.blocks))
      × (has h (delete_entry t k log).verified_blocks
          ≡ (if t && k == h then false else has h log.verified_blocks))
unfolding delete_entry
delete_entry_lem false k h log = (refl, refl)
delete_entry_lem true k h log = (get?-remove k h log.blocks, has-remove k h log.verified_blocks)

delete_blocks-messages :
    (hit : ℕ → Bool) (entries : Dict Block) (log : FbftLog)
    → (delete_blocks hit entries log).messages ≡ log.messages
unfolding delete_blocks
delete_blocks-messages hit [] log = refl
delete_blocks-messages hit ((k, b) ∷ entries) log =
    delete_blocks-messages hit entries _ ∙ delete_entry-messages (hit b.number) k log

-- A hash that no entry has is left alone.
delete_blocks-absent :
    (hit : ℕ → Bool) (entries : Dict Block) (log : FbftLog) (h : ℕ)
    → get? h entries ≡ none
    → (get? h (delete_blocks hit entries log).blocks ≡ get? h log.blocks)
      × (has h (delete_blocks hit entries log).verified_blocks ≡ has h log.verified_blocks)
unfolding delete_blocks
delete_blocks-absent hit [] log h e = (refl, refl)
delete_blocks-absent hit ((k, b) ∷ entries) log h e =
    let (p, q) =
      delete_blocks-absent hit entries (delete_entry (hit b.number) k log) h (ground arith) in
    let (p', q') = delete_entry_lem (hit b.number) k h log in
    let other : (k == h) ≡ false = ground arith in
    let none_here : (hit b.number && k == h) ≡ false = rw other (and_false (hit b.number)) in
    (p ∙ p' ∙ rw none_here refl, q ∙ q' ∙ rw none_here refl)

-- What becomes of the block and the mark of a hash.
delete_blocks-present :
    (hit : ℕ → Bool) (entries : Dict Block) (log : FbftLog) (h : ℕ) (b : Block)
    → IsMap entries
    → get? h entries ≡ some b
    → (get? h (delete_blocks hit entries log).blocks
        ≡ (if hit b.number then none else get? h log.blocks))
      × (has h (delete_blocks hit entries log).verified_blocks
          ≡ (if hit b.number then false else has h log.verified_blocks))
unfolding delete_blocks
delete_blocks-present hit [] log h b u e = absurd (cc)
delete_blocks-present hit ((k, c) ∷ entries) log h b u e = elim (Bool-cases (k == h)) [
  | inl same ↦
      let ek : k ≡ h = ground arith in
      let ec : c ≡ b = ground arith in
      let (p, q) =
        delete_blocks-absent hit entries (delete_entry (hit c.number) k log) h (rw ek at u.0) in
      let (p', q') = delete_entry_lem (hit c.number) k h log in
      let here : (hit c.number && k == h) ≡ hit b.number = ground arith in
      (p ∙ p' ∙ rw here refl, q ∙ q' ∙ rw here refl)
  | inr other ↦
      let (p, q) =
        delete_blocks-present hit entries (delete_entry (hit c.number) k log) h b u.1
          (ground arith) in
      let (p', q') = delete_entry_lem (hit c.number) k h log in
      let none_here : (hit c.number && k == h) ≡ false = rw other (and_false (hit c.number)) in
      let p'' : get? h (delete_entry (hit c.number) k log).blocks ≡ get? h log.blocks =
        p' ∙ rw none_here refl in
      let q'' : has h (delete_entry (hit c.number) k log).verified_blocks
          ≡ has h log.verified_blocks =
        q' ∙ rw none_here refl in
      (rw p'' at p, rw q'' at q)
]

-- DeleteBlocksLessThan and DeleteBlockByNumber drop exactly the blocks whose number is below, or
-- is, the given one, the marks of those blocks with them, and no message.
delete_blocks_lem :
    (log : FbftLog) (n : ℕ) (b : Block)
    → IsLog log
    → get_block_by_hash log b.hash ≡ some b
    → let less = delete_blocks_less_than log n in
      let same = delete_block_by_number log n in
      (get_block_by_hash less b.hash ≡ (if ltb b.number n then none else some b))
      × (is_block_verified less b ≡ (if ltb b.number n then false else is_block_verified log b))
      × (get_block_by_hash same b.hash ≡ (if b.number == n then none else some b))
      × (is_block_verified same b ≡ (if b.number == n then false else is_block_verified log b))
      × (less.messages ≡ log.messages)
      × (same.messages ≡ log.messages)
unfolding delete_blocks_less_than delete_block_by_number get_block_by_hash is_block_verified
delete_blocks_lem log n b h e =
    let (p, q) = delete_blocks-present (λ k. ltb k n) log.blocks log b.hash b h.block_map e in
    let (r, s) = delete_blocks-present (λ k. k == n) log.blocks log b.hash b h.block_map e in
    (
      rw e at p,
      q,
      rw e at r,
      s,
      delete_blocks-messages (λ k. ltb k n) log.blocks log,
      delete_blocks-messages (λ k. k == n) log.blocks log,
    )

-- What DeleteMessagesLessThan leaves.
delete_messages_iff :
    (log : FbftLog) (n : ℕ) (m : FbftMessage)
    → IsLog log
    → Stored (delete_messages_less_than log n) m ↔ (Stored log m × (n ≤ m.block_num))
unfolding delete_messages_less_than
delete_messages_iff log n m h =
    let kept = λ (i : ℕ) (x : FbftMessage). not (ltb x.block_num n) in
    (
      λ s.
          let (old, t) = get?-keep_inv kept (id m) m log.messages h.message_map s in
          (old, ground arith),
      λ (old, t). get?-keep-some kept (id m) m log.messages old (ground arith),
    )

delete_blocks_less-IsLog :
    (log : FbftLog) (n : ℕ) → IsLog log → IsLog (delete_blocks_less_than log n)
unfolding step
delete_blocks_less-IsLog log n h = step-IsLog log (deletes_blocks_less_than n) h

-- Pruning at a number, with the number that the two deletions are given.
prune_at :
    (log : FbftLog) (bn : ℕ) (b : Block) (m : FbftMessage)
    → IsLog log
    → get_block_by_hash log b.hash ≡ some b
    → (get_block_by_hash (prune_cache_before_block log bn) b.hash
        ≡ (if ltb b.number (before bn) then none else some b))
      × (Stored (prune_cache_before_block log bn) m ↔ (Stored log m × (before bn ≤ m.block_num)))
unfolding prune_cache_before_block get_block_by_hash delete_messages_less_than
prune_at log bn b m h e =
    let (p, q, r, s, same, t) = delete_blocks_lem log (before bn) b h e in
    let left = delete_blocks_less_than log (before bn) in
    let (out, into) =
      delete_messages_iff left (before bn) m (delete_blocks_less-IsLog log (before bn) h) in
    (p, (λ x. let (old, le) = out x in (rw same at old, le), λ (old, le). into (rw same old, le)))

-- PruneCacheBeforeBlock from a block number above zero keeps the block before it: it drops exactly
-- the blocks and the messages that are two or more numbers back.
pub prune_cache_before_block_lem :
    (log : FbftLog) (bn : ℕ) (b : Block) (m : FbftMessage)
    → IsLog log
    → 0 < bn
    → bn < 2 ^ 64
    → get_block_by_hash log b.hash ≡ some b
    → (get_block_by_hash (prune_cache_before_block log bn) b.hash
        ≡ (if ltb (b.number + 1) bn then none else some b))
      × (Stored (prune_cache_before_block log bn) m ↔ (Stored log m × (bn ≤ m.block_num + 1)))
prune_cache_before_block_lem log bn b m h positive word e =
    let (p, range) = prune_at log bn b m h e in
    let less : before bn ≡ bn - 1 = omega arith in
    let test : ltb b.number (before bn) ≡ ltb (b.number + 1) bn = rw less (ground arith) in
    (
      p ∙ rw test refl,
      (
        λ x. let (old, le) = range.0 x in (old, omega arith),
        λ (old, le). range.1 (old, omega arith),
      ),
    )

-- At block number zero `bn - 1` wraps around: every block and message is dropped, but those of the
-- last number of all.
prune_cache_before_block-zero :
    (log : FbftLog) (b : Block) (m : FbftMessage)
    → IsLog log
    → get_block_by_hash log b.hash ≡ some b
    → b.number < 2 ^ 64 - 1
    → m.block_num < 2 ^ 64 - 1
    → (get_block_by_hash (prune_cache_before_block log 0) b.hash ≡ none)
      × (¬ Stored (prune_cache_before_block log 0) m)
prune_cache_before_block-zero log b m h e low small =
    let (p, range) = prune_at log 0 b m h e in
    let test : ltb b.number (before 0) ≡ true = ground arith in
    (p ∙ rw test refl, λ x. omega (arith, (range.0 x).1))
