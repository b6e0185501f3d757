-- ===== src/FbftLog/Committed.antt =====
-- GetCommittedBlockAndMsgsFromNumber.
use benzene.Prelude.{
  ℕ, ◌≡◌, subst, Option-cases, inl, inr, true, Option, none, some, List, [], ◌∷◌, arith, In,
}
use benzene.FbftLog.{
  Block, FbftMessage, FbftLog, committed, find_messages, is_type_seq, get_block_by_hash,
  first_with_block, get_committed_block_and_msgs_from_number,
}
use benzene.FbftLog.Entries.{IsLog}
use benzene.FbftLog.Queries.{Stored, find_messages_iff}

first_with_block-some :
    (log : FbftLog) (ms : List FbftMessage) (b : Block) (m : FbftMessage)
    → first_with_block log ms ≡ some (b, m)
    → In m ms × (get_block_by_hash log m.block_hash ≡ some b)
unfolding first_with_block
first_with_block-some log [] b m e = absurd (cc)
first_with_block-some log (x ∷ ms) b m e =
    elim (Option-cases (get_block_by_hash log x.block_hash)) [
      | inl missing ↦
          let (i, found) = first_with_block-some log ms b m (rw (missing, first_with_block) at e) in
          (inr i, found)
      | inr (c, found) ↦
          let same : ◌≡◌ {A = Option (Block × FbftMessage)} (some (c, x)) (some (b, m)) =
            rw (found, first_with_block) at e in
          let eb : c ≡ b = cc in
          let em : x ≡ m = cc in
          (
            inl em,
            subst (λ (y : FbftMessage). get_block_by_hash log y.block_hash ≡ some b) em
                (rw (← eb) found),
          )
    ]

first_with_block-none :
    (log : FbftLog) (ms : List FbftMessage) (m : FbftMessage)
    → first_with_block log ms ≡ none
    → In m ms
    → get_block_by_hash log m.block_hash ≡ none
unfolding first_with_block
first_with_block-none log [] m e i = absurd i
first_with_block-none log (x ∷ ms) m e i =
    elim (Option-cases (get_block_by_hash log x.block_hash)) [
      | inl missing ↦ elim i [
        | inl same ↦
            subst (λ (y : FbftMessage). get_block_by_hash log y.block_hash ≡ none) same missing
        | inr later ↦ first_with_block-none log ms m (rw (missing, first_with_block) at e) later
      ]
      | inr (c, found) ↦ absurd (never c x (rw (found, first_with_block) at e))
    ]
  where
    never :
        (c : Block) (y : FbftMessage)
        → ◌≡◌ {A = Option (Block × FbftMessage)} (some (c, y)) none
        → ⊥
    never c y h = cc

-- A verified committed message of a block number in the log.
abbrev pub IsCommitted : FbftLog → ℕ → FbftMessage → Type 0
IsCommitted log bn m =
    Stored log m × (m.message_type ≡ committed) × (m.block_num ≡ bn) × (m.verified ≡ true)

-- GetCommittedBlockAndMsgsFromNumber returns a verified committed message of that block number
-- with the block of its hash. It fails only when the log has the block of no such message.
pub get_committed_block_and_msgs_from_number_lem :
    (log : FbftLog) (bn : ℕ)
    → IsLog log
    → ((b : Block) (m : FbftMessage)
        → get_committed_block_and_msgs_from_number log bn ≡ some (b, m)
        → IsCommitted log bn m × (get_block_by_hash log m.block_hash ≡ some b))
      × (get_committed_block_and_msgs_from_number log bn ≡ none
          → (m : FbftMessage) → IsCommitted log bn m
          → get_block_by_hash log m.block_hash ≡ none)
unfolding get_committed_block_and_msgs_from_number
get_committed_block_and_msgs_from_number_lem log bn h =
    let ms = find_messages (is_type_seq committed bn) log in
    (
      λ b m e.
          let (i, found) = first_with_block-some log ms b m e in
          let (s, t) = (find_messages_iff (is_type_seq committed bn) log m h).0 i in
          ((s, ground arith, ground arith, ground arith), found),
      λ e m (s, a, b, v).
          first_with_block-none log ms m e
            ((find_messages_iff (is_type_seq committed bn) log m h).1 (s, ground arith)),
    )
