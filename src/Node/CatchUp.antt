-- ===== src/Node/CatchUp.antt =====
-- getLastMileBlocksAndMsg of consensus/consensus.go: the search ends, and finds the whole run.
use benzene.Prelude.{
  ℕ, zero, suc, ◌+◌, ◌%◌, ◌^◌, ◌≤◌, ◌<◌, ◌≡◌, inl, inr, none, some, List, [], ◌∷◌, arith,
  Option-cases, In, select, length, length-select-le, length-values, values, get?-In-values, leb,
}
use benzene.FbftLog.{Block, FbftMessage, FbftLog, id, get_committed_block_and_msgs_from_number}
use benzene.FbftLog.Entries.{IsLog}
use benzene.FbftLog.Committed.{get_committed_block_and_msgs_from_number_lem}
use benzene.Node.{last_mile, get_last_mile_blocks_and_msg}

-- The run of blocks from a number on: each is found at its number, and none at the number behind.
abbrev pub IsMile : FbftLog → ℕ → List (Block × FbftMessage) → Type 0
IsMile log bn [] = get_committed_block_and_msgs_from_number log bn ≡ none
IsMile log bn (found ∷ rest) =
    (get_committed_block_and_msgs_from_number log bn ≡ some found) × IsMile log (suc bn) rest

-- How many messages are for that block number or a later one.
abbrev later : ℕ → List FbftMessage → ℕ
later bn ms = length (select (λ m. leb bn m.block_num) ms)

later-suc_le : (bn : ℕ) (ms : List FbftMessage) → later (suc bn) ms ≤ later bn ms
later-suc_le bn [] = omega arith
later-suc_le bn (m ∷ ms) = ground (arith, later-suc_le bn ms)

later-suc :
    (bn : ℕ) (m : FbftMessage) (ms : List FbftMessage)
    → In m ms
    → m.block_num ≡ bn
    → later (suc bn) ms < later bn ms
later-suc bn m [] i e = absurd i
later-suc bn m (x ∷ ms) (inl h) e =
    let le = later-suc_le bn ms in let here : x.block_num ≡ bn = rw h e in ground arith
later-suc bn m (x ∷ ms) (inr i) e = let lt = later-suc bn m ms i e in ground arith

found_later :
    (log : FbftLog) (bn : ℕ) (b : Block) (m : FbftMessage)
    → IsLog log
    → get_committed_block_and_msgs_from_number log bn ≡ some (b, m)
    → later (suc bn) (values log.messages) < later bn (values log.messages)
found_later log bn b m h e =
    let ((stored, typ, num, verified), block) =
      (get_committed_block_and_msgs_from_number_lem log bn h).0 b m e in
    later-suc bn m (values log.messages) (get?-In-values (id m) m log.messages stored) num

last_mile-IsMile :
    (fuel : ℕ) (log : FbftLog) (bn : ℕ)
    → IsLog log
    → later bn (values log.messages) < fuel
    → bn + fuel ≤ 2 ^ 64
    → IsMile log bn (last_mile fuel log bn)
unfolding last_mile
last_mile-IsMile zero log bn h l w = absurd (omega (arith, l))
last_mile-IsMile (suc fuel) log bn h l w =
    elim (Option-cases (get_committed_block_and_msgs_from_number log bn)) [
      | inl e ↦ rw (e, last_mile) e
      | inr ((b, m), e) ↦
          let less = found_later log bn b m h e in
          let next : (bn + 1) % 2 ^ 64 ≡ suc bn = omega arith in
          rw (e, next, last_mile)
            (e, last_mile-IsMile fuel log (suc bn) h (omega (arith, less, l)) (omega (arith, w)))
    ]

-- The search for committed blocks ends after at most one round for each message of the log, and it
-- finds the whole run: a block and a message at each number from the first on, and none behind.
pub get_last_mile_blocks_and_msg-IsMile :
    (log : FbftLog) (bn : ℕ)
    → IsLog log
    → bn + length log.messages < 2 ^ 64
    → IsMile log bn (get_last_mile_blocks_and_msg log bn)
get_last_mile_blocks_and_msg-IsMile log bn h w =
    let bound = length-select-le (λ m. leb bn m.block_num) (values log.messages) in
    let same = length-values log.messages in
    last_mile-IsMile (suc (length log.messages)) log bn h (omega arith) (omega arith)
