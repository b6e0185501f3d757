-- ===== src/FbftLog/Tests.antt =====
-- The log at concrete blocks and messages.
use benzene.Prelude.{
  ℕ, ◌+◌, ◌≤◌, ◌≡◌, ◌↔◌, ◌⊎◌, refl, inl, true, false, some, none, [], ◌∷◌, arith, In, ltb,
  if◌then◌else◌,
}
use benzene.FbftLog.{
  Block, FbftMessage, FbftLog, announce, prepared, committed, id, id_sender, verify, new_fbft_log,
  add_block, add_verified_message, add_not_verified_message, get_block_by_hash,
  prune_cache_before_block, get_messages_by_type_seq_view_hash, get_messages_by_type_seq_view,
  get_committed_block_and_msgs_from_number,
}
use benzene.FbftLog.Ids.{Fits, id_unique}
use benzene.FbftLog.Entries.{
  IsLog, new-IsLog, adds_block, adds_verified, adds_not_verified, prunes, step, step-IsLog,
}
use benzene.FbftLog.Queries.{
  Stored, get_messages_by_type_seq_view_hash_iff, get_messages_by_type_seq_view_iff,
}
use benzene.FbftLog.Committed.{IsCommitted, get_committed_block_and_msgs_from_number_lem}
use benzene.FbftLog.Prune.{prune_cache_before_block_lem}

abbrev block : Block
block = record { hash = 11; number = 7; epoch = 1 }

abbrev message : ℕ → ℕ → FbftMessage
message typ view = record {
  message_type = typ;
  view_id = view;
  block_num = 7;
  block_hash = 11;
  block = [];
  sender_pubkeys = 5 ∷ [];
  sender_pubkey_bitmap = [];
  payload = [];
  verified = false;
}

abbrev shouted : FbftMessage
shouted = verify true (message announce 3)

abbrev the_sender : ℕ
the_sender = 5

-- A log with the block, a verified announce message and a committed message that is not verified.
abbrev log : FbftLog
log =
    step (step (step new_fbft_log (adds_block block)) (adds_verified (message announce 3)))
      (adds_not_verified (message committed 3))

log-IsLog : IsLog log
log-IsLog =
    step-IsLog (step (step new_fbft_log (adds_block block)) (adds_verified (message announce 3)))
      (adds_not_verified (message committed 3))
      (step-IsLog (step new_fbft_log (adds_block block)) (adds_verified (message announce 3))
        (step-IsLog new_fbft_log (adds_block block) new-IsLog))

message-Fits : (typ : ℕ) → typ ≤ 4 → Fits (message typ 3) 5
message-Fits typ h = record {
  from_one = refl;
  type_fits = omega (arith, h);
  view_fits = omega arith;
  hash_fits = omega arith;
}

id_unique_example :
    ((message announce 3).message_type ≡ shouted.message_type)
    × ((message announce 3).view_id ≡ shouted.view_id)
    × ((message announce 3).block_hash ≡ shouted.block_hash)
    × (the_sender ≡ the_sender)
unfolding id id_sender
id_unique_example =
    id_unique (message announce 3) shouted 5 5 (message-Fits announce (omega arith))
      (record {
        from_one = refl;
        type_fits = omega arith;
        view_fits = omega arith;
        hash_fits = omega arith;
      })
      refl

step-IsLog_example : IsLog (step log (prunes 9))
step-IsLog_example = step-IsLog log (prunes 9) log-IsLog

get_messages_by_type_seq_view_hash_iff_example :
    In shouted (get_messages_by_type_seq_view_hash log announce 7 3 11) ↔ (
      Stored log shouted
      × (announce ≡ announce)
      × (shouted.block_num ≡ 7)
      × (shouted.view_id ≡ 3)
      × (shouted.block_hash ≡ 11)
      × (true ≡ true))
get_messages_by_type_seq_view_hash_iff_example =
    get_messages_by_type_seq_view_hash_iff log announce 7 3 11 shouted log-IsLog

-- A committed message of another view is found, since it is not verified.
get_messages_by_type_seq_view_iff_example :
    In (message committed 3) (get_messages_by_type_seq_view log committed 7 8) ↔ (
      Stored log (message committed 3)
      × ((message committed 3).message_type ≡ committed)
      × ((message committed 3).block_num ≡ 7)
      × (((message committed 3).view_id ≡ 8) ⊎ ((message committed 3).verified ≡ false)))
get_messages_by_type_seq_view_iff_example =
    get_messages_by_type_seq_view_iff log committed 7 8 (message committed 3) log-IsLog

shouted-found : In shouted (
    get_messages_by_type_seq_view_hash
      (add_not_verified_message log (message prepared 3))
      announce
      7
      3
      11)
unfolding step new_fbft_log add_block add_verified_message add_not_verified_message id id_sender
    get_messages_by_type_seq_view_hash
shouted-found = inl refl

get_committed_block_and_msgs_from_number_lem_example :
    ((b : Block) (m : FbftMessage)
      → get_committed_block_and_msgs_from_number log 7 ≡ some (b, m)
      → IsCommitted log 7 m × (get_block_by_hash log m.block_hash ≡ some b))
    × (get_committed_block_and_msgs_from_number log 7 ≡ none
        → (m : FbftMessage) → IsCommitted log 7 m
        → get_block_by_hash log m.block_hash ≡ none)
get_committed_block_and_msgs_from_number_lem_example =
    get_committed_block_and_msgs_from_number_lem log 7 log-IsLog

block-there : get_block_by_hash log 11 ≡ some block
unfolding step new_fbft_log add_block add_verified_message add_not_verified_message
    get_block_by_hash
block-there = refl

prune_cache_before_block_lem_example :
    (get_block_by_hash (prune_cache_before_block log 8) 11
      ≡ (if ltb (7 + 1) 8 then none else some block))
    × (Stored (prune_cache_before_block log 8) shouted ↔ (Stored log shouted × (8 ≤ 7 + 1)))
prune_cache_before_block_lem_example =
    prune_cache_before_block_lem log 8 block shouted log-IsLog (omega arith) (omega arith)
      block-there
