-- ===== src/FbftLog/Entries.antt =====
-- The log's maps: every block is filed under its hash, every message under its id.
use benzene.Prelude.{
  ℕ, ◌≡◌, refl, Bool, true, false, [], ◌∷◌, Dict, put, IsMap, put-IsMap, remove-IsMap, keep-IsMap,
  IsKeyed, put-IsKeyed, remove-IsKeyed, keep-IsKeyed,
}
use benzene.FbftLog.{
  Block, FbftMessage, FbftLog, id, id_sender, verify, new_fbft_log, add_block, mark_block_verified,
  delete_entry, delete_blocks, delete_blocks_less_than, delete_block_by_number,
  delete_messages_less_than, add_verified_message, add_not_verified_message,
  prune_cache_before_block, before,
}

abbrev pub hash_of : Block → ℕ
hash_of b = b.hash

pub record IsLog (log : FbftLog) : Type 0 where
  pub block_map : IsMap log.blocks
  pub message_map : IsMap log.messages
  pub block_keys : IsKeyed hash_of log.blocks
  pub message_keys : IsKeyed id log.messages

pub new-IsLog : IsLog new_fbft_log
unfolding new_fbft_log
new-IsLog = record {
  block_map = tt;
  message_map = tt;
  block_keys = λ h b e. absurd (cc);
  message_keys = λ i m e. absurd (cc);
}

-- An id does not depend on the mark that a log sets.
pub id-verify : (v : Bool) (m : FbftMessage) → id (verify v m) ≡ id m
unfolding id id_sender
id-verify v m = refl

add_message-IsLog :
    (log : FbftLog) (v : Bool) (m : FbftMessage)
    → IsLog log
    → IsLog (record log { messages = put (id m) (verify v m) log.messages })
add_message-IsLog log v m h = record {
  block_map = h.block_map;
  message_map = put-IsMap (id m) (verify v m) log.messages h.message_map;
  block_keys = h.block_keys;
  message_keys = rw (id-verify v m) at (put-IsKeyed id (verify v m) log.messages h.message_keys);
}

add_block-IsLog : (log : FbftLog) (b : Block) → IsLog log → IsLog (add_block log b)
unfolding add_block
add_block-IsLog log b h = record {
  block_map = put-IsMap b.hash b log.blocks h.block_map;
  message_map = h.message_map;
  block_keys = put-IsKeyed hash_of b log.blocks h.block_keys;
  message_keys = h.message_keys;
}

delete_entry-IsLog : (t : Bool) (k : ℕ) (log : FbftLog) → IsLog log → IsLog (delete_entry t k log)
unfolding delete_entry
delete_entry-IsLog false k log h = h
delete_entry-IsLog true k log h = record {
  block_map = remove-IsMap k log.blocks h.block_map;
  message_map = h.message_map;
  block_keys = remove-IsKeyed hash_of k log.blocks h.block_keys;
  message_keys = h.message_keys;
}

delete_blocks-IsLog :
    (hit : ℕ → Bool) (entries : Dict Block) (log : FbftLog)
    → IsLog log
    → IsLog (delete_blocks hit entries log)
unfolding delete_blocks
delete_blocks-IsLog hit [] log h = h
delete_blocks-IsLog hit ((k, b) ∷ entries) log h =
    delete_blocks-IsLog hit entries _ (delete_entry-IsLog (hit b.number) k log h)

delete_messages-IsLog :
    (log : FbftLog) (n : ℕ) → IsLog log → IsLog (delete_messages_less_than log n)
unfolding delete_messages_less_than
delete_messages-IsLog log n h = record {
  block_map = h.block_map;
  message_map = keep-IsMap _ log.messages h.message_map;
  block_keys = h.block_keys;
  message_keys = keep-IsKeyed id _ log.messages h.message_map h.message_keys;
}

-- The calls that change a log.
pub data Call : Type 0 where
  adds_block marks_block : Block → Call
  deletes_blocks_less_than deletes_block_by_number deletes_messages_less_than : ℕ → Call
  adds_verified adds_not_verified : FbftMessage → Call
  prunes : ℕ → Call

unfoldable pub step : FbftLog → Call → FbftLog
step log (adds_block b) = add_block log b
step log (marks_block b) = mark_block_verified log b
step log (deletes_blocks_less_than n) = delete_blocks_less_than log n
step log (deletes_block_by_number n) = delete_block_by_number log n
step log (deletes_messages_less_than n) = delete_messages_less_than log n
step log (adds_verified m) = add_verified_message log m
step log (adds_not_verified m) = add_not_verified_message log m
step log (prunes n) = prune_cache_before_block log n

-- Every call keeps blocks under their hashes and messages under their ids, each once.
pub step-IsLog : (log : FbftLog) (c : Call) → IsLog log → IsLog (step log c)
unfolding step mark_block_verified delete_blocks_less_than delete_block_by_number
    add_verified_message add_not_verified_message prune_cache_before_block
step-IsLog log (adds_block b) h = add_block-IsLog log b h
step-IsLog log (marks_block b) h = record {
  block_map = h.block_map;
  message_map = h.message_map;
  block_keys = h.block_keys;
  message_keys = h.message_keys;
}
step-IsLog log (deletes_blocks_less_than n) h = delete_blocks-IsLog _ log.blocks log h
step-IsLog log (deletes_block_by_number n) h = delete_blocks-IsLog _ log.blocks log h
step-IsLog log (deletes_messages_less_than n) h = delete_messages-IsLog log n h
step-IsLog log (adds_verified m) h = add_message-IsLog log true m h
step-IsLog log (adds_not_verified m) h = add_message-IsLog log false m h
step-IsLog log (prunes n) h =
    delete_messages-IsLog _ (before n) (delete_blocks-IsLog _ log.blocks log h)
