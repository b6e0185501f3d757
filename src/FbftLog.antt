-- ===== src/FbftLog.antt =====
-- consensus/fbft_log.go: the blocks and messages that a node has received in FBFT.
-- Byte arrays of a fixed length are the numbers that they spell in little endian, so that putting
-- one behind another is a + 256 ^ length * b. A block is its hash, number and epoch: the hash is
-- computed by the RLP and Keccak libraries. The locks are left out: each method holds its lock
-- from its first line to its last, so calls do not interleave.
pub mod Ids
pub mod Entries
pub mod Queries
pub mod Committed
pub mod Prune
pub mod Tests
use benzene.Prelude.{
  ℕ, zero, suc, ◌+◌, ◌-◌, ◌*◌, ◌%◌, ◌^◌, Bool, true, false, not, ◌&&◌, ◌||◌, Option, none, some,
  List, [], ◌∷◌, Dict, get?, has, put, remove, keep, values, length, select, ltb, leb, ◌==◌,
  if◌then◌else◌,
}

-- MessageType is an int32 of the protocol buffer; these values have names.
abbrev pub announce : ℕ
announce = 0

abbrev pub prepared : ℕ
prepared = 2

abbrev pub committed : ℕ
committed = 4

pub record Block : Type 0 where
  pub hash : ℕ
  pub number : ℕ
  pub epoch : ℕ

-- The signatures and masks that only construct.go fills are left out.
pub record FbftMessage : Type 0 where
  pub message_type : ℕ
  pub view_id : ℕ
  pub block_num : ℕ
  pub block_hash : ℕ
  pub block : List ℕ
  pub sender_pubkeys : List ℕ
  pub sender_pubkey_bitmap : List ℕ
  pub payload : List ℕ
  pub verified : Bool

abbrev pub has_single_sender : FbftMessage → Bool
has_single_sender m = length m.sender_pubkeys == 1

-- The first `n` bytes of a slice, copied into an array of zeros.
abbrev pub copy_bytes : ℕ → List ℕ → ℕ
copy_bytes zero bs = 0
copy_bytes (suc n) [] = 0
copy_bytes (suc n) (b ∷ bs) = b + 256 * copy_bytes n bs

abbrev public_key_size : ℕ
public_key_size = 48

-- The last field of an id.
unfoldable pub id_sender : FbftMessage → ℕ
id_sender m = elim m.sender_pubkeys [
  | [] ↦ copy_bytes public_key_size m.sender_pubkey_bitmap
  | k ∷ ks ↦ if has_single_sender m then k else copy_bytes public_key_size m.sender_pubkey_bitmap
]

unfoldable pub id : FbftMessage → ℕ
id m =
    m.message_type % 2 ^ 32 + 2 ^ 32 * (m.view_id + 2 ^ 64 * (m.block_hash + 2 ^ 256 * id_sender m))

pub record FbftLog : Type 0 where
  pub blocks : Dict Block
  pub verified_blocks : Dict (Unit {0})
  pub messages : Dict FbftMessage

unfoldable pub new_fbft_log : FbftLog
new_fbft_log = record { blocks = []; verified_blocks = []; messages = [] }

unfoldable pub add_block : FbftLog → Block → FbftLog
add_block log b = record log { blocks = put b.hash b log.blocks }

unfoldable pub mark_block_verified : FbftLog → Block → FbftLog
mark_block_verified log b = record log { verified_blocks = put b.hash tt log.verified_blocks }

unfoldable pub is_block_verified : FbftLog → Block → Bool
is_block_verified log b = has b.hash log.verified_blocks

unfoldable pub get_block_by_hash : FbftLog → ℕ → Option Block
get_block_by_hash log h = get? h log.blocks

unfoldable pub get_blocks_by_number : FbftLog → ℕ → List Block
get_blocks_by_number log n = select (λ b. b.number == n) (values log.blocks)

-- One round of the loop of the two deletions.
unfoldable pub delete_entry : Bool → ℕ → FbftLog → FbftLog
delete_entry false h log = log
delete_entry true h log = record log {
  blocks = remove h log.blocks;
  verified_blocks = remove h log.verified_blocks;
}

-- The loop visits `entries`, the blocks as they were.
unfoldable pub delete_blocks : (ℕ → Bool) → Dict Block → FbftLog → FbftLog
delete_blocks hit [] log = log
delete_blocks hit ((h, b) ∷ entries) log =
    delete_blocks hit entries (delete_entry (hit b.number) h log)

unfoldable pub delete_blocks_less_than : FbftLog → ℕ → FbftLog
delete_blocks_less_than log n = delete_blocks (λ k. ltb k n) log.blocks log

unfoldable pub delete_block_by_number : FbftLog → ℕ → FbftLog
delete_block_by_number log n = delete_blocks (λ k. k == n) log.blocks log

unfoldable pub delete_messages_less_than : FbftLog → ℕ → FbftLog
delete_messages_less_than log n = record log {
  messages = keep (λ i m. not (ltb m.block_num n)) log.messages;
}

abbrev pub verify : Bool → FbftMessage → FbftMessage
verify v m = record m { verified = v }

unfoldable pub add_verified_message : FbftLog → FbftMessage → FbftLog
add_verified_message log m = record log { messages = put (id m) (verify true m) log.messages }

unfoldable pub add_not_verified_message : FbftLog → FbftMessage → FbftLog
add_not_verified_message log m = record log { messages = put (id m) (verify false m) log.messages }

-- The tests of the queries.
abbrev pub is_not_verified_committed : ℕ → ℕ → ℕ → FbftMessage → Bool
is_not_verified_committed num view hash m =
    m.message_type == committed
    && (m.block_num == num && (m.view_id == view && (m.block_hash == hash && not m.verified)))

abbrev pub is_type_seq_view_hash : ℕ → ℕ → ℕ → ℕ → FbftMessage → Bool
is_type_seq_view_hash typ num view hash m =
    m.message_type == typ
    && (m.block_num == num && (m.view_id == view && (m.block_hash == hash && m.verified)))

abbrev pub is_type_seq : ℕ → ℕ → FbftMessage → Bool
is_type_seq typ num m = m.message_type == typ && (m.block_num == num && m.verified)

abbrev pub is_type_seq_hash : ℕ → ℕ → ℕ → FbftMessage → Bool
is_type_seq_hash typ num hash m =
    m.message_type == typ && (m.block_num == num && (m.block_hash == hash && m.verified))

-- `continue` unless this holds: `&&` binds tighter than `||`.
abbrev pub is_type_seq_view : ℕ → ℕ → ℕ → FbftMessage → Bool
is_type_seq_view typ num view m = not (
    not (m.message_type == typ)
    || (not (m.block_num == num) || (not (m.view_id == view) && m.verified)))

abbrev pub find_messages : (FbftMessage → Bool) → FbftLog → List FbftMessage
find_messages p log = select p (values log.messages)

unfoldable pub get_not_verified_committed_messages : FbftLog → ℕ → ℕ → ℕ → List FbftMessage
get_not_verified_committed_messages log num view hash =
    find_messages (is_not_verified_committed num view hash) log

unfoldable pub get_messages_by_type_seq_view_hash : FbftLog → ℕ → ℕ → ℕ → ℕ → List FbftMessage
get_messages_by_type_seq_view_hash log typ num view hash =
    find_messages (is_type_seq_view_hash typ num view hash) log

unfoldable pub get_messages_by_type_seq : FbftLog → ℕ → ℕ → List FbftMessage
get_messages_by_type_seq log typ num = find_messages (is_type_seq typ num) log

unfoldable pub get_messages_by_type_seq_hash : FbftLog → ℕ → ℕ → ℕ → List FbftMessage
get_messages_by_type_seq_hash log typ num hash = find_messages (is_type_seq_hash typ num hash) log

unfoldable pub get_messages_by_type_seq_view : FbftLog → ℕ → ℕ → ℕ → List FbftMessage
get_messages_by_type_seq_view log typ num view = find_messages (is_type_seq_view typ num view) log

unfoldable pub has_matching_announce : FbftLog → ℕ → ℕ → Bool
unfolding get_messages_by_type_seq_hash
has_matching_announce log num hash =
    leb 1 (length (get_messages_by_type_seq_hash log announce num hash))

unfoldable pub has_matching_view_announce : FbftLog → ℕ → ℕ → ℕ → Bool
unfolding get_messages_by_type_seq_view_hash
has_matching_view_announce log num view hash =
    leb 1 (length (get_messages_by_type_seq_view_hash log announce num view hash))

unfoldable pub has_matching_prepared : FbftLog → ℕ → ℕ → Bool
unfolding get_messages_by_type_seq_hash
has_matching_prepared log num hash =
    leb 1 (length (get_messages_by_type_seq_hash log prepared num hash))

unfoldable pub has_matching_view_prepared : FbftLog → ℕ → ℕ → ℕ → Bool
unfolding get_messages_by_type_seq_view_hash
has_matching_view_prepared log num view hash =
    leb 1 (length (get_messages_by_type_seq_view_hash log prepared num view hash))

-- The loop of GetCommittedBlockAndMsgsFromNumber; `none` is errFBFTLogNotFound.
unfoldable pub first_with_block : FbftLog → List FbftMessage → Option (Block × FbftMessage)
unfolding get_block_by_hash
first_with_block log [] = none
first_with_block log (m ∷ ms) =
    let rest = first_with_block log ms in
    elim (get_block_by_hash log m.block_hash) [ none ↦ rest | some b ↦ some (b, m) ]

unfoldable pub get_committed_block_and_msgs_from_number : FbftLog → ℕ → Option (Block × FbftMessage)
unfolding first_with_block get_messages_by_type_seq
get_committed_block_and_msgs_from_number log bn =
    first_with_block log (get_messages_by_type_seq log committed bn)

-- bn - 1 on uint64.
abbrev pub before : ℕ → ℕ
before bn = (bn + 2 ^ 64 - 1) % 2 ^ 64

unfoldable pub prune_cache_before_block : FbftLog → ℕ → FbftLog
unfolding delete_blocks_less_than delete_messages_less_than
prune_cache_before_block log bn =
    delete_messages_less_than (delete_blocks_less_than log (before bn)) (before bn)
