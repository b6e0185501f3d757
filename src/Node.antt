-- ===== src/Node.antt =====
-- A node of the committee: consensus/consensus.go and consensus/consensus_service.go. How a block
-- and its committed message become a block of the chain. The chain and the libraries that the node
-- calls are the record Services; the committee of a new epoch comes from it too.
pub mod Validator
pub mod CatchUp
pub mod Setup
pub mod CommitBlock
pub mod Committed
pub mod Tests
use benzene.Prelude.{
  ℕ, zero, suc, ◌+◌, ◌-◌, ◌%◌, ◌^◌, Bool, true, false, not, ◌&&◌, Option, none, some, List, [], ◌∷◌,
  length, ltb, leb, ◌==◌, if◌then◌else◌,
}
use benzene.Quorum.{CIdentities, reset_prepare_and_commit_votes, update_participants, index_of}
use benzene.FbftLog.{
  Block, FbftMessage, FbftLog, has_single_sender, is_block_verified, mark_block_verified,
  get_committed_block_and_msgs_from_number, prune_cache_before_block,
}
use benzene.Timeout.{Timeout, stop}

pub data Mode : Type 0 where
  normal view_changing syncing listening : Mode

pub data FbftPhase : Type 0 where
  fbft_announce fbft_prepare fbft_commit : FbftPhase

-- What the validator's side reads and writes of Consensus.
pub record Node (Chain Mask : Type 0) : Type 0 where
  pub decider : CIdentities
  pub log : FbftLog
  pub block_num : ℕ
  pub block_hash : ℕ
  pub block : List ℕ
  pub leader_pub_key : Option ℕ
  pub phase : FbftPhase
  pub mode : Mode
  pub consensus_timeout : Timeout
  pub bootstrap_timeout : Timeout
  pub aggregated_prepare_sig : Option ℕ
  pub aggregated_commit_sig : Option ℕ
  pub prepare_bitmap : Mask
  pub commit_bitmap : Mask
  pub chain : Chain
  -- Is there a block verifier?
  pub initialized : Bool
  -- Is the one place of BlockNumLowChan taken?
  pub block_num_low : Bool

-- What InsertChain of one block leaves: a chain, with or without an error, or a panic.
pub data Inserted (Chain : Type 0) : Type 0 where
  inserted refused : Chain → Inserted Chain
  crashed : Inserted Chain

-- How commitBlock ends: without an error, with one, or with a panic.
pub data Ended : Type 0 where
  done failed panicked : Ended

pub record Services (Chain Mask : Type 0) : Type 0 where
  pub current_number : Chain → ℕ
  pub insert_chain : Chain → Block → Inserted Chain
  -- The callback PostConsensusJob, where one is set. Its error is ignored.
  pub post_consensus_job : Option (Node Chain Mask → Block → Node Chain Mask)
  pub has_block : Chain → ℕ → Bool
  pub read_commit_sig : Chain → ℕ → Option (List ℕ)
  pub write_commit_sig : Chain → ℕ → List ℕ → Chain
  pub is_last_block_in_epoch : Block → Bool
  pub block_verifier : Block → Bool
  pub decode_block : List ℕ → Option Block
  pub update_consensus_information : Node Chain Mask → Node Chain Mask × Mode
  -- The signature of a payload, and the mask of the members who signed it.
  pub read_signature_bitmap : List ℕ → List ℕ → Option (ℕ × Mask)
  pub bitmap_of : Mask → List ℕ
  pub aggregate_public : Mask → ℕ
  pub verify_hash : ℕ → ℕ → ℕ → Bool
  pub commit_payload : Block → ℕ
  pub new_mask : List ℕ → Mask
  pub clear : Mask → Mask
  -- SetMask, which takes the bytes behind the signature.
  pub set_mask : Mask → List ℕ → Mask
  pub count_enabled : Mask → ℕ

-- The first member leads; an empty committee leaves the leader as it was.
abbrev pub first_leader : List ℕ → Option ℕ → Option ℕ
first_leader [] old = old
first_leader (k ∷ ks) old = some k

-- getLastMileBlocksAndMsg, on fuel.
unfoldable pub last_mile : ℕ → FbftLog → ℕ → List (Block × FbftMessage)
last_mile zero log bn = []
last_mile (suc fuel) log bn = elim (get_committed_block_and_msgs_from_number log bn) [
  | none ↦ []
  | some found ↦ found ∷ last_mile fuel log ((bn + 1) % 2 ^ 64)
]

abbrev pub get_last_mile_blocks_and_msg : FbftLog → ℕ → List (Block × FbftMessage)
get_last_mile_blocks_and_msg log bn = last_mile (suc (length log.messages)) log bn

module _ {Chain Mask : Type 0} (lib : Services Chain Mask) where
  unfoldable pub reset_state : Node Chain Mask → Node Chain Mask
  reset_state s = record s {
    phase = fbft_announce;
    block_hash = 0;
    block = [];
    decider = reset_prepare_and_commit_votes s.decider;
    prepare_bitmap = lib.clear s.prepare_bitmap;
    commit_bitmap = lib.clear s.commit_bitmap;
    aggregated_prepare_sig = none;
    aggregated_commit_sig = none;
  }

  -- The masks of the members, none set. The mask of construct.go is left out.
  unfoldable pub update_bitmaps : Node Chain Mask → Node Chain Mask
  update_bitmaps s = record s {
    prepare_bitmap = lib.new_mask s.decider.public_keys;
    commit_bitmap = lib.new_mask s.decider.public_keys;
  }

  unfoldable pub update_public_keys : Node Chain Mask → List ℕ → Node Chain Mask
  unfolding update_bitmaps reset_state
  update_public_keys s pub_keys = reset_state (
      update_bitmaps (record s {
        decider = update_participants s.decider pub_keys;
        leader_pub_key = first_leader pub_keys s.leader_pub_key;
      }))

  unfoldable pub is_validator_in_committee : Node Chain Mask → ℕ → Bool
  is_validator_in_committee s k = elim (index_of s.decider k) [ none ↦ false | some i ↦ true ]

  -- SetupForNewConsensus. `sender` is the first sender of the committed message.
  unfoldable pub setup_for_new_consensus : Node Chain Mask → Block → ℕ → Node Chain Mask
  setup_for_new_consensus s blk sender =
      let begun : Node Chain Mask = record s {
        block_num = (blk.number + 1) % 2 ^ 64;
        leader_pub_key = some sender;
      } in
      let (updated, mode) = lib.update_consensus_information begun in
      let ready : Node Chain Mask =
        if lib.is_last_block_in_epoch blk then record updated { mode = mode } else begun in
      reset_state (record ready { log = prune_cache_before_block ready.log blk.number })

  -- The first step of commitBlock: a chain that is behind takes the block.
  unfoldable pub add_to_chain : Node Chain Mask → Block → Node Chain Mask × Ended
  add_to_chain s blk =
      if ltb (lib.current_number s.chain) blk.number
      then elim (lib.insert_chain s.chain blk) [
        | inserted c ↦ (record s { chain = c }, done)
        | refused c ↦ (record s { chain = c }, failed)
        | crashed ↦ (s, panicked)
      ]
      else (s, done)

  -- Its steps once the chain has the block. A call of a callback that is not set is a panic.
  unfoldable pub finish_block : Node Chain Mask → Block → FbftMessage → Node Chain Mask × Ended
  finish_block s blk m = elim m.sender_pubkeys [
    | [] ↦ (s, failed)
    | k ∷ ks ↦
        let last : Node Chain Mask × Ended = elim lib.post_consensus_job [
          | none ↦ (s, panicked)
          | some job ↦ (setup_for_new_consensus (job s blk) blk k, done)
        ] in
        if has_single_sender m then last else (s, failed)
  ]

  -- commitBlock
  unfoldable pub commit_block : Node Chain Mask → Block → FbftMessage → Node Chain Mask × Ended
  commit_block s blk m =
      let (t, first) = add_to_chain s blk in
      elim first [ done ↦ finish_block t blk m | failed ↦ (t, failed) | panicked ↦ (t, panicked) ]

  -- A block that is verified, and marked so.
  unfoldable pub verify_block : Node Chain Mask → Block → Option (Node Chain Mask)
  verify_block s blk =
      if is_block_verified s.log blk
      then some s
      else if lib.block_verifier blk
      then some (record s { log = mark_block_verified s.log blk })
      else none

  -- The loop of tryCatchup over the blocks that were found at its start, and whether it panics.
  unfoldable pub commit_blocks :
      Node Chain Mask → List (Block × FbftMessage) → Node Chain Mask × Bool
  commit_blocks s [] = (s, false)
  commit_blocks s ((blk, m) ∷ rest) = elim (verify_block s blk) [
    | none ↦ (s, false)
    | some t ↦
        let (u, end) = commit_block t blk m in
        let next = commit_blocks u rest in
        elim end [ done ↦ next | failed ↦ (u, false) | panicked ↦ (u, true) ]
  ]

  unfoldable pub post_catchup : ℕ → Node Chain Mask → Node Chain Mask
  post_catchup init_bn s = if ltb init_bn s.block_num then record s { phase = fbft_announce } else s

  -- The deferred postCatchup runs after a panic too.
  unfoldable pub try_catchup : Node Chain Mask → Node Chain Mask × Bool
  try_catchup s =
      let (t, panics) = commit_blocks s (get_last_mile_blocks_and_msg s.log s.block_num) in
      if s.initialized then (post_catchup s.block_num t, panics) else (s, false)

  unfoldable pub spin_up_state_sync : ℕ → Node Chain Mask → Node Chain Mask
  spin_up_state_sync now s = if s.block_num_low then s else record s {
    block_num_low = true;
    mode = syncing;
    consensus_timeout = stop now s.consensus_timeout;
    bootstrap_timeout = stop now s.bootstrap_timeout;
  }
