-- ===== src/Node/Tests.antt =====
-- A node at concrete messages. The libraries are toys: the chain is the number of its last block, a
-- mask is the list of its keys, a payload is its own signature and mask, and a signature verifies a
-- hash if it is the number of signers plus the hash.
use benzene.Prelude.{
  ℕ, zero, suc, ◌+◌, ◌≡◌, ◌⊎◌, refl, true, false, some, none, List, [], ◌∷◌, arith, length, ◌==◌,
}
use benzene.FbftLog.{
  Block, FbftMessage, FbftLog, new_fbft_log, add_block, add_verified_message, committed,
  get_block_by_hash,
}
use benzene.FbftLog.Entries.{IsLog, adds_block, adds_verified, new-IsLog, step, step-IsLog}
use benzene.Timeout.{new_timeout}
use benzene.Node.{
  Node, Services, inserted, normal, fbft_announce, get_last_mile_blocks_and_msg,
  setup_for_new_consensus,
}
use benzene.Node.Validator.{on_committed}
use benzene.Node.CatchUp.{IsMile, get_last_mile_blocks_and_msg-IsMile}
use benzene.Node.Setup.{IsFresh, IsNext, IsPruned, Clears, setup_for_new_consensus-IsNext}
use benzene.Node.Committed.{IsKept, IsSigned, on_committed-IsSigned}

abbrev toy : Services ℕ (List ℕ)
toy = record {
  current_number = λ c. c;
  insert_chain = λ c b. inserted b.number;
  post_consensus_job = some (λ s b. s);
  has_block = λ c h. true;
  read_commit_sig = λ c n. none;
  write_commit_sig = λ c n sig. c;
  is_last_block_in_epoch = λ b. false;
  block_verifier = λ b. true;
  decode_block = elim [
    | [] ↦ none
    | h ∷ (bs → ih) ↦ some (record { hash = h; number = 5; epoch = 0 })
  ];
  update_consensus_information = λ s. (s, normal);
  read_signature_bitmap = λ payload keys. some (14, keys);
  bitmap_of = λ mask. 255 ∷ [];
  aggregate_public = length;
  verify_hash = λ sig key hash. sig == key + hash;
  commit_payload = λ b. b.hash;
  new_mask = λ keys. [];
  clear = λ mask. [];
  set_mask = λ mask bytes. mask;
  count_enabled = length;
}

abbrev block : Block
block = record { hash = 11; number = 5; epoch = 0 }

abbrev the_payload : ℕ → List ℕ
the_payload zero = []
the_payload (suc n) = 1 ∷ the_payload n

abbrev the_key : ℕ
the_key = 8

abbrev message : FbftMessage
message = record {
  message_type = committed;
  view_id = 0;
  block_num = 5;
  block_hash = 11;
  block = 11 ∷ [];
  sender_pubkeys = 1 ∷ [];
  sender_pubkey_bitmap = [];
  payload = the_payload 97;
  verified = false;
}

abbrev log : FbftLog
log = step (step new_fbft_log (adds_block block)) (adds_verified message)

log-IsLog : IsLog log
log-IsLog =
    step-IsLog (step new_fbft_log (adds_block block)) (adds_verified message)
      (step-IsLog new_fbft_log (adds_block block) new-IsLog)

-- A member of three at block five.
abbrev member : Node ℕ (List ℕ)
member = record {
  decider = record {
    public_keys = 1 ∷ 2 ∷ 3 ∷ [];
    key_index_map = (1, 0) ∷ (2, 1) ∷ (3, 2) ∷ [];
    prepare_round = [];
    commit_round = [];
    view_change_round = [];
  };
  log = log;
  block_num = 5;
  block_hash = 0;
  block = [];
  leader_pub_key = some 1;
  phase = fbft_announce;
  mode = normal;
  consensus_timeout = new_timeout 0 30;
  bootstrap_timeout = new_timeout 0 30;
  aggregated_prepare_sig = none;
  aggregated_commit_sig = none;
  prepare_bitmap = [];
  commit_bitmap = [];
  chain = 4;
  initialized = true;
  block_num_low = false;
}

get_last_mile_blocks_and_msg-IsMile_example : IsMile log 5 (get_last_mile_blocks_and_msg log 5)
unfolding step add_verified_message add_block new_fbft_log
get_last_mile_blocks_and_msg-IsMile_example =
    get_last_mile_blocks_and_msg-IsMile log 5 log-IsLog (omega arith)

on_committed-IsSigned_example :
    (IsKept toy member (on_committed toy 9 member message).0
      × ((on_committed toy 9 member message).1 ≡ false))
    ⊎ ((sig : ℕ) × (mask : List ℕ) × (b : Block) × (get_block_by_hash member.log message.block_hash
          ≡ some b)
        × IsSigned toy member message b.hash sig mask)
on_committed-IsSigned_example = on_committed-IsSigned toy 9 member message

toy-Clears : Clears toy
toy-Clears mask = refl

block_stored : get_block_by_hash member.log block.hash ≡ some block
unfolding step add_verified_message add_block new_fbft_log get_block_by_hash
block_stored = refl

setup_for_new_consensus-IsNext_example :
    IsFresh toy (setup_for_new_consensus toy member block 1)
    × ((false ≡ true)
        ⊎ (IsNext toy member (setup_for_new_consensus toy member block 1) block 1
            × IsPruned toy member.log
                (setup_for_new_consensus toy member block 1).log
                5
                block
                message))
setup_for_new_consensus-IsNext_example =
    setup_for_new_consensus-IsNext toy toy-Clears member block 1 block message log-IsLog
      (omega arith) (omega arith) block_stored
