-- ===== src/Leader.antt =====
-- The leader's handlers of prepare and commit messages: consensus/leader.go, with the checks of
-- consensus/checks.go and consensus/double_sign.go. What a handler starts in other parts is a list
-- of actions, in order. The BLS library (signatures, sums of keys, masks) and the payload and
-- epoch functions of other packages are parameters.
pub mod Checks
pub mod Prepare
pub mod Commit
pub mod Tests
use benzene.Prelude.{
  ℕ, ◌+◌, ◌-◌, Bool, true, false, not, ◌&&◌, ◌||◌, Option, none, some, List, [], ◌∷◌, ◌++◌, length,
  ltb, leb, ◌==◌, if◌then◌else◌,
}
use benzene.Quorum.{
  CIdentities, prepare, commit, Phase, Vote, accepted, refused, read_ballot, submit_vote,
  is_quorum_achieved, is_all_sigs_collected, contains,
}
use benzene.FbftLog.{
  Block, FbftMessage, FbftLog, has_single_sender, announce, get_block_by_hash, get_blocks_by_number,
  has_matching_announce, has_matching_prepared, get_messages_by_type_seq_view,
}

pub data Action : Type 0 where
  reach_prepare_quorum final_commit stop_retry : Action
  pre_commit_and_propose : Block → Action
  -- The goroutine that ends the view with finalCommit unless the view has changed by then.
  grace_period : ℕ → Action
  -- Evidence against a key.
  slash : ℕ → Action

-- What the handlers read and write of Consensus.
pub record Leader (Mask : Type 0) : Type 0 where
  pub decider : CIdentities
  pub log : FbftLog
  pub block_num : ℕ
  pub block_view_id : ℕ
  pub block_hash : ℕ
  pub prepare_bitmap : Mask
  pub commit_bitmap : Mask

abbrev pub max_block_num_diff : ℕ
max_block_num_diff = 100

abbrev pub is_right_block_num_check : ℕ → FbftMessage → Bool
is_right_block_num_check block_num m =
    if ltb m.block_num block_num
    then false
    else not (ltb max_block_num_diff (m.block_num - block_num))

unfoldable pub on_announce_sanity_checks : FbftLog → ℕ → FbftMessage → Bool
on_announce_sanity_checks log block_num m =
    elim (get_messages_by_type_seq_view log announce m.block_num m.view_id) [
      | [] ↦ is_right_block_num_check block_num m
      | first ∷ others ↦
          if not (has_single_sender first) || not (has_single_sender m)
          then false
          else is_right_block_num_check block_num m
    ]

unfoldable pub on_prepared_sanity_checks : ℕ → Block → FbftMessage → Bool
on_prepared_sanity_checks block_num b m =
    if not (b.number == m.block_num) || ltb m.block_num block_num
    then false
    else b.hash == m.block_hash

unfoldable pub could_this_be_a_double_signer : FbftLog → ℕ → FbftMessage → Bool
could_this_be_a_double_signer log block_num m =
    not (has_matching_announce log block_num m.block_hash)
    || not (has_matching_prepared log block_num m.block_hash)

-- Has any of the keys a ballot already?
unfoldable pub any_voted : CIdentities → Phase → List ℕ → Bool
any_voted d p [] = false
any_voted d p (k ∷ ks) =
    let rest = any_voted d p ks in elim (read_ballot d p k) [ some b ↦ true | none ↦ rest ]

abbrev pub is_conflicting : FbftMessage → Block → Bool
is_conflicting m b = b.number == m.block_num && not (b.hash == m.block_hash)

pub any_conflicting : FbftMessage → List Block → Bool
any_conflicting m [] = false
any_conflicting m (b ∷ bs) = is_conflicting m b || any_conflicting m bs

-- The keys of the message that checkDoubleSign has conflicting ballots of. Its search for their
-- addresses in the committee is not modelled.
unfoldable pub accused : FbftLog → CIdentities → FbftMessage → List ℕ → List Action
unfolding any_conflicting
accused log d m [] = []
accused log d m (k ∷ ks) =
    let rest = accused log d m ks in
    elim (read_ballot d commit k) [
      | none ↦ rest
      | some b ↦
          if contains k b.signer_pub_keys
            && any_conflicting m (get_blocks_by_number log m.block_num)
          then slash k ∷ rest
          else rest
    ]

-- What the handlers call of other packages: the masks, signatures and keys of the BLS library, the
-- payload that a commit signs, and the test for a last block.
pub record Library (Mask : Type 0) : Type 0 where
  pub set_keys : Mask → List ℕ → Option Mask
  pub deserialize : List ℕ → Option ℕ
  pub no_key : ℕ
  pub add_key : ℕ → ℕ → ℕ
  pub verify_hash : ℕ → ℕ → ℕ → Bool
  pub commit_payload : Block → ℕ
  pub is_last_block_in_epoch : Block → Bool

module _ {Mask : Type 0} (lib : Library Mask) where
  unfoldable pub sum_keys : ℕ → List ℕ → ℕ
  sum_keys acc [] = acc
  sum_keys acc (k ∷ ks) = sum_keys (lib.add_key acc k) ks

  unfoldable pub signer_key : List ℕ → ℕ
  signer_key [] = lib.no_key
  signer_key (k ∷ []) = k
  signer_key (k ∷ k' ∷ ks) = sum_keys lib.no_key (k ∷ k' ∷ ks)

  -- onPrepare from AddNewVote on.
  unfoldable pub take_prepare : Leader Mask → FbftMessage → ℕ → Leader Mask × List Action
  take_prepare s m sign =
      elim (submit_vote s.decider prepare m.sender_pubkeys sign m.block_hash m.block_num
        m.view_id) [
          | refused e ↦ (s, [])
          | accepted b d ↦ elim (lib.set_keys s.prepare_bitmap m.sender_pubkeys) [
            | none ↦ (record s { decider = d }, [])
            | some mask ↦ (
              record s { decider = d; prepare_bitmap = mask },
              if is_quorum_achieved d prepare then reach_prepare_quorum ∷ [] else [],
            )
          ]
        ]

  -- onPrepare
  unfoldable pub on_prepare : Leader Mask → FbftMessage → Leader Mask × List Action
  on_prepare s m =
      if any_voted s.decider prepare m.sender_pubkeys
      then (s, [])
      else if is_quorum_achieved s.decider prepare
      then (s, [])
      else elim (lib.deserialize m.payload) [
        | none ↦ (s, [])
        | some sign ↦
            if lib.verify_hash sign (signer_key m.sender_pubkeys) s.block_hash
            then take_prepare s m sign
            else (s, [])
      ]

  -- What onCommit starts when the vote is in and the mask is set.
  unfoldable pub after_commit : Bool → CIdentities → ℕ → Block → List Action
  after_commit quorum_was_met d view_id b =
      if is_all_sigs_collected d
      then final_commit ∷ stop_retry ∷ []
      else if not quorum_was_met && is_quorum_achieved d commit
      then (if lib.is_last_block_in_epoch b then [] else pre_commit_and_propose b ∷ [])
        ++ grace_period view_id ∷ stop_retry ∷ []
      else []

  -- onCommit from AddNewVote on.
  unfoldable pub take_commit : Leader Mask → FbftMessage → ℕ → Block → Leader Mask × List Action
  take_commit s m sign block =
      elim (submit_vote s.decider commit m.sender_pubkeys sign m.block_hash m.block_num 0) [
        | refused e ↦ (s, [])
        | accepted b d ↦ elim (lib.set_keys s.commit_bitmap m.sender_pubkeys) [
          | none ↦ (record s { decider = d }, [])
          | some mask ↦ (
            record s { decider = d; commit_bitmap = mask },
            after_commit (is_quorum_achieved s.decider commit) d s.block_view_id block,
          )
        ]
      ]

  -- onCommit from the search for the block on.
  unfoldable pub verify_commit : Leader Mask → FbftMessage → ℕ → Leader Mask × List Action
  verify_commit s m sign = elim (get_block_by_hash s.log m.block_hash) [
    | none ↦ (s, [])
    | some block ↦
        if not (lib.verify_hash sign (signer_key m.sender_pubkeys) (lib.commit_payload block))
        then (s, [])
        else if could_this_be_a_double_signer s.log s.block_num m
        then (s, accused s.log s.decider m m.sender_pubkeys)
        else take_commit s m sign block
  ]

  -- onCommit
  unfoldable pub on_commit : Leader Mask → FbftMessage → Leader Mask × List Action
  on_commit s m =
      if not (m.view_id == s.block_view_id) || not (m.block_num == s.block_num)
      then (s, [])
      else if any_voted s.decider commit m.sender_pubkeys
      then (s, [])
      else elim (lib.deserialize m.payload) [ none ↦ (s, []) | some sign ↦ verify_commit s m sign ]
