-- ===== src/Leader/Tests.antt =====
-- The leader's handlers at concrete messages. The library is a toy: a mask is the list of its keys,
-- keys add up, a payload is its own signature, and a signature verifies a payload if it is their
-- key plus the payload.
use benzene.Prelude.{ℕ, ◌+◌, ◌≡◌, ◌⊎◌, refl, false, some, none, List, [], ◌∷◌, ◌++◌, ◌==◌}
use benzene.FbftLog.{Block, FbftMessage}
use benzene.Quorum.{
  Ballot, read_ballot, ballot_box, is_quorum_achieved, submit_vote, check_keys, record_votes,
  put_all, contains, signers_count, two_thirds_signers_count, participants_count,
}
use benzene.Quorum.Votes.{vote_of}
use benzene.Leader.{Leader, Library, on_prepare, take_prepare, signer_key, any_voted, on_commit}
use benzene.Leader.Prepare.{Reached, on_prepare-Reached, on_prepare-twice}
use benzene.Leader.Commit.{Counted, any_slash, on_commit-Counted, on_commit-any_slash}

abbrev toy : Library (List ℕ)
toy = record {
  set_keys = λ mask ks. some (mask ++ ks);
  deserialize = elim [ [] ↦ none | b ∷ (bs → ih) ↦ some b ];
  no_key = 0;
  add_key = λ a b. a + b;
  verify_hash = λ sign key hash. sign == key + hash;
  commit_payload = λ b. b.hash;
  is_last_block_in_epoch = λ b. false;
}

abbrev ballot : Ballot
ballot = vote_of (1 ∷ 2 ∷ []) 7 11 5 0

-- Four members, of which two have voted to prepare.
abbrev waiting : Leader (List ℕ)
waiting = record {
  decider = record {
    public_keys = 1 ∷ 2 ∷ 3 ∷ 4 ∷ [];
    key_index_map = [];
    prepare_round = (1, ballot) ∷ (2, ballot) ∷ [];
    commit_round = [];
    view_change_round = [];
  };
  log = record { blocks = []; verified_blocks = []; messages = [] };
  block_num = 5;
  block_view_id = 3;
  block_hash = 11;
  prepare_bitmap = 1 ∷ 2 ∷ [];
  commit_bitmap = [];
}

abbrev vote : FbftMessage
vote = record {
  message_type = 1;
  view_id = 3;
  block_num = 5;
  block_hash = 11;
  block = [];
  sender_pubkeys = 4 ∷ [];
  sender_pubkey_bitmap = [];
  payload = 15 ∷ [];
  verified = false;
}

abbrev block : Block
block = record { hash = 11; number = 5; epoch = 0 }

on_prepare-Reached_example : Reached toy waiting (on_prepare toy waiting vote).0 vote
unfolding on_prepare take_prepare signer_key any_voted is_quorum_achieved submit_vote check_keys
    record_votes put_all contains read_ballot ballot_box signers_count two_thirds_signers_count
    participants_count
on_prepare-Reached_example = on_prepare-Reached toy waiting vote refl

on_prepare-twice_example :
    on_prepare toy (on_prepare toy waiting vote).0 vote ≡ ((on_prepare toy waiting vote).0, [])
on_prepare-twice_example = on_prepare-twice toy waiting vote 4 [] refl

on_commit-Counted_example :
    (on_commit toy waiting vote ≡ (waiting, []))
    ⊎ ((sign : ℕ) × (b : Block) × Counted toy waiting vote sign b)
on_commit-Counted_example = on_commit-Counted toy waiting vote

on_commit-any_slash_example : any_slash (on_commit toy waiting vote).1 ≡ false
on_commit-any_slash_example = on_commit-any_slash toy waiting vote
