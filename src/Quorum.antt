-- ===== src/Quorum.antt =====
-- consensus/quorum/quorum.go and one-node-one-vote.go: the committee and the ballots of a round.
-- Serialized public keys, hashes and signatures are byte strings of a fixed length, as numbers.
-- Counts are `int64` in Go; a committee has far fewer members than 2 ^ 62, so they do not wrap.
pub mod Committee
pub mod Keys
pub mod Votes
pub mod Boxes
pub mod History
pub mod Mask
pub mod Tests
pub mod Overlap
pub mod Aggregate
use benzene.Prelude.{
  ℕ, suc, ◌+◌, ◌-◌, ◌*◌, ◌/◌, ◌%◌, Bool, true, false, not, Option, none, some, List, [], ◌∷◌, ◌++◌,
  arith, Dict, get?, has, put, values, length, leb, ltb, ◌==◌, if◌then◌else◌, ◌||◌,
}
use benzene.Bytes.{count_one_bits}

-- Phase is a byte: three values have names.
pub data Phase : Type 0 where
  prepare commit view_change : Phase
  unknown : ℕ → Phase

pub record Ballot : Type 0 where
  pub signer_pub_keys : List ℕ
  pub block_header_hash : ℕ
  pub signature : ℕ
  pub height : ℕ
  pub view_id : ℕ

-- BallotBox of votepower.Round. AggregatedVote is never read.
abbrev pub Round : Type 0
Round = Dict Ballot

abbrev pub new_round : Round
new_round = []

pub record CIdentities : Type 0 where
  pub public_keys : List ℕ
  pub key_index_map : Dict ℕ
  pub prepare_round : Round
  pub commit_round : Round
  pub view_change_round : Round

unfoldable pub new_ballots_backed_signature_reader : CIdentities
new_ballots_backed_signature_reader = record {
  public_keys = [];
  key_index_map = [];
  prepare_round = new_round;
  commit_round = new_round;
  view_change_round = new_round;
}

unfoldable pub index_keys : ℕ → List ℕ → Dict ℕ → Dict ℕ
index_keys i [] m = m
index_keys i (k ∷ ks) m = index_keys (suc i) ks (put k i m)

unfoldable pub update_participants : CIdentities → List ℕ → CIdentities
unfolding index_keys
update_participants s pub_keys = record s {
  public_keys = pub_keys;
  key_index_map = index_keys 0 pub_keys [];
}

-- `none` is -1.
unfoldable pub index_of : CIdentities → ℕ → Option ℕ
index_of s k = get? k s.key_index_map

unfoldable pub participants_count : CIdentities → ℕ
participants_count s = length s.public_keys

-- The ballots of a phase; an unknown phase has none.
unfoldable pub ballot_box : Phase → CIdentities → Round
ballot_box prepare s = s.prepare_round
ballot_box commit s = s.commit_round
ballot_box view_change s = s.view_change_round
ballot_box (unknown b) s = []

unfoldable pub signers_count : CIdentities → Phase → ℕ
signers_count s p = length (ballot_box p s)

unfoldable pub two_thirds_signers_count : CIdentities → ℕ
unfolding participants_count
two_thirds_signers_count s = participants_count s * 2 / 3 + 1

unfoldable pub read_ballot : CIdentities → Phase → ℕ → Option Ballot
read_ballot s p key = get? key (ballot_box p s)

unfoldable pub read_all_ballots : CIdentities → Phase → List Ballot
read_all_ballots s p = values (ballot_box p s)

pub data VoteError : Type 0 where
  duplicate_key already_submitted : ℕ → VoteError
  phase_unknown : ℕ → VoteError

-- The first loop of submitVote: what it refuses.
unfoldable pub contains : ℕ → List ℕ → Bool
contains k [] = false
contains k (x ∷ xs) = if x == k then true else contains k xs

unfoldable pub check_keys : CIdentities → Phase → List ℕ → List ℕ → Option VoteError
unfolding contains read_ballot
check_keys s p seen [] = none
check_keys s p seen (k ∷ ks) =
    let rest = check_keys s p (k ∷ seen) ks in
    if contains k seen
    then some (duplicate_key k)
    else elim (read_ballot s p k) [ some b ↦ some (already_submitted k) | none ↦ rest ]

unfoldable pub put_all : List ℕ → Ballot → Round → Round
put_all [] b r = r
put_all (k ∷ ks) b r = put_all ks b (put k b r)

pub data Vote : Type 0 where
  accepted : Ballot → CIdentities → Vote
  refused : VoteError → Vote

-- A refused vote leaves the state as it was.
abbrev pub after : CIdentities → Vote → CIdentities
after s (accepted b t) = t
after s (refused e) = s

-- The second loop. An unknown phase fails at the first key, before anything is written.
unfoldable pub record_votes : Phase → List ℕ → Ballot → CIdentities → Vote
unfolding put_all
record_votes prepare ks b s = accepted b (record s { prepare_round = put_all ks b s.prepare_round })
record_votes commit ks b s = accepted b (record s { commit_round = put_all ks b s.commit_round })
record_votes view_change ks b s =
    accepted b (record s { view_change_round = put_all ks b s.view_change_round })
record_votes (unknown n) [] b s = accepted b s
record_votes (unknown n) (k ∷ ks) b s = refused (phase_unknown n)

unfoldable pub submit_vote : CIdentities → Phase → List ℕ → ℕ → ℕ → ℕ → ℕ → Vote
submit_vote s p pubkeys sig header_hash height view_id =
    let ballot : Ballot = record {
      signer_pub_keys = pubkeys;
      block_header_hash = header_hash;
      signature = sig;
      height = height;
      view_id = view_id;
    } in
    elim (check_keys s p [] pubkeys) [ some e ↦ refused e | none ↦ record_votes p pubkeys ballot s ]

unfoldable pub reset_phase : CIdentities → Phase → CIdentities
reset_phase s prepare = record s { prepare_round = new_round }
reset_phase s commit = record s { commit_round = new_round }
reset_phase s view_change = record s { view_change_round = new_round }
reset_phase s (unknown n) = s

unfoldable pub reset : CIdentities → List Phase → CIdentities
unfolding reset_phase
reset s [] = s
reset s (p ∷ ps) = reset (reset_phase s p) ps

unfoldable pub is_quorum_achieved : CIdentities → Phase → Bool
unfolding signers_count two_thirds_signers_count
is_quorum_achieved s p = leb (two_thirds_signers_count s) (signers_count s p)

unfoldable pub is_all_sigs_collected : CIdentities → Bool
unfolding signers_count participants_count
is_all_sigs_collected s = signers_count s commit == participants_count s

unfoldable pub reset_prepare_and_commit_votes : CIdentities → CIdentities
unfolding reset
reset_prepare_and_commit_votes s = reset s (prepare ∷ commit ∷ [])

unfoldable pub reset_view_change_votes : CIdentities → CIdentities
unfolding reset
reset_view_change_votes s = reset s (view_change ∷ [])

-- The inner loops of AggregateVotes: is a signer of the ballot collected already?
unfoldable pub any_collected : List ℕ → List ℕ → Bool
unfolding contains
any_collected collected [] = false
any_collected collected (k ∷ ks) = if contains k collected then true else any_collected collected ks

-- The ballots whose signatures AggregateVotes adds up, in the order of ReadAllBallots.
unfoldable pub collect : List ℕ → List Ballot → List Ballot
unfolding any_collected
collect collected [] = []
collect collected (b ∷ bs) =
    let skip = collect collected bs in
    let take = b ∷ collect (b.signer_pub_keys ++ collected) bs in
    if any_collected collected b.signer_pub_keys then skip else take

-- AggregateVotes, before the signatures of these ballots are added up by the BLS library.
unfoldable pub aggregate_votes : CIdentities → Phase → List Ballot
unfolding collect read_all_ballots
aggregate_votes s p = collect [] (read_all_ballots s p)

-- IsQuorumAchievedByMask, on the bytes of the mask; `none` is a nil mask.
unfoldable pub is_quorum_achieved_by_mask : CIdentities → Option (List ℕ) → Bool
unfolding two_thirds_signers_count count_one_bits
is_quorum_achieved_by_mask s none = false
is_quorum_achieved_by_mask s (some bitmap) =
    not (ltb (count_one_bits bitmap) (two_thirds_signers_count s))
