-- ===== src/Quorum/Tests.antt =====
-- The decider at concrete committees and votes.
use benzene.Prelude.{
  ℕ, ◌*◌, ◌<◌, ◌≡◌, ◌↔◌, refl, inl, inr, true, some, none, List, [], ◌∷◌, arith, In, Distinct,
  length, get_elem?,
}
use benzene.Prelude.Int.{negsuc}
use benzene.Quorum.{
  prepare, commit, view_change, Ballot, CIdentities, ballot_box, read_ballot, is_quorum_achieved,
  participants_count, signers_count, two_thirds_signers_count, submit_vote, refused, after,
  VoteError, update_participants, index_keys, index_of, aggregate_votes, is_quorum_achieved_by_mask,
  check_keys, record_votes, put_all, contains, new_ballots_backed_signature_reader,
}
use benzene.Bytes.{total_ones}
use benzene.Quorum.Votes.{vote_of}
use benzene.Quorum.Boxes.{IsFiled}
use benzene.Quorum.History.{
  Call, submits, updates, run, step, run-new-AreBoxes, run-AreBoxes, new-AreBoxes,
  submit_vote-twice,
}
use benzene.Quorum.Overlap.{quorums_overlap, common, signers}
use benzene.Quorum.Aggregate.{aggregate_votes-signers, all_signers}
use benzene.Quorum.Committee.{panics, nth_next, index_of-update_participants, nth_next-backward}
use benzene.Quorum.Mask.{is_quorum_achieved_by_mask-total_ones}

abbrev members : List ℕ
members = 1 ∷ 2 ∷ 3 ∷ 4 ∷ []

abbrev newcomers : List ℕ
newcomers = 5 ∷ 6 ∷ []

abbrev ballot : Ballot
ballot = vote_of (1 ∷ 2 ∷ 3 ∷ []) 7 9 5 0

abbrev other : Ballot
other = vote_of (4 ∷ []) 8 9 5 0

-- Three of four members have voted to prepare, and all four to commit.
abbrev busy : CIdentities
busy = record {
  public_keys = members;
  key_index_map = (1, 0) ∷ (2, 1) ∷ (3, 2) ∷ (4, 3) ∷ [];
  prepare_round = (1, ballot) ∷ (2, ballot) ∷ (3, ballot) ∷ [];
  commit_round = (1, ballot) ∷ (2, ballot) ∷ (3, ballot) ∷ (4, other) ∷ [];
  view_change_round = [];
}

abbrev calls : List Call
calls =
    updates members ∷ submits prepare (1 ∷ 2 ∷ []) 7 9 5 0 ∷ submits prepare (2 ∷ []) 8 9 5 0 ∷ []

quorums_overlap_example :
    participants_count busy < 3 * length (common (signers busy prepare) (signers busy commit))
unfolding is_quorum_achieved signers_count two_thirds_signers_count participants_count ballot_box
quorums_overlap_example =
    quorums_overlap busy busy prepare commit refl (refl, (refl, (refl, tt)))
      (refl, (refl, (refl, (refl, tt)))) (inl refl, (inr (inl refl), (inr (inr (inl refl)), tt)))
      (inl refl, (inr (inl refl), (inr (inr (inl refl)), (inr (inr (inr (inl refl))), tt)))) refl
      refl

submit_vote-twice_example :
    (e : VoteError) × (submit_vote
        (record busy { view_change_round = (2, vote_of (2 ∷ []) 7 9 5 0) ∷ [] })
        view_change
        (3 ∷ 2 ∷ [])
        1
        1
        5
        0
      ≡ refused e)
    × (after
          (record busy { view_change_round = (2, vote_of (2 ∷ []) 7 9 5 0) ∷ [] })
          (submit_vote
            (record busy { view_change_round = (2, vote_of (2 ∷ []) 7 9 5 0) ∷ [] })
            view_change
            (3 ∷ 2 ∷ [])
            1
            1
            5
            0)
        ≡ record busy { view_change_round = (2, vote_of (2 ∷ []) 7 9 5 0) ∷ [] })
unfolding submit_vote check_keys record_votes put_all contains read_ballot ballot_box
submit_vote-twice_example =
    submit_vote-twice busy (record busy { view_change_round = (2, vote_of (2 ∷ []) 7 9 5 0) ∷ [] })
      view_change (2 ∷ []) (3 ∷ 2 ∷ []) 2 7 9 5 0 1 1 5 0 (vote_of (2 ∷ []) 7 9 5 0) tt refl
      (inl refl) (inr (inl refl))

run-new-AreBoxes_example :
    IsFiled
      (ballot_box prepare (run new_ballots_backed_signature_reader calls))
      2
      (vote_of (1 ∷ 2 ∷ []) 7 9 5 0)
unfolding run step submit_vote check_keys record_votes put_all contains read_ballot ballot_box
    update_participants index_keys new_ballots_backed_signature_reader
run-new-AreBoxes_example = run-new-AreBoxes calls prepare 2 (vote_of (1 ∷ 2 ∷ []) 7 9 5 0) refl

index_of-update_participants_example :
    ((j : ℕ)
      → get_elem? newcomers j ≡ some 6
      → index_of (update_participants busy newcomers) 6 ≡ some j)
    × ((¬ In 6 newcomers) → index_of (update_participants busy newcomers) 6 ≡ none)
index_of-update_participants_example =
    index_of-update_participants busy newcomers 6
      (elim [ inl e ↦ omega (arith, e) | inr i ↦ i ], ((λ i. i), tt))

nth_next-backward_example : nth_next busy 1 (negsuc 0) ≡ panics
unfolding index_of
nth_next-backward_example =
    nth_next-backward busy 1 0 refl (omega arith) 0 (omega arith) (λ e. absurd (omega (arith, e)))

is_quorum_achieved_by_mask-total_ones_example :
    ((is_quorum_achieved_by_mask busy (some (7 ∷ [])) ≡ true) ↔ (2 * 4 < 3 * total_ones (7 ∷ [])))
    × ¬ (is_quorum_achieved_by_mask busy none ≡ true)
is_quorum_achieved_by_mask-total_ones_example =
    is_quorum_achieved_by_mask-total_ones busy (7 ∷ []) (omega arith, tt)

aggregate_votes-signers_example :
    Distinct (all_signers (aggregate_votes (run new_ballots_backed_signature_reader calls) prepare))
    × ((k : ℕ)
        → In k
            (all_signers (aggregate_votes (run new_ballots_backed_signature_reader calls) prepare))
          ↔ ((b : Ballot) × (read_ballot (run new_ballots_backed_signature_reader calls) prepare k
                ≡ some b)))
aggregate_votes-signers_example =
    aggregate_votes-signers (run new_ballots_backed_signature_reader calls) prepare
      (run-AreBoxes calls new_ballots_backed_signature_reader new-AreBoxes prepare)
