-- ===== src/Quorum/History.antt =====
-- Histories of calls of a decider, from NewDecider on.
use benzene.Prelude.{ℕ, ◌≡◌, List, [], ◌∷◌, arith, In, All-In, some, none, get?}
use benzene.Quorum.{
  Phase, prepare, commit, view_change, unknown, CIdentities, ballot_box, read_ballot, Ballot,
  submit_vote, after, accepted, refused, reset, update_participants, VoteError,
  new_ballots_backed_signature_reader,
}
use benzene.Quorum.Keys.{IsFresh, contains-In, get?-put_all}
use benzene.Quorum.Votes.{Recorded, submit_vote-refused, submit_vote-inv, IsKnown}
use benzene.Quorum.Boxes.{AreBoxes, empty-IsBox, submit_vote-AreBoxes, reset-AreBoxes, IsFiled}

-- The calls that change a decider.
pub data Call : Type 0 where
  submits : Phase → List ℕ → ℕ → ℕ → ℕ → ℕ → Call
  resets : List Phase → Call
  updates : List ℕ → Call

unfoldable pub step : CIdentities → Call → CIdentities
step s (submits p ks sig hash height view_id) = after s (submit_vote s p ks sig hash height view_id)
step s (resets ps) = reset s ps
step s (updates ks) = update_participants s ks

unfoldable pub run : CIdentities → List Call → CIdentities
unfolding step
run s [] = s
run s (c ∷ cs) = run (step s c) cs

update-AreBoxes : (s : CIdentities) (ks : List ℕ) → AreBoxes s → AreBoxes (update_participants s ks)
unfolding update_participants ballot_box
update-AreBoxes s ks h prepare = h prepare
update-AreBoxes s ks h commit = h commit
update-AreBoxes s ks h view_change = h view_change
update-AreBoxes s ks h (unknown n) = h (unknown n)

step-AreBoxes : (s : CIdentities) (c : Call) → AreBoxes s → AreBoxes (step s c)
unfolding step
step-AreBoxes s (submits p ks sig hash height view_id) h =
    submit_vote-AreBoxes s p ks sig hash height view_id h
step-AreBoxes s (resets ps) h = reset-AreBoxes ps s h
step-AreBoxes s (updates ks) h = update-AreBoxes s ks h

pub run-AreBoxes : (cs : List Call) (s : CIdentities) → AreBoxes s → AreBoxes (run s cs)
unfolding run
run-AreBoxes [] s h = h
run-AreBoxes (c ∷ cs) s h = run-AreBoxes cs (step s c) (step-AreBoxes s c h)

pub new-AreBoxes : AreBoxes new_ballots_backed_signature_reader
unfolding new_ballots_backed_signature_reader ballot_box
new-AreBoxes prepare = empty-IsBox
new-AreBoxes commit = empty-IsBox
new-AreBoxes view_change = empty-IsBox
new-AreBoxes (unknown n) = empty-IsBox

-- After any calls on a new decider, in each phase a key has at most one ballot, a ballot that is
-- filed under a key names that key among its signers and no signer twice, and all its signers have
-- that same ballot.
pub run-new-AreBoxes :
    (cs : List Call) (p : Phase)
    → let s = run new_ballots_backed_signature_reader cs in
      (k : ℕ) (b : Ballot) → read_ballot s p k ≡ some b → IsFiled (ballot_box p s) k b
unfolding read_ballot
run-new-AreBoxes cs p k b e =
    (run-AreBoxes cs new_ballots_backed_signature_reader new-AreBoxes p).filed k b e

stale :
    (s t : CIdentities) (p : Phase) (ks js : List ℕ) (b : Ballot) (k : ℕ)
    → Recorded s p ks b t
    → In k ks
    → In k js
    → ¬ IsFresh t p js
unfolding read_ballot
stale s t p ks js b k r i j fresh =
    let voted : get? k (ballot_box p t) ≡ some b =
      rw (r.box, get?-put_all k ks b (ballot_box p s), (contains-In k ks).1 i) in
    ground (arith, All-In (λ x. get? x (ballot_box p t) ≡ none) k js fresh.0 j)

-- Once a vote is taken, a second vote in the same phase that shares a key with it is refused,
-- whatever it signs, and leaves the state as it was.
pub submit_vote-twice :
    (s t : CIdentities) (p : Phase) (ks js : List ℕ) (k sig hash height view_id : ℕ)
    (sig' hash' height' view_id' : ℕ) (b : Ballot)
    → IsKnown p
    → submit_vote s p ks sig hash height view_id ≡ accepted b t
    → In k ks
    → In k js
    → (e : VoteError) × (submit_vote t p js sig' hash' height' view_id' ≡ refused e)
      × (after t (submit_vote t p js sig' hash' height' view_id') ≡ t)
submit_vote-twice s t p ks js k sig hash height view_id sig' hash' height' view_id' b known e i j =
    let (fresh, same, r) = submit_vote-inv s t p ks sig hash height view_id b known e in
    let (x, no_vote) =
      submit_vote-refused t p js sig' hash' height' view_id' (stale s t p ks js _ k r i j) in
    (x, no_vote, rw no_vote)
