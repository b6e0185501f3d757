-- ===== src/Leader/Prepare.antt =====
-- onPrepare of consensus/leader.go.
use benzene.Prelude.{
  ℕ, ◌≡◌, refl, ◌⊎◌, inl, inr, true, false, some, List, [], ◌∷◌, arith, Option-cases, Bool-cases,
}
use benzene.Quorum.{
  CIdentities, Phase, Ballot, VoteError, prepare, Vote, accepted, refused, read_ballot, submit_vote,
  is_quorum_achieved, ballot_box, contains,
}
use benzene.FbftLog.{FbftMessage}
use benzene.Quorum.Votes.{submit_vote-inv, Recorded}
use benzene.Quorum.Keys.{get?-put_all, contains-In}
use benzene.Leader.{
  Action, Leader, Library, reach_prepare_quorum, any_voted, on_prepare, take_prepare, signer_key,
}

pub Vote-cases :
    (v : Vote)
    → ((e : VoteError) × (v ≡ refused e)) ⊎ ((b : Ballot) × (t : CIdentities) × (v ≡ accepted b t))
Vote-cases (accepted b t) = inr (b, t, refl)
Vote-cases (refused e) = inl (e, refl)

-- After a vote, its keys have ballots.
pub senders_voted :
    (s d : CIdentities) (p : Phase) (js : List ℕ) (b : Ballot) (k : ℕ) (ks : List ℕ)
    → js ≡ k ∷ ks
    → Recorded s p js b d
    → any_voted d p js ≡ true
unfolding any_voted read_ballot
senders_voted s d p js b k ks e r =
    let here : contains k (k ∷ ks) ≡ true = (contains-In k (k ∷ ks)).1 (inl refl) in
    let here' : contains k js ≡ true = rw e here in
    let filed : read_ballot d p k ≡ some b =
      rw (r.box, get?-put_all k js b (ballot_box p s), here') in
    rw (e, filed, any_voted)

module _ {Mask : Type 0} (lib : Library Mask) where
  -- What holds where onPrepare starts the prepared phase.
  pub record Reached (s t : Leader Mask) (m : FbftMessage) : Type 0 where
    pub unreached : is_quorum_achieved s.decider prepare ≡ false
    pub reached : is_quorum_achieved t.decider prepare ≡ true
    pub fresh : any_voted s.decider prepare m.sender_pubkeys ≡ false
    pub signed :
        (sign : ℕ) × (lib.deserialize m.payload ≡ some sign)
        × (lib.verify_hash sign (signer_key lib m.sender_pubkeys) s.block_hash ≡ true)

  taken_reaches :
      (s : Leader Mask) (m : FbftMessage) (sign : ℕ)
      → (take_prepare lib s m sign).1 ≡ reach_prepare_quorum ∷ []
      → is_quorum_achieved (take_prepare lib s m sign).0.decider prepare ≡ true
  unfolding take_prepare
  taken_reaches s m sign e = ground arith

  -- onPrepare starts the prepared phase only at the message that takes the prepare votes over the
  -- quorum: it was not reached before, it is after, none of the senders had voted, and the payload
  -- is a signature of the block by the senders' keys.
  pub on_prepare-Reached :
      (s : Leader Mask) (m : FbftMessage)
      → (on_prepare lib s m).1 ≡ reach_prepare_quorum ∷ []
      → Reached s (on_prepare lib s m).0 m
  unfolding on_prepare
  on_prepare-Reached s m e = elim (Bool-cases (any_voted s.decider prepare m.sender_pubkeys)) [
    | inl voted ↦ absurd (ground arith)
    | inr fresh ↦ elim (Bool-cases (is_quorum_achieved s.decider prepare)) [
      | inl met ↦ absurd (ground arith)
      | inr unmet ↦ elim (Option-cases (lib.deserialize m.payload)) [
        | inl bad ↦ absurd (ground arith)
        | inr (sign, good) ↦
            elim (Bool-cases
              (lib.verify_hash sign (signer_key lib m.sender_pubkeys) s.block_hash)) [
                | inr wrong ↦ absurd (ground arith)
                | inl right ↦
                    rw (fresh, unmet, good, right, on_prepare)
                      (record {
                        unreached = unmet;
                        reached =
                            taken_reaches s m sign
                              (rw (fresh, unmet, good, right, on_prepare) at e);
                        fresh = fresh;
                        signed = (sign, good, right);
                      })
              ]
      ]
    ]
  ]

  -- A message either has no effect, or its senders have voted afterwards.
  Settled : Leader Mask → FbftMessage → Leader Mask × List Action → Type 0
  Settled s m r = (r ≡ (s, [])) ⊎ (any_voted r.0.decider prepare m.sender_pubkeys ≡ true)

  taken-Settled :
      (s : Leader Mask) (m : FbftMessage) (sign k : ℕ) (ks : List ℕ)
      → m.sender_pubkeys ≡ k ∷ ks
      → Settled s m (take_prepare lib s m sign)
  unfolding take_prepare Settled
  taken-Settled s m sign k ks e =
      elim (Vote-cases
        (submit_vote s.decider prepare m.sender_pubkeys sign m.block_hash m.block_num m.view_id)) [
          | inl (x, no_vote) ↦ inl (rw (no_vote, take_prepare) refl)
          | inr (b, d, vote) ↦
              let (fresh, same, r) = submit_vote-inv s.decider d prepare _ _ _ _ _ b tt vote in
              let voted = senders_voted s.decider d prepare _ _ k ks e r in
              elim (Option-cases (lib.set_keys s.prepare_bitmap m.sender_pubkeys)) [
                | inl unset ↦ inr (rw (vote, unset, take_prepare) voted)
                | inr (mask, set) ↦ inr (rw (vote, set, take_prepare) voted)
              ]
        ]

  prepare-Settled :
      (s : Leader Mask) (m : FbftMessage) (k : ℕ) (ks : List ℕ)
      → m.sender_pubkeys ≡ k ∷ ks
      → Settled s m (on_prepare lib s m)
  unfolding on_prepare Settled
  prepare-Settled s m k ks e = elim (Bool-cases (any_voted s.decider prepare m.sender_pubkeys)) [
    | inl voted ↦ inl (rw (voted, on_prepare) refl)
    | inr fresh ↦ elim (Bool-cases (is_quorum_achieved s.decider prepare)) [
      | inl met ↦ inl (rw (fresh, met, on_prepare) refl)
      | inr unmet ↦ elim (Option-cases (lib.deserialize m.payload)) [
        | inl bad ↦ inl (rw (fresh, unmet, bad, on_prepare) refl)
        | inr (sign, good) ↦
            elim (Bool-cases
              (lib.verify_hash sign (signer_key lib m.sender_pubkeys) s.block_hash)) [
                | inr wrong ↦ inl (rw (fresh, unmet, good, wrong, on_prepare) refl)
                | inl right ↦
                    rw (fresh, unmet, good, right, on_prepare) (taken-Settled s m sign k ks e)
              ]
      ]
    ]
  ]

  skip :
      (s : Leader Mask) (m : FbftMessage)
      → any_voted s.decider prepare m.sender_pubkeys ≡ true
      → on_prepare lib s m ≡ (s, [])
  unfolding on_prepare
  skip s m voted = rw (voted, on_prepare)

  -- Handling a prepare message that has a sender a second time changes nothing and starts nothing.
  pub on_prepare-twice :
      (s : Leader Mask) (m : FbftMessage) (k : ℕ) (ks : List ℕ)
      → m.sender_pubkeys ≡ k ∷ ks
      → on_prepare lib (on_prepare lib s m).0 m ≡ ((on_prepare lib s m).0, [])
  unfolding Settled
  on_prepare-twice s m k ks e = elim (prepare-Settled s m k ks e) [
    | inl idle ↦ rw idle idle
    | inr voted ↦ skip (on_prepare lib s m).0 m voted
  ]
