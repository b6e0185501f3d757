-- ===== src/Leader/Commit.antt =====
-- onCommit of consensus/leader.go, and checkDoubleSign behind it.
use benzene.Prelude.{
  ℕ, ◌≡◌, refl, ◌⊎◌, inl, inr, Bool, true, false, some, List, [], ◌∷◌, arith, Option-cases,
  Bool-cases, ◌==◌,
}
use benzene.Quorum.{CIdentities, commit, read_ballot, submit_vote, is_quorum_achieved}
use benzene.FbftLog.{
  Block, FbftMessage, FbftLog, get_block_by_hash, has_matching_announce, has_matching_prepared,
}
use benzene.Leader.{
  Action, slash, Leader, Library, any_voted, accused, could_this_be_a_double_signer, signer_key,
  after_commit, take_commit, verify_commit, on_commit,
}
use benzene.Leader.Prepare.{Vote-cases}

-- No ballots, no accused.
accused_none :
    (log : FbftLog) (d : CIdentities) (m : FbftMessage) (ks : List ℕ)
    → any_voted d commit ks ≡ false
    → accused log d m ks ≡ []
unfolding any_voted accused
accused_none log d m [] e = refl
accused_none log d m (k ∷ ks) e = elim (Option-cases (read_ballot d commit k)) [
  | inl no_ballot ↦
      rw (no_ballot, accused) (accused_none log d m ks (rw (no_ballot, any_voted) at e))
  | inr (b, ballot) ↦ absurd (voted b ballot)
]
  where
    voted : (b : _) → read_ballot d commit k ≡ some b → ⊥
    voted b ballot = let h : true ≡ false = rw (ballot, any_voted) at e in cc

abbrev pub any_slash : List Action → Bool
any_slash [] = false
any_slash (slash k ∷ as') = true
any_slash (a ∷ as') = any_slash as'

module _ {Mask : Type 0} (lib : Library Mask) where
  -- The conditions under which onCommit counts a vote.
  pub record Counted (s : Leader Mask) (m : FbftMessage) (sign : ℕ) (b : Block) : Type 0 where
    pub view : (m.view_id == s.block_view_id) ≡ true
    pub number : (m.block_num == s.block_num) ≡ true
    pub fresh : any_voted s.decider commit m.sender_pubkeys ≡ false
    pub signature : lib.deserialize m.payload ≡ some sign
    pub block : get_block_by_hash s.log m.block_hash ≡ some b
    pub signed :
        lib.verify_hash sign (signer_key lib m.sender_pubkeys) (lib.commit_payload b) ≡ true
    pub announced : has_matching_announce s.log s.block_num m.block_hash ≡ true
    pub prepared : has_matching_prepared s.log s.block_num m.block_hash ≡ true
    pub handled : on_commit lib s m ≡ take_commit lib s m sign b

  verified :
      (s : Leader Mask) (m : FbftMessage) (sign : ℕ)
      → any_voted s.decider commit m.sender_pubkeys ≡ false
      → (verify_commit lib s m sign ≡ (s, []))
        ⊎ ((b : Block) × (get_block_by_hash s.log m.block_hash ≡ some b)
            × (lib.verify_hash sign (signer_key lib m.sender_pubkeys) (lib.commit_payload b) ≡ true)
            × (has_matching_announce s.log s.block_num m.block_hash ≡ true)
            × (has_matching_prepared s.log s.block_num m.block_hash ≡ true)
            × (verify_commit lib s m sign ≡ take_commit lib s m sign b))
  unfolding verify_commit could_this_be_a_double_signer
  verified s m sign fresh = elim (Option-cases (get_block_by_hash s.log m.block_hash)) [
    | inl unknown ↦ inl (rw (unknown, verify_commit) refl)
    | inr (b, block) ↦
        let none_accused = accused_none s.log s.decider m m.sender_pubkeys fresh in
        elim (Bool-cases
          (lib.verify_hash sign (signer_key lib m.sender_pubkeys) (lib.commit_payload b))) [
            | inr wrong ↦ inl (rw (block, wrong, verify_commit) refl)
            | inl signed ↦
                elim (Bool-cases (has_matching_announce s.log s.block_num m.block_hash)) [
                  | inr unannounced ↦
                      inl (rw (block, signed, unannounced, none_accused, verify_commit) refl)
                  | inl announced ↦
                      elim (Bool-cases (has_matching_prepared s.log s.block_num m.block_hash)) [
                        | inr unprepared ↦ inl (
                            rw (block, signed, announced, unprepared, none_accused, verify_commit)
                              refl)
                        | inl prepared ↦ inr (
                          b,
                          block,
                          signed,
                          announced,
                          prepared,
                          rw (block, signed, announced, prepared, verify_commit) refl,
                        )
                      ]
                ]
          ]
  ]

  -- onCommit leaves the state as it is and starts nothing, or all of its conditions hold and it
  -- goes on to count the vote: the message is for the current view and block number, no sender has
  -- a commit ballot, the block is in the log with an announce and a prepared message for it, and the
  -- payload is a signature of the block's commit payload by the senders' keys.
  pub on_commit-Counted :
      (s : Leader Mask) (m : FbftMessage)
      → (on_commit lib s m ≡ (s, [])) ⊎ ((sign : ℕ) × (b : Block) × Counted s m sign b)
  unfolding on_commit verify_commit could_this_be_a_double_signer
  on_commit-Counted s m = elim (Bool-cases (m.view_id == s.block_view_id)) [
    | inr old ↦ inl (rw (old, on_commit) refl)
    | inl view ↦ elim (Bool-cases (m.block_num == s.block_num)) [
      | inr other ↦ inl (rw (view, other, on_commit) refl)
      | inl number ↦ elim (Bool-cases (any_voted s.decider commit m.sender_pubkeys)) [
        | inl voted ↦ inl (rw (view, number, voted, on_commit) refl)
        | inr fresh ↦ elim (Option-cases (lib.deserialize m.payload)) [
          | inl bad ↦ inl (rw (view, number, fresh, bad, on_commit) refl)
          | inr (sign, good) ↦
              let start : on_commit lib s m ≡ verify_commit lib s m sign =
                rw (view, number, fresh, good, on_commit) refl in
              elim (verified s m sign fresh) [
                | inl idle ↦ inl (rw start idle)
                | inr (b, block, signed, announced, prepared, e) ↦ inr (
                  sign,
                  b,
                  record {
                    view = view;
                    number = number;
                    fresh = fresh;
                    signature = good;
                    block = block;
                    signed = signed;
                    announced = announced;
                    prepared = prepared;
                    handled = rw start e;
                  },
                )
              ]
        ]
      ]
    ]
  ]

  after_commit-any_slash :
      (met : Bool) (d : CIdentities) (view_id : ℕ) (b : Block)
      → any_slash (after_commit lib met d view_id b) ≡ false
  unfolding after_commit
  after_commit-any_slash met d view_id b = ground arith

  take_commit-any_slash :
      (s : Leader Mask) (m : FbftMessage) (sign : ℕ) (b : Block)
      → any_slash (take_commit lib s m sign b).1 ≡ false
  unfolding take_commit
  take_commit-any_slash s m sign b =
      elim (Vote-cases
        (submit_vote s.decider commit m.sender_pubkeys sign m.block_hash m.block_num 0)) [
          | inl (e, no_vote) ↦ rw (no_vote, take_commit) refl
          | inr (c, d, vote) ↦ elim (Option-cases (lib.set_keys s.commit_bitmap m.sender_pubkeys)) [
            | inl unset ↦ rw (vote, unset, take_commit) refl
            | inr (mask, set) ↦
                rw (vote, set, take_commit)
                  (after_commit-any_slash (is_quorum_achieved s.decider commit) d s.block_view_id b)
          ]
        ]

  -- onCommit never sends evidence of a double sign, whatever the message.
  pub on_commit-any_slash :
      (s : Leader Mask) (m : FbftMessage) → any_slash (on_commit lib s m).1 ≡ false
  on_commit-any_slash s m = elim (on_commit-Counted s m) [
    | inl idle ↦ rw idle refl
    | inr (sign, b, c) ↦ rw c.handled (take_commit-any_slash s m sign b)
  ]
