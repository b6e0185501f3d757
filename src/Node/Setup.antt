-- ===== src/Node/Setup.antt =====
-- SetupForNewConsensus and UpdatePublicKeys: how a round begins.
use benzene.Prelude.{
  ℕ, suc, ◌↔◌, ◌+◌, ◌%◌, ◌^◌, ◌≤◌, ◌<◌, ◌≡◌, refl, ◌⊎◌, if◌then◌else◌, inl, inr, true, false, none,
  some, List, [], ◌∷◌, arith, Bool-cases, Distinct, get_elem?, In, ltb, ◌==◌,
}
use benzene.Quorum.{
  prepare, commit, view_change, ballot_box, signers_count, index_of, update_participants,
  reset_prepare_and_commit_votes, reset, reset_phase, read_ballot, is_quorum_achieved,
  two_thirds_signers_count,
}
use benzene.Quorum.Committee.{index_of-update_participants}
use benzene.FbftLog.{Block, FbftMessage, FbftLog, get_block_by_hash, prune_cache_before_block}
use benzene.FbftLog.Entries.{IsLog}
use benzene.FbftLog.Queries.{Stored}
use benzene.FbftLog.Prune.{prune_cache_before_block_lem}
use benzene.Node.{
  Node, Services, fbft_announce, first_leader, reset_state, update_bitmaps, update_public_keys,
  is_validator_in_committee, setup_for_new_consensus,
}

module _ {Chain Mask : Type 0} (lib : Services Chain Mask) where
  -- A node at the start of a round: no block, no ballot, no signature, and no quorum.
  pub record IsFresh (s : Node Chain Mask) : Type 0 where
    pub phase : s.phase ≡ fbft_announce
    pub no_block : (s.block_hash ≡ 0) × (s.block ≡ [])
    pub no_ballots :
        (k : ℕ) → (read_ballot s.decider prepare k ≡ none) × (read_ballot s.decider commit k ≡ none)
    pub no_quorum :
        (is_quorum_achieved s.decider prepare ≡ false)
        × (is_quorum_achieved s.decider commit ≡ false)
    pub no_signatures : (s.aggregated_prepare_sig ≡ none) × (s.aggregated_commit_sig ≡ none)
    pub no_signers :
        (lib.count_enabled s.prepare_bitmap ≡ 0) × (lib.count_enabled s.commit_bitmap ≡ 0)

  -- What a round leaves to the next.
  pub record IsNext (s t : Node Chain Mask) (blk : Block) (sender : ℕ) : Type 0 where
    pub block_num : t.block_num ≡ (blk.number + 1) % 2 ^ 64
    pub leader : t.leader_pub_key ≡ some sender
    pub log : t.log ≡ prune_cache_before_block s.log blk.number
    pub members : t.decider.public_keys ≡ s.decider.public_keys
    pub view_change : ballot_box view_change t.decider ≡ ballot_box view_change s.decider
    pub chain : t.chain ≡ s.chain

  -- Mask.Clear of the BLS library leaves no signer.
  abbrev pub Clears : Type 0
  Clears = (mask : Mask) → lib.count_enabled (lib.clear mask) ≡ 0

  reset_state-IsFresh : Clears → (s : Node Chain Mask) → IsFresh (reset_state lib s)
  unfolding reset_state reset_prepare_and_commit_votes reset reset_phase signers_count ballot_box
      read_ballot is_quorum_achieved two_thirds_signers_count
  reset_state-IsFresh clears s = record {
    phase = refl;
    no_block = (refl, refl);
    no_ballots = λ k. (refl, refl);
    no_quorum = (ground arith, ground arith);
    no_signatures = (refl, refl);
    no_signers = (clears s.prepare_bitmap, clears s.commit_bitmap);
  }

  begun-IsNext :
      (s : Node Chain Mask) (blk : Block) (sender : ℕ)
      → IsNext s
          (reset_state lib (record s {
            block_num = (blk.number + 1) % 2 ^ 64;
            leader_pub_key = some sender;
            log = prune_cache_before_block s.log blk.number;
          }))
          blk
          sender
  unfolding reset_state reset_prepare_and_commit_votes reset reset_phase ballot_box
  begun-IsNext s blk sender = record {
    block_num = refl;
    leader = refl;
    log = refl;
    members = refl;
    view_change = refl;
    chain = refl;
  }

  pub setup-IsFresh :
      Clears
      → (s : Node Chain Mask) (blk : Block) (sender : ℕ)
      → IsFresh (setup_for_new_consensus lib s blk sender)
  unfolding setup_for_new_consensus
  setup-IsFresh clears s blk sender = reset_state-IsFresh clears _

  pub setup-IsNext :
      (s : Node Chain Mask) (blk : Block) (sender : ℕ)
      → (lib.is_last_block_in_epoch blk ≡ true)
        ⊎ IsNext s (setup_for_new_consensus lib s blk sender) blk sender
  unfolding setup_for_new_consensus
  setup-IsNext s blk sender = elim (Bool-cases (lib.is_last_block_in_epoch blk)) [
    | inl last ↦ inl last
    | inr inside ↦ inr (rw (inside, setup_for_new_consensus) (begun-IsNext s blk sender))
  ]

  -- What is left of a block and a message of the log: those of the block number before and later ones.
  abbrev pub IsPruned : FbftLog → FbftLog → ℕ → Block → FbftMessage → Type 0
  IsPruned log log' bn b m =
      (get_block_by_hash log' b.hash ≡ (if ltb (b.number + 1) bn then none else some b))
      × (Stored log' m ↔ (Stored log m × (bn ≤ m.block_num + 1)))

  -- SetupForNewConsensus, of a library whose Mask.Clear leaves no signer, leaves no block, ballot,
  -- quorum, signature or signer of the round before. Unless the block is the last of an epoch, the
  -- next block number is one more than the block's, the sender of the committed message leads, the
  -- members, the ballots for a view change and the chain stay, and a log in order keeps exactly the
  -- blocks and messages that are not two or more numbers before the block, which is above number 0.
  pub setup_for_new_consensus-IsNext :
      Clears
      → (s : Node Chain Mask) (blk : Block) (sender : ℕ) (b : Block) (m : FbftMessage) → IsLog s.log
      → 0 < blk.number
      → blk.number < 2 ^ 64
      → get_block_by_hash s.log b.hash ≡ some b
      → IsFresh (setup_for_new_consensus lib s blk sender)
        × ((lib.is_last_block_in_epoch blk ≡ true)
            ⊎ (IsNext s (setup_for_new_consensus lib s blk sender) blk sender
                × IsPruned s.log (setup_for_new_consensus lib s blk sender).log blk.number b m))
  setup_for_new_consensus-IsNext clears s blk sender b m logged positive word found = (
    setup-IsFresh clears s blk sender,
    elim (setup-IsNext s blk sender) [
      | inl last ↦ inl last
      | inr next ↦
          let pruned =
            prune_cache_before_block_lem s.log blk.number b m logged positive word found in
          inr (next, rw next.log pruned)
    ],
  )

  position_of : (k : ℕ) (ks : List ℕ) → In k ks → (j : ℕ) × (get_elem? ks j ≡ some k)
  position_of k [] i = absurd i
  position_of k (x ∷ ks) (inl e) = (0, rw e refl)
  position_of k (x ∷ ks) (inr i) = let (j, e) = position_of k ks i in (suc j, e)

  updated-IsFresh :
      Clears → (s : Node Chain Mask) (ks : List ℕ) → IsFresh (update_public_keys lib s ks)
  unfolding update_public_keys
  updated-IsFresh clears s ks = reset_state-IsFresh clears (
      update_bitmaps lib (record s {
        decider = update_participants s.decider ks;
        leader_pub_key = first_leader ks s.leader_pub_key;
      }))

  updated_index :
      (s : Node Chain Mask) (ks : List ℕ) (k : ℕ)
      → index_of (update_public_keys lib s ks).decider k
        ≡ index_of (update_participants s.decider ks) k
  unfolding update_public_keys update_bitmaps reset_state reset_prepare_and_commit_votes reset
      reset_phase index_of
  updated_index s ks k = refl

  in_committee :
      (s : Node Chain Mask) (ks : List ℕ) (k : ℕ)
      → Distinct ks
      → In k ks
      → is_validator_in_committee lib (update_public_keys lib s ks) k ≡ true
  unfolding is_validator_in_committee
  in_committee s ks k d i =
      let (j, e) = position_of k ks i in
      let found = (index_of-update_participants s.decider ks k d).0 j e in
      rw (updated_index s ks k, found, is_validator_in_committee) refl

  not_in_committee :
      (s : Node Chain Mask) (ks : List ℕ) (k : ℕ)
      → Distinct ks
      → ¬ In k ks
      → is_validator_in_committee lib (update_public_keys lib s ks) k ≡ false
  unfolding is_validator_in_committee
  not_in_committee s ks k d n =
      rw
        (
          updated_index s ks k,
          (index_of-update_participants s.decider ks k d).1 n,
          is_validator_in_committee,
        )
        refl

  In-cases : (k : ℕ) (ks : List ℕ) → In k ks ⊎ (¬ In k ks)
  In-cases k [] = inr (λ i. i)
  In-cases k (x ∷ ks) = elim (In-cases k ks) [
    | inl i ↦ inl (inr i)
    | inr n ↦ elim (Bool-cases (x == k)) [
      | inl e ↦ inl (inl (ground (arith, e)))
      | inr e ↦ inr (λ i. ground (arith, e, n, i))
    ]
  ]

  -- After UpdatePublicKeys with a leader and others, all distinct, exactly these are in the
  -- committee, the first one leads, and nothing of a round is left.
  pub update_public_keys-IsFresh :
      Clears
      → (s : Node Chain Mask) (leader : ℕ) (others : List ℕ) (k : ℕ) → Distinct (leader ∷ others)
      → IsFresh (update_public_keys lib s (leader ∷ others))
        × ((update_public_keys lib s (leader ∷ others)).leader_pub_key ≡ some leader)
        × (is_validator_in_committee lib (update_public_keys lib s (leader ∷ others)) k ≡ true
            ↔ In k (leader ∷ others))
  unfolding update_public_keys update_bitmaps reset_state
  update_public_keys-IsFresh clears s leader others k d = (
    updated-IsFresh clears s (leader ∷ others),
    refl,
    (
      λ e. elim (In-cases k (leader ∷ others)) [
        | inl i ↦ i
        | inr n ↦ absurd (ground (arith, e, not_in_committee s (leader ∷ others) k d n))
      ],
      in_committee s (leader ∷ others) k d,
    ),
  )
