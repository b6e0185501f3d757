-- ===== src/Node/Committed.antt =====
-- onPrepared and onCommitted of consensus/validator.go: what they need before they act.
use benzene.Prelude.{
  ℕ, ◌+◌, ◌-◌, ◌%◌, ◌^◌, ◌≤◌, ◌≡◌, refl, ◌⊎◌, inl, inr, true, false, Option, none, some, [], arith,
  Option-cases, Bool-cases, length, ltb,
}
use benzene.Quorum.{is_quorum_achieved_by_mask}
use benzene.FbftLog.{
  Block, FbftMessage, FbftLog, get_block_by_hash, add_block, add_verified_message,
  add_not_verified_message, mark_block_verified,
}
use benzene.Node.{Node, Services, spin_up_state_sync}
use benzene.Node.Validator.{
  bls_signature_size, read_quorum, sync_if_behind, accept_committed, on_committed,
}

module _ {Chain Mask : Type 0} (lib : Services Chain Mask) where
  -- A signature of the bytes behind the message by a quorum of the committee.
  pub record IsSigned (s : Node Chain Mask) (m : FbftMessage) (payload sig : ℕ) (mask : Mask)
      : Type 0 where
    pub long : bls_signature_size ≤ length m.payload
    pub read : lib.read_signature_bitmap m.payload s.decider.public_keys ≡ some (sig, mask)
    pub quorum : is_quorum_achieved_by_mask s.decider (some (lib.bitmap_of mask)) ≡ true
    pub verified : lib.verify_hash sig (lib.aggregate_public mask) payload ≡ true

  -- What a node keeps where a message is turned down.
  pub record IsKept (s t : Node Chain Mask) : Type 0 where
    pub chain : t.chain ≡ s.chain
    pub block_num : t.block_num ≡ s.block_num
    pub block_hash : t.block_hash ≡ s.block_hash
    pub decider : t.decider ≡ s.decider
    pub prepare_sig : t.aggregated_prepare_sig ≡ s.aggregated_prepare_sig
    pub commit_sig : t.aggregated_commit_sig ≡ s.aggregated_commit_sig
    pub commit_mask : t.commit_bitmap ≡ s.commit_bitmap

  read_quorum_cases :
      (s : Node Chain Mask) (m : FbftMessage)
      → (read_quorum lib s m ≡ none)
        ⊎ ((sig : ℕ) × (mask : Mask) × (read_quorum lib s m ≡ some (sig, mask))
            × (bls_signature_size ≤ length m.payload)
            × (lib.read_signature_bitmap m.payload s.decider.public_keys ≡ some (sig, mask))
            × (is_quorum_achieved_by_mask s.decider (some (lib.bitmap_of mask)) ≡ true))
  unfolding read_quorum
  read_quorum_cases s m = elim (Bool-cases (ltb (length m.payload) bls_signature_size)) [
    | inl short ↦ inl (rw (short, read_quorum) refl)
    | inr long ↦ elim (Option-cases (lib.read_signature_bitmap m.payload s.decider.public_keys)) [
      | inl unread ↦ inl (rw (long, unread, read_quorum) refl)
      | inr ((sig, mask), read) ↦
          elim (Bool-cases (is_quorum_achieved_by_mask s.decider (some (lib.bitmap_of mask)))) [
            | inr few ↦ inl (rw (long, read, few, read_quorum) refl)
            | inl many ↦
                inr (sig, mask, rw (long, read, many, read_quorum) refl, ground arith, read, many)
          ]
    ]
  ]

  synced-IsKept :
      (now : ℕ) (s : Node Chain Mask) (m : FbftMessage)
      → IsKept s (sync_if_behind lib now s m)
        × ((sync_if_behind lib now s m).log ≡ s.log)
        × ((sync_if_behind lib now s m).initialized ≡ s.initialized)
  unfolding sync_if_behind spin_up_state_sync
  synced-IsKept now s m = (
    record {
      chain = ground arith;
      block_num = ground arith;
      block_hash = ground arith;
      decider = ground arith;
      prepare_sig = ground arith;
      commit_sig = ground arith;
      commit_mask = ground arith;
    },
    ground arith,
    ground arith,
  )

  IsKept-refl : (s : Node Chain Mask) → IsKept s s
  IsKept-refl s = record {
    chain = refl;
    block_num = refl;
    block_hash = refl;
    decider = refl;
    prepare_sig = refl;
    commit_sig = refl;
    commit_mask = refl;
  }

  IsKept-log :
      (s t : Node Chain Mask) (log : FbftLog) → IsKept s t → IsKept s (record t { log = log })
  IsKept-log s t log h = record {
    chain = h.chain;
    block_num = h.block_num;
    block_hash = h.block_hash;
    decider = h.decider;
    prepare_sig = h.prepare_sig;
    commit_sig = h.commit_sig;
    commit_mask = h.commit_mask;
  }

  -- onCommitted keeps the chain, the block number and the signatures, and does not panic, unless the
  -- message has a quorum's signature for the commit of a block that is in the log.
  pub on_committed-IsSigned :
      (now : ℕ) (s : Node Chain Mask) (m : FbftMessage)
      → (IsKept s (on_committed lib now s m).0 × ((on_committed lib now s m).1 ≡ false))
        ⊎ ((sig : ℕ) × (mask : Mask) × (b : Block) × (get_block_by_hash s.log m.block_hash ≡ some b)
            × IsSigned s m (lib.commit_payload b) sig mask)
  unfolding on_committed accept_committed get_block_by_hash add_not_verified_message
  on_committed-IsSigned now s m =
      let (kept, log, ready) = synced-IsKept now s m in
      let t = sync_if_behind lib now s m in
      let u : Node Chain Mask = record t { log = add_not_verified_message t.log m } in
      let kept' = IsKept-log s t (add_not_verified_message t.log m) kept in
      elim (Bool-cases (ltb m.block_num ((s.block_num + 2 ^ 64 - 1) % 2 ^ 64))) [
        | inl old ↦ inl (rw (old, on_committed) (IsKept-refl s), rw (old, on_committed) refl)
        | inr new ↦ elim (read_quorum_cases u m) [
          | inl unread ↦
              inl (rw (new, unread, on_committed) kept', rw (new, unread, on_committed) refl)
          | inr (sig, mask, read, long, bits, quorum) ↦
              elim (Option-cases (get_block_by_hash u.log m.block_hash)) [
                | inl unknown ↦ inl (
                  rw (new, read, unknown, on_committed, accept_committed) kept',
                  rw (new, read, unknown, on_committed, accept_committed) refl,
                )
                | inr (b, block) ↦
                    elim (Bool-cases
                      (lib.verify_hash sig (lib.aggregate_public mask) (lib.commit_payload b))) [
                        | inr wrong ↦ inl (
                          rw (new, read, block, wrong, on_committed, accept_committed) kept',
                          rw (new, read, block, wrong, on_committed, accept_committed) refl,
                        )
                        | inl right ↦ inr (
                          sig,
                          mask,
                          b,
                          rw log at block,
                          record {
                            long = long;
                            read = rw kept.decider at bits;
                            quorum = rw kept.decider at quorum;
                            verified = right;
                          },
                        )
                      ]
              ]
        ]
      ]

  -- What onPrepared needs to take a block hash and a prepare signature.
  pub record Prepared (s : Node Chain Mask) (m : FbftMessage) (sig : ℕ) (mask : Mask) (b : Block)
      : Type 0 where
    pub signed : IsSigned s m m.block_hash sig mask
    pub decoded : lib.decode_block m.block ≡ some b
    pub hash : b.hash ≡ m.block_hash
    pub number : (b.number ≡ m.block_num) × (m.block_num ≡ s.block_num)
    pub verified : (s.initialized ≡ true) × (lib.block_verifier b ≡ true)

  -- What it takes: the hash, the block and the signature of the message, which the log has then, and
  -- nothing else of what IsKept lists. Future committed messages of the block are to be processed.
  pub record Takes (s : Node Chain Mask) (m : FbftMessage) (sig : ℕ) (mask : Mask) (b : Block)
      (out : Node Chain Mask × Option Block) : Type 0 where
    pub block_hash : out.0.block_hash ≡ m.block_hash
    pub block : out.0.block ≡ m.block
    pub prepare_sig : out.0.aggregated_prepare_sig ≡ some sig
    pub prepare_mask : out.0.prepare_bitmap ≡ mask
    pub chain : out.0.chain ≡ s.chain
    pub block_num : out.0.block_num ≡ s.block_num
    pub decider : out.0.decider ≡ s.decider
    pub commit_sig : out.0.aggregated_commit_sig ≡ s.aggregated_commit_sig
    pub commit_mask : out.0.commit_bitmap ≡ s.commit_bitmap
    pub log :
        out.0.log
        ≡ mark_block_verified (add_verified_message (add_block s.log b) (record m { block = [] })) b
    pub future : out.1 ≡ some b

  -- What onPrepared gives where the message is turned down, and where it is taken.
  abbrev pub IsPrepared : Node Chain Mask → FbftMessage → Node Chain Mask × Option Block → Type 0
  IsPrepared s m out =
      (IsKept s out.0 × (out.1 ≡ none))
      ⊎ ((sig : ℕ) × (mask : Mask) × (b : Block) × Prepared s m sig mask b
          × Takes s m sig mask b out)
