-- ===== src/Node/Validator.antt =====
-- The validator's handlers: consensus/validator.go. `now` is the time that the timeouts read.
use benzene.Prelude.{
  ℕ, ◌+◌, ◌-◌, ◌%◌, ◌^◌, not, ◌&&◌, ◌||◌, Bool, true, false, Option, none, some, List, [], ◌∷◌,
  length, ltb, ◌==◌, if◌then◌else◌,
}
use benzene.Prelude.Arrays.{drop}
use benzene.Quorum.{is_quorum_achieved_by_mask}
use benzene.FbftLog.{
  Block, FbftMessage, add_block, add_verified_message, add_not_verified_message,
  mark_block_verified, get_block_by_hash, get_not_verified_committed_messages,
}
use benzene.Leader.{on_announce_sanity_checks, on_prepared_sanity_checks}
use benzene.Timeout.{start, stop, is_active}
use benzene.Node.{Node, Services, fbft_prepare, spin_up_state_sync, try_catchup}

abbrev pub bls_signature_size : ℕ
bls_signature_size = 96

module _ {Chain Mask : Type 0} (lib : Services Chain Mask) where
  -- ReadSignatureBitmapPayload from the start of the payload.
  abbrev pub read_payload : Node Chain Mask → FbftMessage → Option (ℕ × Mask)
  read_payload s m =
      if ltb (length m.payload) bls_signature_size
      then none
      else lib.read_signature_bitmap m.payload s.decider.public_keys

  -- A quorum's signature, or nothing.
  unfoldable pub read_quorum : Node Chain Mask → FbftMessage → Option (ℕ × Mask)
  read_quorum s m = elim (read_payload s m) [
    | none ↦ none
    | some (sig, mask) ↦
        if is_quorum_achieved_by_mask s.decider (some (lib.bitmap_of mask))
        then some (sig, mask)
        else none
  ]

  -- onAnnounce of a parsed message; what it broadcasts is not modelled.
  unfoldable pub on_announce : Node Chain Mask → FbftMessage → Node Chain Mask
  on_announce s m =
      if on_announce_sanity_checks s.log s.block_num m
      then record s {
        log = add_verified_message s.log m;
        block_hash = m.block_hash;
        phase = fbft_prepare;
      }
      else s

  -- onPrepared once the block is there: the log takes the block and the message, its block dropped.
  unfoldable pub store_prepared : Node Chain Mask → FbftMessage → Block → Node Chain Mask
  store_prepared s m b = record s {
    log = add_verified_message (add_block s.log b) (record m { block = [] });
    block = m.block;
  }

  -- onPrepared from the block verifier on. The block is returned if future committed messages of
  -- it are to be processed.
  unfoldable pub finish_prepared :
      Node Chain Mask → FbftMessage → Block → ℕ → Mask → Node Chain Mask × Option Block
  finish_prepared s m b sig mask =
      let marked : Node Chain Mask = record s { log = mark_block_verified s.log b } in
      if not (s.initialized && lib.block_verifier b)
      then (s, none)
      else if ltb s.block_num m.block_num
      then (marked, none)
      else (
        record marked {
          aggregated_prepare_sig = some sig;
          prepare_bitmap = mask;
          block_hash = m.block_hash;
        },
        some b,
      )

  unfoldable pub accept_prepared :
      Node Chain Mask → FbftMessage → ℕ → Mask → Node Chain Mask × Option Block
  accept_prepared s m sig mask =
      if lib.verify_hash sig (lib.aggregate_public mask) m.block_hash
      then elim (lib.decode_block m.block) [
        | none ↦ (s, none)
        | some b ↦
            if on_prepared_sanity_checks s.block_num b m
            then finish_prepared (store_prepared s m b) m b sig mask
            else (s, none)
      ]
      else (s, none)

  -- A message for a later block starts the synchronisation of the state.
  unfoldable pub sync_if_behind : ℕ → Node Chain Mask → FbftMessage → Node Chain Mask
  sync_if_behind now s m = if ltb s.block_num m.block_num then spin_up_state_sync lib now s else s

  unfoldable pub on_prepared : ℕ → Node Chain Mask → FbftMessage → Node Chain Mask × Option Block
  on_prepared now s m =
      let t = sync_if_behind now s m in
      if ltb m.block_num s.block_num then (s, none) else elim (read_quorum t m) [
        | none ↦ (t, none)
        | some (sig, mask) ↦ accept_prepared t m sig mask
      ]

  -- A committed signature with more signers replaces the chain's. SetMask writes to the mask that
  -- is the commit bitmap by then.
  unfoldable pub override_commit_sig : Node Chain Mask → FbftMessage → Block → Node Chain Mask
  override_commit_sig s m b = elim (lib.read_commit_sig s.chain b.number) [
    | none ↦ s
    | some old ↦
        let old_mask = lib.set_mask s.commit_bitmap (drop bls_signature_size old) in
        if length old == length m.payload && lib.has_block s.chain b.hash
        then record s {
          commit_bitmap = old_mask;
          chain =
              if ltb (lib.count_enabled old_mask) (lib.count_enabled s.commit_bitmap)
              then lib.write_commit_sig s.chain b.number m.payload
              else s.chain;
        }
        else s
  ]

  -- onCommitted from tryCatchup on, and whether it panics.
  unfoldable pub catch_up : ℕ → Node Chain Mask → FbftMessage → Node Chain Mask × Bool
  catch_up now s m =
      let (t, panics) = try_catchup lib s in
      let u : Node Chain Mask =
        if is_active t.bootstrap_timeout
        then record t { bootstrap_timeout = stop now t.bootstrap_timeout }
        else t in
      let v : Node Chain Mask =
        if ltb t.block_num m.block_num
        then t
        else if ltb s.block_num t.block_num
        then record u { consensus_timeout = start now u.consensus_timeout }
        else u in
      if panics then (t, true) else (v, false)

  unfoldable pub accept_committed :
      ℕ → Node Chain Mask → FbftMessage → ℕ → Mask → Node Chain Mask × Bool
  accept_committed now s m sig mask = elim (get_block_by_hash s.log m.block_hash) [
    | none ↦ (s, false)
    | some b ↦
        let t : Node Chain Mask = record s {
          log = add_verified_message s.log m;
          aggregated_commit_sig = some sig;
          commit_bitmap = mask;
        } in
        if lib.verify_hash sig (lib.aggregate_public mask) (lib.commit_payload b)
        then catch_up now (override_commit_sig t m b) m
        else (s, false)
  ]

  -- onCommitted, and whether it panics. `blockNum - 1` wraps around at zero.
  unfoldable pub on_committed : ℕ → Node Chain Mask → FbftMessage → Node Chain Mask × Bool
  on_committed now s m =
      let t = sync_if_behind now s m in
      let u : Node Chain Mask = record t { log = add_not_verified_message t.log m } in
      if ltb m.block_num ((s.block_num + 2 ^ 64 - 1) % 2 ^ 64)
      then (s, false)
      else elim (read_quorum u m) [
        | none ↦ (u, false)
        | some (sig, mask) ↦ accept_committed now u m sig mask
      ]

  -- The goroutine of onPrepared, over the messages found at its start, until the node has moved on
  -- or a call panics.
  unfoldable pub process_committed :
      ℕ → ℕ → Node Chain Mask → List FbftMessage → Node Chain Mask × Bool
  process_committed now began s [] = (s, false)
  process_committed now began s (m ∷ ms) =
      let (t, panics) = on_committed now s m in
      let rest = process_committed now began t ms in
      if panics || ltb began t.block_num then (t, panics) else rest

  unfoldable pub process_future : ℕ → Node Chain Mask → Block → Node Chain Mask × Bool
  process_future now s b =
      process_committed now s.block_num s
        (get_not_verified_committed_messages s.log b.number 0 b.hash)
