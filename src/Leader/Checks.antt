-- ===== src/Leader/Checks.antt =====
-- The checks of block numbers in consensus/checks.go.
use benzene.Prelude.{ℕ, ◌+◌, ◌≤◌, ◌≡◌, ◌↔◌, true, arith}
use benzene.FbftLog.{Block, FbftMessage}
use benzene.Leader.{is_right_block_num_check, on_prepared_sanity_checks}

-- A block number passes exactly within 100 of the current one, upwards; a prepared message passes
-- exactly with its block's number and hash, at the current block number or later.
checks_lem :
    (block_num : ℕ) (b : Block) (m : FbftMessage)
    → ((is_right_block_num_check block_num m ≡ true)
        ↔ ((block_num ≤ m.block_num) × (m.block_num ≤ block_num + 100)))
      × ((on_prepared_sanity_checks block_num b m ≡ true)
          ↔ ((b.number ≡ m.block_num) × (block_num ≤ m.block_num) × (b.hash ≡ m.block_hash)))
unfolding on_prepared_sanity_checks
checks_lem block_num b m =
    ((λ e. ground arith, λ h. ground arith), (λ e. ground arith, λ h. ground arith))
