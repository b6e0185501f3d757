-- ===== src/Quorum/Mask.antt =====
-- IsQuorumAchievedByMask of consensus/quorum/one-node-one-vote.go.
use benzene.Prelude.{ℕ, ◌*◌, ◌<◌, ◌≡◌, ◌↔◌, true, none, some, List, arith, length, All}
use benzene.Bytes.{total_ones, count_one_bits-total_ones}
use benzene.Quorum.{
  CIdentities, is_quorum_achieved_by_mask, two_thirds_signers_count, participants_count,
}

-- A mask of bytes has a quorum exactly if three times its set bits are more than twice the members;
-- a nil mask has none.
pub is_quorum_achieved_by_mask-total_ones :
    (s : CIdentities) (bitmap : List ℕ)
    → All (λ b. b < 256) bitmap
    → ((is_quorum_achieved_by_mask s (some bitmap) ≡ true)
        ↔ (2 * length s.public_keys < 3 * total_ones bitmap))
      × ¬ (is_quorum_achieved_by_mask s none ≡ true)
unfolding is_quorum_achieved_by_mask two_thirds_signers_count participants_count
is_quorum_achieved_by_mask-total_ones s bitmap h =
    let (same, bound) = count_one_bits-total_ones bitmap h in
    ((λ e. ground arith, λ e. ground arith), λ e. cc)
