-- ===== src/Quorum/Votes.antt =====
-- submitVote: when a vote is taken, and what it writes.
use benzene.Prelude.{
  ℕ, ◌+◌, ◌≡◌, refl, sym, subst, ◌∙◌, ◌≢◌, inl, inr, List, [], ◌∷◌, length, Option-cases, some, In,
}
use benzene.Quorum.{
  Phase, prepare, commit, view_change, unknown, Ballot, CIdentities, ballot_box, read_ballot,
  signers_count, VoteError, accepted, refused, check_keys, put_all, record_votes, submit_vote,
  after,
}
use benzene.Quorum.Keys.{IsFresh, check_keys-none}

abbrev pub IsKnown : Phase → Type 0
IsKnown (unknown n) = ⊥
IsKnown _ = Unit {0}

-- The state after the ballot `b` is written under every key of `ks`.
record_known : Phase → List ℕ → Ballot → CIdentities → CIdentities
record_known prepare ks b s = record s { prepare_round = put_all ks b s.prepare_round }
record_known commit ks b s = record s { commit_round = put_all ks b s.commit_round }
record_known view_change ks b s = record s { view_change_round = put_all ks b s.view_change_round }
record_known (unknown n) ks b s = s

-- What a vote that is taken does to the state.
pub record Recorded (s : CIdentities) (p : Phase) (ks : List ℕ) (b : Ballot) (t : CIdentities)
    : Type 0 where
  pub box : ballot_box p t ≡ put_all ks b (ballot_box p s)
  pub others : (q : Phase) → q ≢ p → ballot_box q t ≡ ballot_box q s
  pub members : t.public_keys ≡ s.public_keys
  pub indices : t.key_index_map ≡ s.key_index_map

record_votes-Recorded :
    (p : Phase) (ks : List ℕ) (b : Ballot) (s : CIdentities)
    → IsKnown p
    → (record_votes p ks b s ≡ accepted b (record_known p ks b s))
      × Recorded s p ks b (record_known p ks b s)
unfolding record_votes record_known ballot_box
record_votes-Recorded prepare ks b s h = (
  refl,
  record {
    box = refl;
    others = elim [
      | prepare ↦ λ n. absurd (n refl)
      | commit ↦ λ n. refl
      | view_change ↦ λ n. refl
      | unknown m ↦ λ n. refl
    ];
    members = refl;
    indices = refl;
  },
)
record_votes-Recorded commit ks b s h = (
  refl,
  record {
    box = refl;
    others = elim [
      | prepare ↦ λ n. refl
      | commit ↦ λ n. absurd (n refl)
      | view_change ↦ λ n. refl
      | unknown m ↦ λ n. refl
    ];
    members = refl;
    indices = refl;
  },
)
record_votes-Recorded view_change ks b s h = (
  refl,
  record {
    box = refl;
    others = elim [
      | prepare ↦ λ n. refl
      | commit ↦ λ n. refl
      | view_change ↦ λ n. absurd (n refl)
      | unknown m ↦ λ n. refl
    ];
    members = refl;
    indices = refl;
  },
)
record_votes-Recorded (unknown n) ks b s h = absurd h

abbrev pub vote_of : List ℕ → ℕ → ℕ → ℕ → ℕ → Ballot
vote_of ks sig hash height view_id = record {
  signer_pub_keys = ks;
  block_header_hash = hash;
  signature = sig;
  height = height;
  view_id = view_id;
}

-- A vote is refused when one of its keys stands twice in it or has a ballot in that phase already.
pub submit_vote-refused :
    (s : CIdentities) (p : Phase) (ks : List ℕ) (sig hash height view_id : ℕ)
    → ¬ IsFresh s p ks
    → (e : VoteError) × (submit_vote s p ks sig hash height view_id ≡ refused e)
unfolding submit_vote
submit_vote-refused s p ks sig hash height view_id stale =
    elim (Option-cases (check_keys s p [] ks)) [
      | inl e ↦ absurd (stale (check_keys-none s p [] ks e).1)
      | inr (e, h) ↦ (e, rw (h, submit_vote))
    ]

-- What is read after a vote that was taken: the ballot under each of its keys, the old ballots under
-- every other key and in every other phase, and as many signers more as it has keys.
pub record Reads (s : CIdentities) (p : Phase) (ks : List ℕ) (b : Ballot) (t : CIdentities)
    : Type 0 where
  pub cast : (k : ℕ) → In k ks → read_ballot t p k ≡ some b
  pub apart : (k : ℕ) → ¬ In k ks → read_ballot t p k ≡ read_ballot s p k
  pub phases : (q : Phase) (k : ℕ) → q ≢ p → read_ballot t q k ≡ read_ballot s q k
  pub signers : signers_count t p ≡ signers_count s p + length ks
  pub members : t.public_keys ≡ s.public_keys

record_cases {ℓ} :
    (P : CIdentities → Type ℓ) (s : CIdentities) (p : Phase) (ks : List ℕ) (b : Ballot)
    → P s
    → ((t : CIdentities) → Recorded s p ks b t → P t)
    → P (after s (record_votes p ks b s))
unfolding record_votes record_known
record_cases P s prepare ks b kept taken = taken _ (record_votes-Recorded prepare ks b s tt).1
record_cases P s commit ks b kept taken = taken _ (record_votes-Recorded commit ks b s tt).1
record_cases P s view_change ks b kept taken =
    taken _ (record_votes-Recorded view_change ks b s tt).1
record_cases P s (unknown n) [] b kept taken = kept
record_cases P s (unknown n) (k ∷ ks) b kept taken = kept

-- The cases of a vote, for properties of the state that it leaves.
pub submit_vote_cases {ℓ} :
    (P : CIdentities → Type ℓ) (s : CIdentities) (p : Phase) (ks : List ℕ)
    (sig hash height view_id : ℕ)
    → P s
    → ((t : CIdentities)
        → IsFresh s p ks
        → Recorded s p ks (vote_of ks sig hash height view_id) t
        → P t)
    → P (after s (submit_vote s p ks sig hash height view_id))
unfolding submit_vote
submit_vote_cases P s p ks sig hash height view_id kept taken =
    elim (Option-cases (check_keys s p [] ks)) [
      | inr (e, h) ↦ rw (h, submit_vote) kept
      | inl e ↦
          rw (e, submit_vote)
            (record_cases P s p ks b kept λ t. taken t (check_keys-none s p [] ks e).1)
    ]
  where
    b : Ballot
    b = vote_of ks sig hash height view_id

record_votes-inv :
    (p : Phase) (ks : List ℕ) (b c : Ballot) (s t : CIdentities)
    → IsKnown p
    → record_votes p ks b s ≡ accepted c t
    → (b ≡ c) × Recorded s p ks b t
record_votes-inv p ks b c s t known e =
    let (written, r) = record_votes-Recorded p ks b s known in
    let both : accepted b (record_known p ks b s) ≡ accepted c t = sym written ∙ e in
    (cc, subst (Recorded s p ks b) (cc) r)

-- What is known of a vote in a named phase that was taken.
pub submit_vote-inv :
    (s t : CIdentities) (p : Phase) (ks : List ℕ) (sig hash height view_id : ℕ) (b : Ballot)
    → IsKnown p
    → submit_vote s p ks sig hash height view_id ≡ accepted b t
    → IsFresh s p ks
      × (vote_of ks sig hash height view_id ≡ b)
      × Recorded s p ks (vote_of ks sig hash height view_id) t
unfolding submit_vote
submit_vote-inv s t p ks sig hash height view_id b known e =
    elim (Option-cases (check_keys s p [] ks)) [
      | inr (x, h) ↦ absurd (never x (rw (h, submit_vote) at e))
      | inl h ↦
          let (same, r) = record_votes-inv p ks _ b s t known (rw (h, submit_vote) at e) in
          ((check_keys-none s p [] ks h).1, same, r)
    ]
  where
    never : (x : VoteError) → refused x ≡ accepted b t → ⊥
    never x h = cc
