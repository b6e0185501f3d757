-- ===== src/Quorum/Overlap.antt =====
-- Quorums of the same committee overlap.
use benzene.Prelude.{
  ℕ, suc, ◌+◌, ◌*◌, ◌≤◌, ◌<◌, ◌≡◌, ap, subst, ◌≢◌, inl, inr, true, List, [], ◌∷◌, arith, keys,
  IsMap, IsMap-Distinct, length-keys, In-keys-get?, length, All, In, Distinct, In-All, All-In,
  select, Bool-cases, ◌==◌, if◌then◌else◌, some,
}
use benzene.Quorum.{
  Phase, commit, Ballot, CIdentities, ballot_box, read_ballot, signers_count, participants_count,
  two_thirds_signers_count, is_quorum_achieved, is_all_sigs_collected, contains,
}
use benzene.Quorum.Keys.{contains-In, not_In-contains}

erase : ℕ → List ℕ → List ℕ
erase k [] = []
erase k (x ∷ xs) = if x == k then xs else x ∷ erase k xs

length-erase : (k : ℕ) (xs : List ℕ) → In k xs → suc (length (erase k xs)) ≡ length xs
unfolding erase
length-erase k [] i = absurd i
length-erase k (x ∷ xs) i = ground (arith, length-erase k xs)

erase-In : (j k : ℕ) (xs : List ℕ) → j ≢ k → In j xs → In j (erase k xs)
unfolding erase
erase-In j k [] n i = absurd i
erase-In j k (x ∷ xs) n i = ground (arith, erase-In j k xs)

-- Elements other than `x` are still there when it is erased.
erase-All :
    (x : ℕ) (xs ys : List ℕ) → ¬ In x xs → All (λ z. In z ys) xs → All (λ z. In z (erase x ys)) xs
erase-All x xs ys n h =
    In-All _ xs λ a i. erase-In a x ys (λ e. n (subst (λ z. In z xs) e i)) (All-In _ a xs h i)

-- Distinct elements of a list are no more than its length.
pub length_of_Distinct :
    (xs ys : List ℕ) → Distinct xs → All (λ x. In x ys) xs → length xs ≤ length ys
length_of_Distinct [] ys d h = omega arith
length_of_Distinct (x ∷ xs) ys d h = omega (
  arith,
  length_of_Distinct xs (erase x ys) d.1 (erase-All x xs ys d.0 h.1),
  length-erase x ys h.0,
)

abbrev pub common : List ℕ → List ℕ → List ℕ
common xs ys = select (λ k. contains k ys) xs

length-common :
    (xs ys members : List ℕ)
    → Distinct xs
    → Distinct ys
    → All (λ x. In x members) xs
    → All (λ y. In y members) ys
    → length xs + length ys ≤ length members + length (common xs ys)
length-common [] ys members d e h i = omega (arith, length_of_Distinct ys members e i)
length-common (x ∷ xs) ys members d e h i = elim (Bool-cases (contains x ys)) [
  | inl both ↦ rw both (omega (arith, length-common xs ys members d.1 e h.1 i))
  | inr one ↦
      let without = erase x members in
      rw one (
        omega (
          arith,
          length-common xs ys without d.1 e (erase-All x xs members d.0 h.1)
              (erase-All x ys members (not_In-contains x ys one) i),
          length-erase x members h.0,
        ))
]

-- The keys with a ballot in a phase.
abbrev pub signers : CIdentities → Phase → List ℕ
signers s p = keys (ballot_box p s)

abbrev pub FromCommittee : CIdentities → Phase → Type 0
FromCommittee s p = All (λ k. In k s.public_keys) (signers s p)

module _ (s t : CIdentities) (p q : Phase) where
  -- Two quorums of one committee, of two phases or of two rounds, whose ballots come from its
  -- members, have more than a third of the committee in common.
  pub quorums_overlap :
      t.public_keys ≡ s.public_keys
      → IsMap (ballot_box p s)
      → IsMap (ballot_box q t)
      → FromCommittee s p
      → FromCommittee t q
      → is_quorum_achieved s p ≡ true
      → is_quorum_achieved t q ≡ true
      → participants_count s < 3 * length (common (signers s p) (signers t q))
  unfolding is_quorum_achieved participants_count two_thirds_signers_count signers_count
  quorums_overlap same m n from from' a b =
      let shared =
        length-common (signers s p) (signers t q) s.public_keys (IsMap-Distinct (ballot_box p s) m)
          (IsMap-Distinct (ballot_box q t) n) from
          (subst (λ (ms : List ℕ). All (λ k. In k ms) (signers t q)) same from') in
      ground
        (arith, shared, ap length same, length-keys (ballot_box p s), length-keys (ballot_box q t))

-- Where every commit ballot comes from a member, IsAllSigsCollected says that every member has a
-- commit ballot.
all_sigs-read_ballot :
    (s : CIdentities) (k : ℕ)
    → IsMap (ballot_box commit s)
    → FromCommittee s commit
    → is_all_sigs_collected s ≡ true
    → In k s.public_keys
    → (b : Ballot) × (read_ballot s commit k ≡ some b)
unfolding is_all_sigs_collected participants_count signers_count read_ballot
all_sigs-read_ballot s k m from all i = elim (Bool-cases (contains k (signers s commit))) [
  | inl voted ↦ In-keys-get? k (ballot_box commit s) ((contains-In k (signers s commit)).0 voted)
  | inr silent ↦
      let more =
        length_of_Distinct (k ∷ signers s commit) s.public_keys
          (not_In-contains k (signers s commit) silent, IsMap-Distinct (ballot_box commit s) m)
          (i, from) in
      absurd (ground (arith, more, length-keys (ballot_box commit s)))
]
