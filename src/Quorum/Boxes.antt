-- ===== src/Quorum/Boxes.antt =====
-- The invariant of the ballot boxes.
use benzene.Prelude.{
  ℕ, ◌≡◌, refl, sym, ◌∙◌, inl, inr, none, some, List, [], ◌∷◌, arith, get?, IsMap, All, All-In, In,
  Distinct, Bool-cases, subst, ◌≢◌,
}
use benzene.Quorum.{
  Phase, prepare, commit, view_change, unknown, Ballot, Round, CIdentities, ballot_box, read_ballot,
  contains, put_all, submit_vote, after, reset, reset_phase,
}
use benzene.Quorum.Keys.{IsFresh, contains-In, get?-put_all, put_all-IsMap}
use native.Mathlib.Decide.{ℕ_discrete}
use benzene.Quorum.Votes.{submit_vote_cases}

-- What a ballot that is filed under a key says of that key and of the box.
pub record IsFiled (r : Round) (k : ℕ) (b : Ballot) : Type 0 where
  pub signer : In k b.signer_pub_keys
  pub once : Distinct b.signer_pub_keys
  pub cosigners : (j : ℕ) → In j b.signer_pub_keys → get? j r ≡ some b

-- Each key has one ballot, signed by it, and all signers of that ballot have the same one.
pub record IsBox (r : Round) : Type 0 where
  pub keyed : IsMap r
  pub filed : (k : ℕ) (b : Ballot) → get? k r ≡ some b → IsFiled r k b

abbrev pub AreBoxes : CIdentities → Type 0
AreBoxes s = (p : Phase) → IsBox (ballot_box p s)

pub empty-IsBox : IsBox []
empty-IsBox = record { keyed = tt; filed = λ k b e. absurd (cc) }

module _ (r : Round) (ks : List ℕ) (b : Ballot) (h : IsBox r)
    (fresh : All (λ k. get? k r ≡ none) ks) (once : Distinct ks)
    (own : b.signer_pub_keys ≡ ks) where
  new_one : (j : ℕ) → In j ks → get? j (put_all ks b r) ≡ some b
  new_one j i = rw (get?-put_all j ks b r, (contains-In j ks).1 i)

  old_one : (j : ℕ) (c : Ballot) → get? j r ≡ some c → get? j (put_all ks b r) ≡ some c
  old_one j c e = elim (Bool-cases (contains j ks)) [
    | inl taken ↦
        absurd
          (ground (arith, All-In (λ k. get? k r ≡ none) j ks fresh ((contains-In j ks).0 taken)))
    | inr other ↦ rw (get?-put_all j ks b r, other) e
  ]

  IsFiled-after :
      (k : ℕ) (c : Ballot) → get? k (put_all ks b r) ≡ some c → IsFiled (put_all ks b r) k c
  IsFiled-after k c e = elim (Bool-cases (contains k ks)) [
    | inl taken ↦
        let i = (contains-In k ks).0 taken in
        let same : b ≡ c = ground (arith, new_one k i) in
        subst (IsFiled (put_all ks b r) k) same (record {
          signer = rw own i;
          once = rw own once;
          cosigners = λ j m. new_one j (rw own at m);
        })
    | inr other ↦
        let e' : get? k r ≡ some c = ground (arith, get?-put_all k ks b r) in
        let f = h.filed k c e' in
        record {
          signer = f.signer;
          once = f.once;
          cosigners = λ j m. old_one j c (f.cosigners j m);
        }
  ]

  put_all-IsBox : IsBox (put_all ks b r)
  put_all-IsBox = record { keyed = put_all-IsMap ks b r h.keyed; filed = IsFiled-after }

Phase-discrete : Discrete Phase
Phase-discrete = hlevel ℕ_discrete

fresh_keys :
    (s : CIdentities) (p : Phase) (ks : List ℕ)
    → IsFresh s p ks
    → All (λ k. get? k (ballot_box p s) ≡ none) ks
unfolding read_ballot
fresh_keys s p ks f = f.0

-- Every vote, taken or refused, keeps the boxes in order.
pub submit_vote-AreBoxes :
    (s : CIdentities) (p : Phase) (ks : List ℕ) (sig hash height view_id : ℕ)
    → AreBoxes s
    → AreBoxes (after s (submit_vote s p ks sig hash height view_id))
submit_vote-AreBoxes s p ks sig hash height view_id h =
    submit_vote_cases AreBoxes s p ks sig hash height view_id h λ t fresh r q.
      elim (Phase-discrete q p) [
        | yes e ↦ rw (e, r.box) (put_all-IsBox _ ks _ (h p) (fresh_keys s p ks fresh) fresh.1 refl)
        | no n ↦ rw (r.others q n) (h q)
      ]

reset_phase_self : (s : CIdentities) (p : Phase) → ballot_box p (reset_phase s p) ≡ []
unfolding ballot_box reset_phase
reset_phase_self s prepare = refl
reset_phase_self s commit = refl
reset_phase_self s view_change = refl
reset_phase_self s (unknown n) = refl

reset_phase_other :
    (s : CIdentities) (p q : Phase) → q ≢ p → ballot_box q (reset_phase s p) ≡ ballot_box q s
unfolding ballot_box reset_phase
reset_phase_other s prepare q n = ground arith
reset_phase_other s commit q n = ground arith
reset_phase_other s view_change q n = ground arith
reset_phase_other s (unknown m) q n = refl

reset-cleared :
    (ps : List Phase) (s : CIdentities) (q : Phase)
    → ballot_box q s ≡ []
    → ballot_box q (reset s ps) ≡ []
unfolding reset
reset-cleared [] s q e = e
reset-cleared (p ∷ ps) s q e = reset-cleared ps (reset_phase s p) q (elim (Phase-discrete q p) [
  | yes same ↦ rw same (reset_phase_self s p)
  | no other ↦ rw (reset_phase_other s p q other) e
])

-- A reset empties the box of each phase that it names, and leaves the boxes of the other phases.
reset_lem :
    (ps : List Phase) (s : CIdentities) (q : Phase)
    → (In q ps → ballot_box q (reset s ps) ≡ [])
      × ((¬ In q ps) → ballot_box q (reset s ps) ≡ ballot_box q s)
unfolding reset
reset_lem [] s q = (λ i. absurd i, λ n. refl)
reset_lem (p ∷ ps) s q =
    let (cleared, kept) = reset_lem ps (reset_phase s p) q in
    (
      elim [
        | inl e ↦ reset-cleared ps (reset_phase s p) q (rw (← e) (reset_phase_self s p))
        | inr i ↦ cleared i
      ],
      λ n. kept (λ i. n (inr i)) ∙ reset_phase_other s p q (λ e. n (inl (sym e))),
    )

reset_phase-AreBoxes : (s : CIdentities) (p : Phase) → AreBoxes s → AreBoxes (reset_phase s p)
reset_phase-AreBoxes s p h q = elim (Phase-discrete q p) [
  | yes same ↦ rw (same, reset_phase_self s p) empty-IsBox
  | no other ↦ rw (reset_phase_other s p q other) (h q)
]

pub reset-AreBoxes : (ps : List Phase) (s : CIdentities) → AreBoxes s → AreBoxes (reset s ps)
unfolding reset
reset-AreBoxes [] s h = h
reset-AreBoxes (p ∷ ps) s h = reset-AreBoxes ps (reset_phase s p) (reset_phase-AreBoxes s p h)
