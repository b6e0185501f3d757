-- ===== src/Quorum/Aggregate.antt =====
-- AggregateVotes: which ballots enter the aggregated signature.
use benzene.Prelude.{
  ℕ, ◌≡◌, refl, sym, subst, ◌↔◌, ◌⊎◌, inl, inr, true, false, some, List, [], ◌∷◌, ◌++◌, arith,
  values, In-values-get?, get?-In-values, All, In, All-In, In-All, Distinct, In-append, append-In,
  append-Distinct, Bool-cases,
}
use benzene.Quorum.{
  Phase, Ballot, Round, CIdentities, ballot_box, read_ballot, read_all_ballots, any_collected,
  collect, aggregate_votes, contains,
}
use benzene.Quorum.Keys.{contains-In, not_In-contains}
use benzene.Quorum.Boxes.{IsBox}

-- The signers of some ballots, one after another.
abbrev pub all_signers : List Ballot → List ℕ
all_signers [] = []
all_signers (b ∷ bs) = b.signer_pub_keys ++ all_signers bs

any_collected-In : (col ks : List ℕ) → any_collected col ks ≡ true → (j : ℕ) × In j ks × In j col
unfolding any_collected
any_collected-In col [] e = absurd (no_pair e)
  where
    no_pair : false ≡ true → ⊥
    no_pair x = cc
any_collected-In col (k ∷ ks) e = elim (Bool-cases (contains k col)) [
  | inl c ↦ (k, inl refl, (contains-In k col).0 c)
  | inr c ↦ let (j, i, m) = any_collected-In col ks (rw c at e) in (j, inr i, m)
]

not_any_collected : (col ks : List ℕ) → any_collected col ks ≡ false → All (λ k. ¬ In k col) ks
unfolding any_collected
not_any_collected col [] e = tt
not_any_collected col (k ∷ ks) e =
    (not_In-contains k col (ground arith), not_any_collected col ks (ground arith))

regroup :
    (k : ℕ) (ks col rest : List ℕ) → In k (ks ++ col) ⊎ In k rest → In k col ⊎ In k (ks ++ rest)
regroup k ks col rest (inr m) = inr (append-In k ks rest (inr m))
regroup k ks col rest (inl m) = elim (In-append k ks col m) [
  | inl here ↦ inr (append-In k ks rest (inl here))
  | inr there ↦ inl there
]

module _ (ballots : List Ballot) (once : All (λ b. Distinct b.signer_pub_keys) ballots)
    (coherent : (b c : Ballot) (j : ℕ)
      → In b ballots
      → In c ballots
      → In j b.signer_pub_keys
      → In j c.signer_pub_keys
      → b ≡ c) where
  -- The keys collected so far are whole ballots.
  IsClosed : List ℕ → Type 0
  IsClosed col =
      (b : Ballot) (j i : ℕ)
      → In b ballots
      → In j b.signer_pub_keys
      → In j col
      → In i b.signer_pub_keys
      → In i col

  IsClosed-nil : IsClosed []
  unfolding IsClosed
  IsClosed-nil b j i m n e = absurd e

  IsClosed-append :
      (b : Ballot) (col : List ℕ)
      → In b ballots
      → IsClosed col
      → IsClosed (b.signer_pub_keys ++ col)
  unfolding IsClosed
  IsClosed-append b col m closed c j i mc mj mcol mi =
      append-In i b.signer_pub_keys col (elim (In-append j b.signer_pub_keys col mcol) [
        | inl here ↦
            let e = coherent c b j mc m mj here in
            inl (subst (λ (x : Ballot). In i x.signer_pub_keys) e mi)
        | inr there ↦ inr (closed c j i mc mj there mi)
      ])

  collect-covers :
      (col : List ℕ) (bs : List Ballot) (b : Ballot) (k : ℕ)
      → IsClosed col
      → All (λ x. In x ballots) bs
      → In b bs
      → In k b.signer_pub_keys
      → In k col ⊎ In k (all_signers (collect col bs))
  unfolding collect IsClosed
  collect-covers col [] b k closed all m s = absurd m
  collect-covers col (c ∷ bs) b k closed all m s =
      elim (Bool-cases (any_collected col c.signer_pub_keys)) [
        | inl dup ↦
            rw (dup, collect)
              (elim m [
                | inl e ↦
                    let (j, mj, jcol) = any_collected-In col c.signer_pub_keys dup in
                    inl (
                      closed c j k all.0 mj jcol
                        (subst (λ (x : Ballot). In k x.signer_pub_keys) (sym e) s))
                | inr later ↦ collect-covers col bs b k closed all.1 later s
              ])
        | inr new ↦
            rw (new, collect)
              (elim m [
                | inl e ↦ inr (
                    append-In k c.signer_pub_keys _
                      (inl (subst (λ (x : Ballot). In k x.signer_pub_keys) (sym e) s)))
                | inr later ↦ regroup k c.signer_pub_keys col _ (
                    collect-covers (c.signer_pub_keys ++ col) bs b k
                      (IsClosed-append c col all.0 closed) all.1 later s)
              ])
      ]

  -- What is collected is part of the ballots, in their order.
  collect-In : (col : List ℕ) (bs : List Ballot) (b : Ballot) → In b (collect col bs) → In b bs
  unfolding collect
  collect-In col [] b m = m
  collect-In col (c ∷ bs) b m =
      ground (arith, collect-In col bs b, collect-In (c.signer_pub_keys ++ col) bs b)

  collect-Distinct :
      (col : List ℕ) (bs : List Ballot)
      → All (λ x. In x ballots) bs
      → Distinct (all_signers (collect col bs))
        × ((k : ℕ) → In k (all_signers (collect col bs)) → ¬ In k col)
  unfolding collect
  collect-Distinct col [] all = (tt, λ k m. absurd m)
  collect-Distinct col (c ∷ bs) all = elim (Bool-cases (any_collected col c.signer_pub_keys)) [
    | inl dup ↦ rw (dup, collect) (collect-Distinct col bs all.1)
    | inr new ↦
        let (rest, away) = collect-Distinct (c.signer_pub_keys ++ col) bs all.1 in
        let mine : Distinct c.signer_pub_keys =
          All-In (λ (x : Ballot). Distinct x.signer_pub_keys) c ballots once all.0 in
        rw (new, collect)
          (
            append-Distinct c.signer_pub_keys _ mine rest
                (λ a m i. away a m (append-In a c.signer_pub_keys col (inl i))),
            λ k m i. elim (In-append k c.signer_pub_keys _ m) [
              | inl here ↦
                  All-In (λ x. ¬ In x col) k c.signer_pub_keys
                    (not_any_collected col c.signer_pub_keys new) here i
              | inr there ↦ away k there (append-In k c.signer_pub_keys col (inr i))
            ],
          )
  ]

In-all_signers :
    (k : ℕ) (bs : List Ballot)
    → In k (all_signers bs)
    → (b : Ballot) × In b bs × In k b.signer_pub_keys
In-all_signers k [] m = absurd m
In-all_signers k (b ∷ bs) m = elim (In-append k b.signer_pub_keys (all_signers bs) m) [
  | inl here ↦ (b, inl refl, here)
  | inr there ↦ let (c, i, j) = In-all_signers k bs there in (c, inr i, j)
]

module _ (r : Round) (h : IsBox r) where
  values-once : All (λ b. Distinct b.signer_pub_keys) (values r)
  values-once =
      In-All _ (values r) λ b m. let (k, e) = In-values-get? b r h.keyed m in (h.filed k b e).once

  values-coherent :
      (b c : Ballot) (j : ℕ)
      → In b (values r)
      → In c (values r)
      → In j b.signer_pub_keys
      → In j c.signer_pub_keys
      → b ≡ c
  values-coherent b c j mb mc ib ic =
      let (k, e) = In-values-get? b r h.keyed mb in
      let (l, f) = In-values-get? c r h.keyed mc in
      let eb = (h.filed k b e).cosigners j ib in let ec = (h.filed l c f).cosigners j ic in cc

-- However the map is visited, the ballots that AggregateVotes adds up name each key at most once,
-- and together exactly the keys that have a ballot in the phase.
pub aggregate_votes-signers :
    (s : CIdentities) (p : Phase)
    → IsBox (ballot_box p s)
    → Distinct (all_signers (aggregate_votes s p))
      × ((k : ℕ)
          → In k (all_signers (aggregate_votes s p))
            ↔ ((b : Ballot) × (read_ballot s p k ≡ some b)))
unfolding aggregate_votes read_all_ballots read_ballot
aggregate_votes-signers s p h =
    let r = ballot_box p s in
    let once = values-once r h in
    let same = values-coherent r h in
    let all : All (λ x. In x (values r)) (values r) = In-All _ (values r) (λ b m. m) in
    (
      (collect-Distinct (values r) once same [] (values r) all).0,
      λ k. (
        λ m.
            let (b, i, j) = In-all_signers k (collect [] (values r)) m in
            let (l, e) =
              In-values-get? b r h.keyed (collect-In (values r) once same [] (values r) b i) in
            (b, (h.filed l b e).cosigners k j),
        λ (b, e). none_collected k (
            collect-covers (values r) once same [] (values r) b k
              (IsClosed-nil (values r) once same) all (get?-In-values k b r e)
              (h.filed k b e).signer),
      ),
    )
  where
    none_collected :
        (k : ℕ)
        → In k [] ⊎ In k (all_signers (collect [] (values (ballot_box p s))))
        → In k (all_signers (collect [] (values (ballot_box p s))))
    none_collected k (inl m) = absurd m
    none_collected k (inr m) = m
