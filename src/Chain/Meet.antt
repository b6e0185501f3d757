-- ===== src/Chain/Meet.antt =====
-- The walks of reorg of core/blockchain.go meet: both branches step back until they have one block.
use benzene.Prelude.{
  ℕ, zero, suc, ◌≤◌, ◌<◌, ◌≡◌, refl, sym, ap, inl, inr, some, List, [], ◌∷◌, ◌++◌, arith,
  Bool-cases, ◌==◌, ==_iff, ◌∙◌, subst, true, false, ◌-◌, ltb,
}
use mathlib.Core.List.{append_assoc, append-nil}
use benzene.Chain.Rawdb.{Block, Database, read_block}
use benzene.Chain.Branches.{branches, parent_of, retreat, meet, meets, Meeting}
use benzene.Chain.Walk.{StoredAt, IsRun, IsRun-append, IsRooted, up, retreat-Retreats}

module _ (names : ℕ → Block) (d : Database) where
  module _ (rooted : IsRooted names d) where
    same_block :
        (n : ℕ) (a b : Block)
        → StoredAt d a n
        → StoredAt d b n
        → a.header.hash ≡ b.header.hash
        → b ≡ a
    same_block n a b x y e =
        let same : some b ≡ some a = sym y ∙ ap (λ h. read_block d h n) (sym e) ∙ x in cc

    -- What a walk back of two blocks gives.
    abbrev pub Meets : Meeting → Block → Block → List Block → List Block → Type 0
    Meets out old new dropped added =
        (xs : List Block) × (ys : List Block) × (c : Block) × (m : ℕ) × (out
          ≡ meets (dropped ++ xs) (added ++ ys) c)
        × IsRun d xs old c
        × IsRun d ys new c
        × StoredAt d c m

    joins :
        (fuel : ℕ) (old new : Block) (dropped added : List Block)
        → (old.header.hash == new.header.hash) ≡ true
        → meet (suc fuel) d old new dropped added ≡ meets (dropped ++ []) (added ++ []) old
    unfolding meet
    joins fuel old new dropped added e = rw (e, append-nil dropped, append-nil added) refl

    steps :
        (fuel : ℕ) (old new old' new' : Block) (dropped added : List Block)
        → (old.header.hash == new.header.hash) ≡ false
        → parent_of d old ≡ some old'
        → parent_of d new ≡ some new'
        → meet (suc fuel) d old new dropped added
          ≡ meet fuel d old' new' (dropped ++ (old ∷ [])) (added ++ (new ∷ []))
    unfolding meet
    steps fuel old new old' new' dropped added e x y = rw (e, x, y) refl

    regroup :
        (a b : Block) (dropped added xs ys : List Block) (c : Block)
        → meets ((dropped ++ (a ∷ [])) ++ xs) ((added ++ (b ∷ [])) ++ ys) c
          ≡ meets (dropped ++ (a ∷ xs)) (added ++ (b ∷ ys)) c
    regroup a b dropped added xs ys c =
        rw (append_assoc dropped (a ∷ []) xs, append_assoc added (b ∷ []) ys) refl

    pub meet-Meets :
        (fuel n : ℕ) (old new : Block) (dropped added : List Block)
        → n < fuel
        → StoredAt d old n
        → StoredAt d new n
        → Meets (meet fuel d old new dropped added) old new dropped added
    meet-Meets zero n old new dropped added l a b = absurd (omega (arith, l))
    meet-Meets (suc fuel) zero old new dropped added l a b =
        let eq = rooted.root old.header.hash old a ∙ sym (rooted.root new.header.hash new b) in
        let test = (==_iff old.header.hash new.header.hash).1 eq in
        (
          [],
          [],
          old,
          0,
          joins fuel old new dropped added test,
          refl,
          same_block 0 old new a b eq,
          a,
        )
    meet-Meets (suc fuel) (suc n) old new dropped added l a b =
        elim (Bool-cases (old.header.hash == new.header.hash)) [
          | inl test ↦
              let eq = (==_iff old.header.hash new.header.hash).0 test in
              (
                [],
                [],
                old,
                suc n,
                joins fuel old new dropped added test,
                refl,
                same_block (suc n) old new a b eq,
                a,
              )
          | inr other ↦
              let (p, x, below, _) = up names d rooted old n a in
              let (q, y, under, _) = up names d rooted new n b in
              let (xs, ys, c, m, out, r, t, at) =
                meet-Meets fuel n p q (dropped ++ (old ∷ [])) (added ++ (new ∷ []))
                  (omega (arith, l)) below under in
              (
                old ∷ xs,
                new ∷ ys,
                c,
                m,
                steps fuel old new p q dropped added other x y
                    ∙ out
                    ∙ regroup old new dropped added xs ys c,
                (refl, (p, x, r)),
                (refl, (q, y, t)),
                at,
              )
        ]

    lower :
        (old new : Block) (c : Block) (run : List Block)
        → ltb new.header.number old.header.number ≡ true
        → retreat old.header.number d new.header.number old [] ≡ some (c, run)
        → branches d old new ≡ meet (suc old.header.number) d c new run []
    unfolding branches
    lower old new c run t e = rw (t, e) refl

    higher :
        (old new : Block) (c : Block) (run : List Block)
        → ltb new.header.number old.header.number ≡ false
        → retreat new.header.number d old.header.number new [] ≡ some (c, run)
        → branches d old new ≡ meet (suc new.header.number) d old c [] run
    unfolding branches
    higher old new c run t e = rw (t, e) refl

    -- The walk of reorg from two stored blocks ends at a block that both branches come from.
    pub branches-Meets :
        (old new : Block)
        → StoredAt d old old.header.number
        → StoredAt d new new.header.number
        → Meets (branches d old new) old new [] []
    branches-Meets old new x y = elim (Bool-cases (ltb new.header.number old.header.number)) [
      | inl down ↦
          let less : new.header.number ≤ old.header.number = ground arith in
          let (o, run, out, r, stored) =
            retreat-Retreats names d rooted old.header.number new.header.number
              (old.header.number - new.header.number) old [] (omega arith)
              (subst (StoredAt d old) (omega (arith, less)) x) in
          let (xs, ys, c, m, eq, r', t, at) =
            meet-Meets (suc old.header.number) new.header.number o new run [] (omega (arith, less))
              stored y in
          (
            run ++ xs,
            ys,
            c,
            m,
            lower old new o run down out ∙ eq,
            IsRun-append d run xs old o c r r',
            t,
            at,
          )
      | inr even ↦
          let less : old.header.number ≤ new.header.number = ground arith in
          let (o, run, out, r, stored) =
            retreat-Retreats names d rooted new.header.number old.header.number
              (new.header.number - old.header.number) new [] (omega arith)
              (subst (StoredAt d new) (omega (arith, less)) y) in
          let (xs, ys, c, m, eq, r', t, at) =
            meet-Meets (suc new.header.number) old.header.number old o [] run (omega (arith, less))
              x stored in
          (
            xs,
            run ++ ys,
            c,
            m,
            higher old new o run even out ∙ eq,
            r',
            IsRun-append d run ys new o c r t,
            at,
          )
    ]
