-- ===== src/Chain/Walk.antt =====
-- The walks of reorg of core/blockchain.go down a branch: a stored database and the runs of parents in it.
use benzene.Prelude.{
  ℕ, zero, suc, ◌+◌, ◌≤◌, ◌<◌, ◌≡◌, refl, sym, ap, some, Option, List, [], ◌∷◌, ◌++◌, arith, ◌∙◌,
  subst, ◌^◌, ◌-◌,
}
use mathlib.Core.List.{append_assoc, append-nil}
use benzene.Chain.Rawdb.{Block, Database, pred64, read_canonical_hash, read_block}
use benzene.Chain.Branches.{parent_of, retreat}
use benzene.Chain.Tables.{read_block_number}
use benzene.Chain.Canonical.{IsGood}

-- A block that is stored at a number.
abbrev pub StoredAt : Database → Block → ℕ → Type 0
StoredAt d b n = read_block d b.header.hash n ≡ some b

-- The blocks from one down to another, that one left out, each the parent of the one before.
abbrev pub IsRun : Database → List Block → Block → Block → Type 0
IsRun d [] b c = b ≡ c
IsRun d (x ∷ xs) b c = (x ≡ b) × ((p : Block) × (parent_of d b ≡ some p) × IsRun d xs p c)

pub IsRun-append :
    (d : Database) (xs ys : List Block) (a b c : Block)
    → IsRun d xs a b
    → IsRun d ys b c
    → IsRun d (xs ++ ys) a c
IsRun-append d [] ys a b c r q = subst (λ x. IsRun d ys x c) (sym r) q
IsRun-append d (x ∷ xs) ys a b c (e, (p, up, r)) q = (e, (p, up, IsRun-append d xs ys p b c r q))

module _ (names : ℕ → Block) (d : Database) where
  -- Every stored block but the first has its parent stored, and there is one first block.
  pub record IsRooted : Type 0 where
    pub good :
        (h n : ℕ) (b : Block) → read_block d h n ≡ some b → (b.header.hash ≡ h) × IsGood names b
    pub small : (h n : ℕ) (b : Block) → read_block d h n ≡ some b → n < 2 ^ 64 - 1
    pub parents :
        (h m : ℕ) (b : Block)
        → read_block d h (suc m) ≡ some b
        → read_block d b.header.parent_hash m ≡ some (names b.header.parent_hash)
    pub root : (h : ℕ) (b : Block) → read_block d h 0 ≡ some b → h ≡ read_canonical_hash d 0

  module _ (rooted : IsRooted) where
    pub up :
        (b : Block) (m : ℕ)
        → StoredAt d b (suc m)
        → (p : Block) × (parent_of d b ≡ some p)
          × StoredAt d p m
          × (p.header.hash ≡ b.header.parent_hash)
    unfolding parent_of
    up b m at =
        let p = names b.header.parent_hash in
        let found = rooted.parents b.header.hash m b at in
        let hash = (rooted.good b.header.parent_hash m p found).0 in
        let num = read_block_number d b.header.hash (suc m) b at in
        let small = rooted.small b.header.hash (suc m) b at in
        let same : pred64 b.header.number ≡ m = omega (arith, num, small) in
        (
          p,
          ap (λ k. read_block d b.header.parent_hash k) same ∙ found,
          subst (λ h. read_block d h m ≡ some p) (sym hash) found,
          hash,
        )

    stays :
        (fuel n : ℕ) (b : Block) (chain : List Block)
        → b.header.number ≡ n
        → retreat (suc fuel) d n b chain ≡ some (b, chain ++ [])
    unfolding retreat
    stays fuel n b chain e = rw (append-nil chain) (ground arith)

    goes :
        (fuel n : ℕ) (b p : Block) (chain : List Block)
        → parent_of d b ≡ some p
        → n < b.header.number
        → retreat (suc fuel) d n b chain ≡ retreat fuel d n p (chain ++ (b ∷ []))
    unfolding retreat
    goes fuel n b p chain found l = ground arith

    -- What a walk back from a block gives.
    abbrev pub Retreats : Option (Block × List Block) → ℕ → Block → List Block → Type 0
    Retreats out n b chain =
        (c : Block) × (run : List Block) × (out ≡ some (c, chain ++ run))
        × IsRun d run b c
        × StoredAt d c n

    pub retreat-Retreats :
        (fuel n k : ℕ) (b : Block) (chain : List Block)
        → k ≤ fuel
        → StoredAt d b (k + n)
        → Retreats (retreat fuel d n b chain) n b chain
    unfolding retreat
    retreat-Retreats zero n k b chain l at =
        let z : k + n ≡ n = omega arith in
        (b, [], ap (λ l. some (b, l)) (sym (append-nil chain)), refl, subst (StoredAt d b) z at)
    retreat-Retreats (suc fuel) n zero b chain l at =
        let here : StoredAt d b n = subst (StoredAt d b) (omega arith) at in
        let num = read_block_number d b.header.hash n b here in
        (b, [], stays fuel n b chain num, refl, here)
    retreat-Retreats (suc fuel) n (suc k) b chain l at =
        let here : StoredAt d b (suc (k + n)) = subst (StoredAt d b) (omega arith) at in
        let num = read_block_number d b.header.hash (suc (k + n)) b here in
        let (p, found, below, _) = up b (k + n) here in
        let (c, run, out, r, stored) =
          retreat-Retreats fuel n k p (chain ++ (b ∷ [])) (omega (arith, l)) below in
        (
          c,
          b ∷ run,
          goes fuel n b p chain found (omega (arith, num))
              ∙ out
              ∙ ap (λ l. some (c, l)) (append_assoc chain (b ∷ []) run),
          (refl, (p, found, r)),
          stored,
        )
