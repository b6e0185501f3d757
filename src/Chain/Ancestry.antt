-- ===== src/Chain/Ancestry.antt =====
-- GetAncestor of core/headerchain.go gives the ancestor that is found parent by parent.
use benzene.Prelude.{
  ℕ, zero, suc, ◌+◌, ◌-◌, ◌≤◌, ◌<◌, ◌≡◌, refl, sym, ap, ◌⊎◌, inl, inr, some, arith, subst, ◌∙◌,
  true, false, ◌==◌, ==_iff, Bool-cases, ltb,
}
use benzene.Chain.Rawdb.{Block, Database, pred64, read_canonical_hash, read_block, read_header}
use benzene.Chain.Canonical.{IsPath, IsChain}
use benzene.Chain.Walk.{StoredAt, IsRooted}
use benzene.Chain.Ancestor.{sub64, ancestor_loop, get_ancestor}

header_of :
    (d : Database) (h n : ℕ) (b : Block)
    → read_block d h n ≡ some b
    → read_header d h n ≡ some b.header
unfolding read_block read_header
header_of d h n b e = ground arith

-- The three ways of the loop.
loop_canonical :
    (d : Database) (h n k max : ℕ)
    → (read_canonical_hash d n == h) ≡ true
    → ancestor_loop (suc k) d h n max
      ≡ ((read_canonical_hash d (sub64 n (suc k)), sub64 n (suc k)), max)
unfolding ancestor_loop
loop_canonical d h n k max t = rw t refl

loop_out :
    (d : Database) (h n k : ℕ)
    → (read_canonical_hash d n == h) ≡ false
    → ancestor_loop (suc k) d h n 0 ≡ ((0, 0), 0)
unfolding ancestor_loop
loop_out d h n k f = rw f refl

loop_step :
    (d : Database) (b : Block) (n k max : ℕ)
    → (read_canonical_hash d n == b.header.hash) ≡ false
    → read_header d b.header.hash n ≡ some b.header
    → ancestor_loop (suc k) d b.header.hash n (suc max)
      ≡ ancestor_loop k d b.header.parent_hash (pred64 n) max
unfolding ancestor_loop
loop_step d b n k max f e =
    let more : (suc max == 0) ≡ false = ground arith in
    let less : suc max - 1 ≡ max = omega arith in rw (f, more, e, less) refl

module _ (names : ℕ → Block) where
  -- The ancestor of a hash by a number of steps, each to the parent.
  abbrev pub ancestor_of : ℕ → ℕ → ℕ
  ancestor_of zero h = h
  ancestor_of (suc k) h = ancestor_of k (names h).header.parent_hash

  -- Along the canonical hashes, it is the canonical hash of as many numbers less.
  canonical_ancestor :
      (d : Database) (head : Block)
      → IsPath names d head
      → (k n : ℕ) → k + n ≤ head.header.number
      → ancestor_of k (read_canonical_hash d (k + n)) ≡ read_canonical_hash d n
  canonical_ancestor d head v zero n l = ap (read_canonical_hash d) (omega arith)
  canonical_ancestor d head v (suc k) n l =
      let less : k + n < head.header.number = omega (arith, l) in
      let at : suc k + n ≡ suc (k + n) = omega arith in
      ap (λ m. ancestor_of k (names (read_canonical_hash d m)).header.parent_hash) at
      ∙ ap (ancestor_of k) (v.linked (k + n) less)
      ∙ canonical_ancestor d head v k n (omega (arith, l))

  -- The right answer, or none where the counter may have run out.
  abbrev pub IsAnswer : (ℕ × ℕ) × ℕ → ℕ → ℕ → ℕ → ℕ → Type 0
  IsAnswer out hash number ancestor max =
      (out.0 ≡ (ancestor_of ancestor hash, number - ancestor))
      ⊎ ((out.0 ≡ (0, 0)) × (max < ancestor))

  module _ (d : Database) (head : Block) (rooted : IsRooted names d)
      (chain : IsChain names d head) where
    -- A canonical number is not above the head.
    below_head :
        (b : Block) (n : ℕ)
        → StoredAt d b n
        → read_canonical_hash d n ≡ b.header.hash
        → n ≤ head.header.number
    unfolding read_canonical_hash
    below_head b n at e = elim (Bool-cases (ltb head.header.number n)) [
      | inl t ↦
          let gone = chain.above n (ground arith) in
          let (_, g) = rooted.good b.header.hash n b at in absurd (g.nonzero (sym e ∙ rw gone refl))
      | inr f ↦ ground arith
    ]

    canonical_answer :
        (b : Block) (n k : ℕ)
        → StoredAt d b n
        → k ≤ n
        → read_canonical_hash d n ≡ b.header.hash
        → ◌≡◌ {A = ℕ × ℕ}
            (read_canonical_hash d (sub64 n k), sub64 n k)
            (ancestor_of k b.header.hash, n - k)
    canonical_answer b n k at l e =
        let small = rooted.small b.header.hash n b at in
        let low = below_head b n at e in
        let there : sub64 n k ≡ n - k = omega (arith, small, l) in
        let sum : n ≡ k + (n - k) = omega (arith, l) in
        let line = canonical_ancestor d head chain.path k (n - k) (omega (arith, l, low)) in
        let start : ancestor_of k b.header.hash
            ≡ ancestor_of k (read_canonical_hash d (k + (n - k))) =
          ap (ancestor_of k) (sym e ∙ ap (read_canonical_hash d) sum) in
        rw (there, start, line) refl

    -- From a block whose number is not canonical, by the answer from its parent.
    away :
        (k m max : ℕ) (b : Block)
        → StoredAt d b (suc m)
        → (read_canonical_hash d (suc m) == b.header.hash) ≡ false
        → ((max' : ℕ)
            → IsAnswer
                (ancestor_loop k d b.header.parent_hash m max')
                b.header.parent_hash
                m
                k
                max')
        → IsAnswer
            (ancestor_loop (suc k) d b.header.hash (suc m) max)
            b.header.hash
            (suc m)
            (suc k)
            max
    away k m zero b at f ih =
        inr (ap (λ x. x.0) (loop_out d b.header.hash (suc m) k f), omega arith)
    away k m (suc max) b at f ih =
        let (_, g) = rooted.good b.header.hash (suc m) b at in
        let small = rooted.small b.header.hash (suc m) b at in
        let low : pred64 (suc m) ≡ m = omega (arith, small) in
        let go =
          loop_step d b (suc m) k max f (header_of d b.header.hash (suc m) b at)
          ∙ ap (λ x. ancestor_loop k d b.header.parent_hash x max) low in
        let own : ancestor_of (suc k) b.header.hash ≡ ancestor_of k b.header.parent_hash =
          ap (λ c. ancestor_of k c.header.parent_hash) g.named in
        elim (ih max) [
          | inl right ↦
              let count : suc m - suc k ≡ m - k = omega arith in
              inl (ap (λ x. x.0) go ∙ right ∙ rw (own, count) refl)
          | inr (gone, less) ↦ inr (ap (λ x. x.0) go ∙ gone, omega (arith, less))
        ]

    loop-IsAnswer :
        (k n : ℕ) (b : Block) (max : ℕ)
        → k ≤ n
        → StoredAt d b n
        → IsAnswer (ancestor_loop k d b.header.hash n max) b.header.hash n k max
    unfolding ancestor_loop
    loop-IsAnswer zero n b max l at = inl (ap (λ m. (b.header.hash, m)) (omega arith))
    loop-IsAnswer (suc k) zero b max l at = absurd (omega (arith, l))
    loop-IsAnswer (suc k) (suc m) b max l at =
        elim (Bool-cases (read_canonical_hash d (suc m) == b.header.hash)) [
          | inl t ↦
              let e = (==_iff (read_canonical_hash d (suc m)) b.header.hash).0 t in
              inl (
                ap (λ x. x.0) (loop_canonical d b.header.hash (suc m) k max t)
                ∙ canonical_answer b (suc m) (suc k) at l e)
          | inr f ↦
              let p = names b.header.parent_hash in
              let found = rooted.parents b.header.hash m b at in
              let hash = (rooted.good b.header.parent_hash m p found).0 in
              let stored : StoredAt d p m =
                subst (λ h. read_block d h m ≡ some p) (sym hash) found in
              away k m max b at f (λ max'.
                subst (λ h. IsAnswer (ancestor_loop k d h m max') h m k max') hash
                  (loop-IsAnswer k m p max' (omega (arith, l)) stored))
        ]

    one_step :
        (b : Block) (m max : ℕ)
        → read_header d b.header.hash (suc m) ≡ some b.header
        → get_ancestor d b.header.hash (suc m) 1 max ≡ ((b.header.parent_hash, pred64 (suc m)), max)
    unfolding get_ancestor
    one_step b m max e = let t : ltb (suc m) 1 ≡ false = ground arith in rw (t, e) refl

    one :
        (b : Block) (n max : ℕ)
        → 1 ≤ n
        → StoredAt d b n
        → IsAnswer (get_ancestor d b.header.hash n 1 max) b.header.hash n 1 max
    one b zero max l at = absurd (omega (arith, l))
    one b (suc m) max l at =
        let (_, g) = rooted.good b.header.hash (suc m) b at in
        let small = rooted.small b.header.hash (suc m) b at in
        let low : pred64 (suc m) ≡ suc m - 1 = omega (arith, small) in
        let own : ancestor_of 1 b.header.hash ≡ b.header.parent_hash =
          ap (λ c. c.header.parent_hash) g.named in
        inl (
          ap (λ x. x.0) (one_step b m max (header_of d b.header.hash (suc m) b at))
          ∙ rw (own, low) refl)

    many :
        (h n k max : ℕ)
        → ltb n k ≡ false
        → (k == 1) ≡ false
        → get_ancestor d h n k max ≡ ancestor_loop k d h n max
    unfolding get_ancestor
    many h n k max t f = rw (t, f) refl

    -- In a chain in order where every stored block but the first has its parent stored: GetAncestor
    -- of a stored block at its number and of a count of steps that is not above the number gives the
    -- hash that as many steps to the parent lead to, and the number as much lower, whether it climbs
    -- block by block or by the canonical hashes. It gives the empty hash and 0 at most where the
    -- counter maxNonCanonical is less than the count.
    pub get_ancestor-IsAnswer :
        (b : Block) (n ancestor max : ℕ)
        → StoredAt d b n
        → ancestor ≤ n
        → IsAnswer (get_ancestor d b.header.hash n ancestor max) b.header.hash n ancestor max
    get_ancestor-IsAnswer b n k max at l = elim (Bool-cases (k == 1)) [
      | inl t ↦
          let e : 1 ≡ k = sym ((==_iff k 1).0 t) in
          let first : 1 ≤ n = omega (arith, l, e) in
          subst (λ x. IsAnswer (get_ancestor d b.header.hash n x max) b.header.hash n x max) e
            (one b n max first at)
      | inr f ↦
          let t : ltb n k ≡ false = ground arith in
          subst (λ x. IsAnswer x b.header.hash n k max) (sym (many b.header.hash n k max t f))
            (loop-IsAnswer k n b max l at)
    ]
