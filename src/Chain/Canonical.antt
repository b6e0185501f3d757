-- ===== src/Chain/Canonical.antt =====
-- The chain in order: the canonical hashes of core/rawdb lead from the head down to number 0, block
-- by block. What writeHeadBlock and the writing of a block keep of that.
use benzene.Prelude.{
  ℕ, suc, ◌≤◌, ◌<◌, ◌≡◌, ◌≢◌, refl, sym, ap, ◌⊎◌, inl, inr, none, some, arith, subst, get?, ◌∙◌,
}
use benzene.Chain.Rawdb.{
  Block, Database, read_canonical_hash, read_header, read_block, write_block, write_header,
}
use benzene.Chain.Head.{head_tables}
use benzene.Chain.Tables.{
  get?-head_tables, hash-head_tables, read_block-head_tables, read_block-write_block,
  read_block_number, read_block-write_inv,
}

-- Blocks have different hashes: `names` is the block that a hash stands for.
module _ (names : ℕ → Block) where
  -- A block is the one of its hash, and its number is one more than its parent's. The first block
  -- has no parent.
  pub record IsGood (b : Block) : Type 0 where
    pub named : names b.header.hash ≡ b
    pub nonzero : b.header.hash ≢ 0
    pub numbered :
        ((b.header.number ≡ 0) × (b.header.parent_hash ≡ 0))
        ⊎ (b.header.number ≡ suc (names b.header.parent_hash).header.number)

  -- The canonical hashes up to a block are its ancestors'.
  pub record IsPath (d : Database) (head : Block) : Type 0 where
    pub good : (h n : ℕ) (b : Block) → read_block d h n ≡ some b → (b.header.hash ≡ h) × IsGood b
    pub at_head : read_canonical_hash d head.header.number ≡ head.header.hash
    pub named : names head.header.hash ≡ head
    pub stored :
        (n : ℕ)
        → n ≤ head.header.number
        → read_block d (read_canonical_hash d n) n ≡ some (names (read_canonical_hash d n))
    pub nonzero : (n : ℕ) → n ≤ head.header.number → read_canonical_hash d n ≢ 0
    pub linked :
        (n : ℕ)
        → n < head.header.number
        → (names (read_canonical_hash d (suc n))).header.parent_hash ≡ read_canonical_hash d n

  -- Nothing is canonical above the head.
  pub record IsChain (d : Database) (head : Block) : Type 0 where
    pub path : IsPath d head
    pub above : (n : ℕ) → head.header.number < n → get? n d.canonical ≡ none

-- The canonical blocks of one database are those of another up to a number.
pub record Extends (d : Database) (head : Block) (e : Database) (head' : Block) : Type 0 where
  pub grows : head.header.number ≤ head'.header.number
  pub keeps : (n : ℕ) → n ≤ head.header.number → read_canonical_hash e n ≡ read_canonical_hash d n

pub Extends-refl : (d : Database) (head : Block) → Extends d head d head
Extends-refl d head = record { grows = omega arith; keeps = λ n l. refl }

pub Extends-trans :
    {d e f : Database} {a b c : Block} → Extends d a e b → Extends e b f c → Extends d a f c
Extends-trans x y = record {
  grows = omega (arith, x.grows, y.grows);
  keeps = λ n l. y.keeps n (omega (arith, x.grows)) ∙ x.keeps n l;
}

pub write_block-Extends :
    (b : Block) (d : Database) (head : Block) → Extends d head (write_block b d) head
unfolding write_block write_header read_canonical_hash
write_block-Extends b d head = record { grows = omega arith; keeps = λ n l. refl }

module _ (names : ℕ → Block) where
  at_new :
      (d : Database) (b : Block)
      → read_canonical_hash (head_tables b d) b.header.number ≡ b.header.hash
  at_new d b = ground (arith, hash-head_tables b d b.header.number)

  at_old :
      (d : Database) (b : Block) (n : ℕ)
      → n < b.header.number
      → read_canonical_hash (head_tables b d) n ≡ read_canonical_hash d n
  at_old d b n l = ground (arith, hash-head_tables b d n)

  le_cases :
      (n : ℕ) (b head : Block)
      → b.header.number ≡ suc head.header.number
      → n ≤ b.header.number
      → (n ≤ head.header.number) ⊎ (n ≡ b.header.number)
  le_cases n b head e l = ground arith

  -- A good block under its own hash.
  pub written-IsGood :
      (d : Database) (head b : Block)
      → IsPath names d head
      → IsGood names b
      → (h n : ℕ) (c : Block) → read_block (write_block b d) h n ≡ some c
      → (c.header.hash ≡ h) × IsGood names c
  written-IsGood d head b v g h n c e = elim (read_block-write_inv b d h n c e) [
    | inl (here, eq) ↦ (rw (← eq) here, subst (IsGood names) eq g)
    | inr old ↦ v.good h n c old
  ]

  pub written_read :
      (d : Database) (head b : Block)
      → IsPath names d head
      → IsGood names b
      → (h n : ℕ) → read_block d h n ≡ some (names h)
      → read_block (write_block b d) h n ≡ some (names h)
  written_read d head b v g h n e =
      let num = read_block_number d h n (names h) e in
      ground (arith, read_block-write_block b d h n, g.named)

  -- Writing a good block keeps the chain in order.
  pub write_block-IsPath :
      (d : Database) (head b : Block)
      → IsPath names d head
      → IsGood names b
      → IsPath names (write_block b d) head
  unfolding write_block write_header read_canonical_hash
  write_block-IsPath d head b v g = record {
    good = written-IsGood d head b v g;
    at_head = v.at_head;
    named = v.named;
    stored = λ n l. written_read d head b v g _ n (v.stored n l);
    nonzero = v.nonzero;
    linked = v.linked;
  }

  -- The number of a good block on the head.
  pub number_next :
      (d : Database) (head b : Block)
      → IsPath names d head
      → IsGood names b
      → b.header.parent_hash ≡ head.header.hash
      → b.header.number ≡ suc head.header.number
  number_next d head b v g p = elim g.numbered [
    | inl (_, first) ↦
        absurd (v.nonzero head.header.number (omega arith) (v.at_head ∙ sym p ∙ first))
    | inr next ↦ next ∙ ap (λ c. suc c.header.number) (ap names p ∙ v.named)
  ]

  -- A good block on the head becomes the head, and the hashes below stay.
  pub head_tables-IsPath :
      (d : Database) (head b : Block)
      → IsPath names d head
      → IsGood names b
      → b.header.parent_hash ≡ head.header.hash
      → read_block d b.header.hash b.header.number ≡ some b
      → IsPath names (head_tables b d) b × Extends d head (head_tables b d) b
  head_tables-IsPath d head b v g p r =
      let next = number_next d head b v g p in
      let here = at_new d b in
      let below = λ (n : ℕ) (l : n ≤ head.header.number). at_old d b n (omega (arith, next)) in
      (
        record {
          good = λ h n c e. v.good h n c (sym (read_block-head_tables b d h n) ∙ e);
          at_head = here;
          named = g.named;
          stored = λ n l. elim (le_cases n b head next l) [
            | inl old ↦ rw (below n old) (read_block-head_tables b d _ n ∙ v.stored n old)
            | inr e ↦ rw (e, here, g.named) (read_block-head_tables b d _ _ ∙ r)
          ];
          nonzero = λ n l. elim (le_cases n b head next l) [
            | inl old ↦ rw (below n old) (v.nonzero n old)
            | inr e ↦ rw (e, here) g.nonzero
          ];
          linked = λ n l. elim (le_cases (suc n) b head next (omega (arith, l))) [
            | inl old ↦ rw (below (suc n) old, below n (omega (arith, old))) (v.linked n old)
            | inr e ↦
                let at : n ≡ head.header.number = omega (arith, e, next) in
                rw (e, here, g.named, below n (omega (arith, at)), at) (p ∙ sym v.at_head)
          ];
        },
        record { grows = omega (arith, next); keeps = below },
      )

  pub head_tables-IsChain :
      (d : Database) (head b : Block)
      → IsChain names d head
      → IsGood names b
      → b.header.parent_hash ≡ head.header.hash
      → read_block d b.header.hash b.header.number ≡ some b
      → IsChain names (head_tables b d) b × Extends d head (head_tables b d) b
  head_tables-IsChain d head b v g p r =
      let (path, extends) = head_tables-IsPath d head b v.path g p r in
      (
        record {
          path = path;
          above = λ n l. ground (arith, get?-head_tables b d n, v.above n, extends.grows);
        },
        extends,
      )

  pub write_block-IsChain :
      (d : Database) (head b : Block)
      → IsChain names d head
      → IsGood names b
      → IsChain names (write_block b d) head
  unfolding write_block write_header
  write_block-IsChain d head b v g = record {
    path = write_block-IsPath d head b v.path g;
    above = v.above;
  }

  -- The marker of the head header is no part of the order.
  pub head_header-IsChain :
      (d : Database) (head : Block) (h : ℕ)
      → IsChain names d head
      → IsChain names (record d { head_header = h }) head
  unfolding read_block read_header read_canonical_hash
  head_header-IsChain d head h v = record {
    path = record {
      good = v.path.good;
      at_head = v.path.at_head;
      named = v.path.named;
      stored = v.path.stored;
      nonzero = v.path.nonzero;
      linked = v.path.linked;
    };
    above = v.above;
  }
