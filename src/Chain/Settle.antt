-- ===== src/Chain/Settle.antt =====
-- The chain in order along the branches of reorg of core/blockchain.go: what is left of it where the
-- walk down ends, and what the blocks written from there make of it.
use benzene.Prelude.{
  ℕ, suc, ◌-◌, ◌^◌, ◌≤◌, ◌<◌, ◌≡◌, refl, sym, ap, some, List, [], ◌∷◌, arith, subst, get?, ◌∙◌,
  Bool, true, false,
}
use benzene.Chain.Rawdb.{Block, Database, pred64, read_canonical_hash, read_block, read_header}
use benzene.Chain.Head.{BlockChain, head_tables, write_head_block, set_current_header, force_heads}
use benzene.Chain.Branches.{parent_of}
use benzene.Chain.Reorg.{write_new_chain}
use benzene.Chain.Tables.{read_block_number, read_block-head_tables, get?-head_tables}
use benzene.Chain.Canonical.{IsGood, IsPath, head_tables-IsPath, number_next}
use benzene.Chain.Walk.{StoredAt, IsRun, IsRooted}

-- Two databases with the same blocks.
abbrev pub SameBlocks : Database → Database → Type 0
SameBlocks d e = (h n : ℕ) → read_block e h n ≡ read_block d h n

module _ (names : ℕ → Block) where
  pub same-IsPath :
      (d e : Database) (head : Block)
      → ((n : ℕ) → read_canonical_hash e n ≡ read_canonical_hash d n)
      → SameBlocks d e
      → IsPath names d head
      → IsPath names e head
  same-IsPath d e head c r v = record {
    good = λ h n b at. v.good h n b (sym (r h n) ∙ at);
    at_head = c _ ∙ v.at_head;
    named = v.named;
    stored = λ n l. rw (c n) (r _ n ∙ v.stored n l);
    nonzero = λ n l. rw (c n) (v.nonzero n l);
    linked = λ n l. rw (c n, c (suc n)) (v.linked n l);
  }

  -- The canonical hashes lead down from each canonical block too.
  pub canonical-IsPath :
      (d : Database) (head b : Block)
      → IsPath names d head
      → b.header.number ≤ head.header.number
      → names (read_canonical_hash d b.header.number) ≡ b
      → IsPath names d b
  canonical-IsPath d head b v l e =
      let found = v.stored b.header.number l in
      let (hash, g) = v.good _ b.header.number _ found in
      let at : read_canonical_hash d b.header.number ≡ b.header.hash =
        sym hash ∙ ap (λ c. c.header.hash) e in
      record {
        good = v.good;
        at_head = at;
        named = ap names (sym at) ∙ e;
        stored = λ n k. v.stored n (omega (arith, k, l));
        nonzero = λ n k. v.nonzero n (omega (arith, k, l));
        linked = λ n k. v.linked n (omega (arith, k, l));
      }

  pub head-StoredAt : (d : Database) (b : Block) → IsPath names d b → StoredAt d b b.header.number
  head-StoredAt d b v =
      let here = v.at_head in
      let named = v.named in let found = v.stored b.header.number (omega arith) in cc

  -- The parent of a canonical block is the one below it.
  parent_below :
      (d : Database) (b p : Block)
      → IsPath names d b
      → b.header.number < 2 ^ 64 - 1
      → ((n h : ℕ) (c : Block) → read_block d h n ≡ some c → n < 2 ^ 64 - 1)
      → parent_of d b ≡ some p
      → (b.header.number ≡ suc p.header.number)
        × (names (read_canonical_hash d p.header.number) ≡ p)
  unfolding parent_of
  parent_below d b p v l small e =
      let (hash, g) = v.good _ _ p e in
      let num = read_block_number d _ _ p e in
      let low = small _ _ p e in
      let next : b.header.number ≡ suc p.header.number = omega (arith, l, num, low) in
      let link = v.linked p.header.number (omega (arith, next)) in
      let here = v.at_head in
      let named = v.named in
      let own = g.named in
      let chain : read_canonical_hash d (suc p.header.number) ≡ b.header.hash =
        ap (read_canonical_hash d) (sym next) ∙ here in
      (next, cc)

  pub parent-StoredAt :
      (d : Database)
      → IsRooted names d
      → (b p : Block) → parent_of d b ≡ some p
      → StoredAt d p p.header.number
  unfolding parent_of
  parent-StoredAt d rooted b p found =
      let (hash, _) = rooted.good _ _ p found in
      let num = read_block_number d _ _ p found in
      let here : StoredAt d p (pred64 b.header.number) =
        subst (λ h. read_block d h (pred64 b.header.number) ≡ some p) (sym hash) found in
      subst (StoredAt d p) (sym num) here

  module _ (d : Database) (rooted : IsRooted names d) where
    -- The walk down from the head stays on canonical blocks.
    pub run-IsPath :
        (xs : List Block) (b c : Block)
        → IsRun d xs b c
        → IsPath names d b
        → IsPath names d c × (c.header.number ≤ b.header.number)
    run-IsPath [] b c e v = (subst (IsPath names d) e v, rw e (omega arith))
    run-IsPath (x ∷ xs) b c (_, (p, found, run)) v =
        let small = rooted.small b.header.hash b.header.number b (head-StoredAt d b v) in
        let (next, at) = parent_below d b p v small (λ n h c e. rooted.small h n c e) found in
        let path = canonical-IsPath d b p v (omega (arith, next)) at in
        let (end, less) = run-IsPath xs p c run path in (end, omega (arith, less, next))

-- Of a block that becomes the head: the tables as the batch of writeHeadBlock leaves them.
module _ {Q : Type 0} where
  forced :
      (u : Bool) (b : Block) (t : BlockChain Q)
      → SameBlocks t.db (force_heads u b t).db × ((force_heads u b t).db.canonical ≡ t.db.canonical)
  unfolding force_heads set_current_header read_block read_header
  forced true b t = (λ h n. refl, refl)
  forced false b t = (λ h n. refl, refl)

  reads_same :
      (b : Block) (s : BlockChain Q)
      → SameBlocks (head_tables b s.db) (write_head_block b s).db
        × ((write_head_block b s).db.canonical ≡ (head_tables b s.db).canonical)
  unfolding write_head_block
  reads_same b s = forced _ b _

  module _ (names : ℕ → Block) where
    -- What the writing of blocks from one up to another leaves: the last one is at the head of the
    -- canonical hashes, no block is lost, and the hashes above it are as they were.
    pub record IsRaised (b : Block) (s t : BlockChain Q) : Type 0 where
      pub path : IsPath names t.db b
      pub blocks : SameBlocks s.db t.db
      pub rest : (n : ℕ) → b.header.number < n → get? n t.db.canonical ≡ get? n s.db.canonical

    pub write_head_block-IsRaised :
        (p b : Block) (s t : BlockChain Q)
        → IsRaised p s t
        → IsGood names b
        → b.header.parent_hash ≡ p.header.hash
        → read_block s.db b.header.hash b.header.number ≡ some b
        → IsRaised b s (write_head_block b t)
    unfolding read_canonical_hash
    write_head_block-IsRaised p b s t v g par at =
        let (blocks, canonical) = reads_same b t in
        let now = v.blocks b.header.hash b.header.number ∙ at in
        let path = (head_tables-IsPath names t.db p b v.path g par now).0 in
        let next = number_next names t.db p b v.path g par in
        record {
          path = same-IsPath names _ _ b (λ n. rw canonical refl) blocks path;
          blocks = λ h n. blocks h n ∙ read_block-head_tables b t.db h n ∙ v.blocks h n;
          rest = λ n l.
              let low = v.rest n (omega (arith, l, next)) in
              rw canonical (ground (arith, get?-head_tables b t.db n));
        }

    pub write_new_chain-IsRaised :
        (s : BlockChain Q) (ys : List Block) (b c : Block)
        → IsRooted names s.db
        → IsRun s.db ys b c
        → IsPath names s.db c
        → StoredAt s.db b b.header.number
        → IsRaised b s (write_new_chain ys s)
    unfolding write_new_chain parent_of
    write_new_chain-IsRaised s [] b c rooted e v at = record {
      path = subst (IsPath names s.db) (sym e) v;
      blocks = λ h n. refl;
      rest = λ n l. refl;
    }
    write_new_chain-IsRaised s (y ∷ ys) b c rooted (e, (p, found, run)) v at =
        let (hash, _) = rooted.good _ _ p found in
        let stored = parent-StoredAt names s.db rooted b p found in
        let below = write_new_chain-IsRaised s ys p c rooted run v stored in
        let g = (rooted.good _ _ b at).1 in
        subst (λ x. IsRaised b s (write_head_block x (write_new_chain ys s))) (sym e)
          (write_head_block-IsRaised p b s _ below g (sym hash) at)
