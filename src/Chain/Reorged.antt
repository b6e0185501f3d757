-- ===== src/Chain/Reorged.antt =====
-- writeKnownBlock of core/blockchain.go makes a block of a longer branch the head, with the branch
-- below it.
use benzene.Prelude.{
  ℕ, zero, suc, ◌≤◌, ◌<◌, ◌≡◌, refl, sym, ap, inl, inr, none, some, Option, List, [], ◌∷◌, arith,
  get?, ◌∙◌, true, false, ◌==◌, ==_iff, Bool-cases, length,
}
use benzene.Chain.Rawdb.{
  Block, Database, suc64, read_canonical_hash, read_block, read_header, delete_tx_lookup_entries,
}
use benzene.Chain.Head.{BlockChain, InsertError, write_head_block}
use benzene.Chain.Branches.{branches, meets, parent_of, assigned_from, delete_canonical_hashes}
use benzene.Chain.Reorg.{
  write_new_chain, adopt, reorg, write_known_block, tail, hash_difference, transactions_of,
}
use benzene.Chain.Tables.{read_block_number}
use benzene.Chain.Canonical.{IsPath, IsChain}
use benzene.Chain.Walk.{StoredAt, IsRun, IsRooted}
use benzene.Chain.Meet.{branches-Meets}
use benzene.Chain.Settle.{
  SameBlocks, same-IsPath, run-IsPath, head-StoredAt, parent-StoredAt, IsRaised,
  write_head_block-IsRaised, write_new_chain-IsRaised,
}

-- The lookup entries of transactions are apart from the blocks and their order.
lookups_apart :
    (txs : List ℕ) (d : Database)
    → ((delete_tx_lookup_entries txs d).canonical ≡ d.canonical)
      × SameBlocks d (delete_tx_lookup_entries txs d)
unfolding delete_tx_lookup_entries read_block read_header
lookups_apart [] d = (refl, λ h n. refl)
lookups_apart (tx ∷ txs) d =
    let (c, r) = lookups_apart txs (record d { tx_lookup = _ }) in (c, λ h n. r h n)

-- Nothing is deleted from a number that has no canonical hash.
none_assigned :
    (fuel : ℕ) (d : Database) (n : ℕ) → get? n d.canonical ≡ none → assigned_from fuel d n ≡ []
unfolding assigned_from read_canonical_hash
none_assigned zero d n e = refl
none_assigned (suc fuel) d n e = rw e refl

module _ {Q : Type 0} (names : ℕ → Block) where
  -- The head is the block, its branch is canonical, nothing is above it, and no block is lost.
  pub record IsSettled (b : Block) (s t : BlockChain Q) : Type 0 where
    pub head : t.current_block ≡ b
    pub chain : IsChain names t.db t.current_block
    pub blocks : SameBlocks s.db t.db

  -- What the writing of a block ends with, where it is to be the head.
  abbrev pub Settles : Block → BlockChain Q → Option (BlockChain Q × Option InsertError) → Type 0
  Settles b s none = ⊥
  Settles b s (some (t, none)) = IsSettled b s t
  Settles b s (some (t, some e)) = ⊥

  -- Where nothing is canonical above the head, adopt keeps what write_new_chain made.
  adopt-IsRaised :
      (s : BlockChain Q) (p : Block) (xs ys : List Block)
      → IsRaised names p s (write_new_chain (tail ys) s)
      → get?
          (suc64 (write_new_chain (tail ys) s).current_block.header.number)
          (write_new_chain (tail ys) s).db.canonical
        ≡ none
      → IsRaised names p s (adopt xs ys s)
  unfolding adopt delete_canonical_hashes read_canonical_hash
  adopt-IsRaised s p xs ys v e =
      let t = write_new_chain (tail ys) s in
      let dropped = hash_difference (transactions_of xs) (transactions_of (tail ys)) in
      let (c, r) = lookups_apart dropped t.db in
      rw (none_assigned (length t.db.canonical) t.db _ e) (record {
        path = same-IsPath names t.db _ p (λ n. rw c refl) r v.path;
        blocks = λ h n. r h n ∙ v.blocks h n;
        rest = λ n l. rw c (v.rest n l);
      })

  -- The number of the head after the blocks of a branch are written.
  top_number :
      (s : BlockChain Q) (zs : List Block) (p c : Block)
      → IsRun s.db zs p c
      → c.header.number ≤ s.current_block.header.number
      → s.current_block.header.number ≤ p.header.number
      → (write_new_chain zs s).current_block.header.number ≡ p.header.number
  unfolding write_new_chain write_head_block
  top_number s [] p c e l m = omega (arith, l, m, ap (λ b. b.header.number) e)
  top_number s (z ∷ zs) p c (e, _) l m = ap (λ b. b.header.number) e

  module _ (s : BlockChain Q) (rooted : IsRooted names s.db)
      (chain : IsChain names s.db s.current_block) (new : Block)
      (at : StoredAt s.db new new.header.number)
      (longer : s.current_block.header.number < new.header.number) where
    -- Once a branch from a canonical block is adopted, only its last block is missing.
    adopted :
        (c : Block) (xs ys : List Block)
        → IsPath names s.db c
        → c.header.number ≤ s.current_block.header.number
        → IsRun s.db ys new c
        → (p : Block) × (new.header.parent_hash ≡ p.header.hash)
          × IsRaised names p s (adopt xs ys s)
    unfolding parent_of
    adopted c xs [] path l e = absurd (omega (arith, l, longer, ap (λ b. b.header.number) e))
    adopted c xs (y ∷ zs) path l (_, (p, found, run)) =
        let (hash, _) = rooted.good _ _ p found in
        let num = read_block_number s.db _ _ p found in
        let small = rooted.small _ _ new at in
        let stored = parent-StoredAt names s.db rooted new p found in
        let v = write_new_chain-IsRaised names s zs p c rooted run path stored in
        let next : new.header.number ≡ suc p.header.number = omega (arith, longer, num, small) in
        let top = top_number s zs p c run l (omega (arith, next, longer)) in
        let free =
          v.rest new.header.number (omega (arith, next)) ∙ chain.above new.header.number longer in
        let place : suc64 (write_new_chain zs s).current_block.header.number ≡ new.header.number =
          omega (arith, top, next, small) in
        (
          p,
          sym hash,
          adopt-IsRaised s p xs (y ∷ zs) v
              (ap (λ n. get? n (write_new_chain zs s).db.canonical) place ∙ free),
        )

    settled :
        (p : Block) (t : BlockChain Q)
        → new.header.parent_hash ≡ p.header.hash
        → IsRaised names p s t
        → IsSettled new s (write_head_block new t)
    unfolding write_head_block
    settled p t par v =
        let g = (rooted.good _ _ new at).1 in
        let w = write_head_block-IsRaised names p new s t v g par at in
        record {
          head = refl;
          chain = record {
            path = w.path;
            above = λ n l. w.rest n l ∙ chain.above n (omega (arith, longer, l));
          };
          blocks = w.blocks;
        }

    -- The head as it is, before anything is written.
    untouched : IsRaised names s.current_block s s
    untouched = record { path = chain.path; blocks = λ h n. refl; rest = λ n l. refl }

    joined :
        (new.header.parent_hash == s.current_block.header.hash) ≡ true
        → Settles new s (write_known_block new s)
    unfolding write_known_block
    joined e = rw e (settled s.current_block s ((==_iff new.header.parent_hash _).0 e) untouched)

    moved :
        (xs ys : List Block) (c : Block)
        → (new.header.parent_hash == s.current_block.header.hash) ≡ false
        → branches s.db s.current_block new ≡ meets xs ys c
        → Settles new s (some (write_head_block new (adopt xs ys s), none))
        → Settles new s (write_known_block new s)
    unfolding write_known_block reorg
    moved xs ys c e eq v = rw (e, eq) v

    -- Where every stored block has its parent stored, down to one first block, and the chain is in
    -- order: writeKnownBlock of a stored block with a number above the head's ends without an error,
    -- whichever branch the block is on. The block is the head then, the canonical hashes are its
    -- ancestors' down to number 0 with nothing above it, and every block is still stored.
    pub write_known_block-Settles : Settles new s (write_known_block new s)
    write_known_block-Settles =
        elim (Bool-cases (new.header.parent_hash == s.current_block.header.hash)) [
          | inl here ↦ joined here
          | inr away ↦
              let stored = head-StoredAt names s.db s.current_block chain.path in
              let (xs, ys, c, m, eq, down, up, _) =
                branches-Meets names s.db rooted s.current_block new stored at in
              let (path, l) = run-IsPath names s.db rooted xs s.current_block c down chain.path in
              let (p, par, v) = adopted c xs ys path l up in
              moved xs ys c away eq (settled p (adopt xs ys s) par v)
        ]
