-- ===== src/Chain/Tables.antt =====
-- What the batch of writeHeadBlock of core/blockchain.go and the writing of a block do to the tables.
use benzene.Prelude.{
  ℕ, ◌≡◌, refl, sym, ◌⊎◌, inl, inr, none, some, List, [], ◌∷◌, arith, Bool-cases, ==_iff, get?,
  get?-put, put, if◌then◌else◌, ◌==◌, ◌∙◌,
}
use benzene.Chain.Rawdb.{
  Block, Database, read_canonical_hash, write_canonical_hash, read_header, write_header, read_block,
  write_block, write_tx_lookup_entries,
}
use benzene.Chain.Head.{head_tables}

-- The batch of writeHeadBlock writes one canonical hash, and no block.
entries_same :
    (n : ℕ) (txs : List ℕ) (d : Database)
    → ((write_tx_lookup_entries n txs d).canonical ≡ d.canonical)
      × ((write_tx_lookup_entries n txs d).headers ≡ d.headers)
      × ((write_tx_lookup_entries n txs d).bodies ≡ d.bodies)
unfolding write_tx_lookup_entries
entries_same n [] d = (refl, refl, refl)
entries_same n (tx ∷ txs) d = entries_same n txs _

canonical-head_tables :
    (b : Block) (d : Database)
    → (head_tables b d).canonical ≡ put b.header.number b.header.hash d.canonical
unfolding head_tables write_canonical_hash
canonical-head_tables b d = (entries_same b.header.number b.transactions _).0

pub get?-head_tables :
    (b : Block) (d : Database) (n : ℕ)
    → get? n (head_tables b d).canonical
      ≡ (if b.header.number == n then some b.header.hash else get? n d.canonical)
get?-head_tables b d n =
    rw (canonical-head_tables b d) (get?-put b.header.number n b.header.hash d.canonical)

pub hash-head_tables :
    (b : Block) (d : Database) (n : ℕ)
    → read_canonical_hash (head_tables b d) n
      ≡ (if b.header.number == n then b.header.hash else read_canonical_hash d n)
unfolding read_canonical_hash
hash-head_tables b d n = ground (arith, get?-head_tables b d n)

pub read_block-head_tables :
    (b : Block) (d : Database) (h n : ℕ) → read_block (head_tables b d) h n ≡ read_block d h n
unfolding read_block read_header head_tables write_canonical_hash
read_block-head_tables b d h n =
    let (_, headers, bodies) =
      entries_same b.header.number b.transactions
        (write_canonical_hash b.header.hash b.header.number d) in
    rw (headers, bodies) refl

pub read_block-write_block :
    (b : Block) (d : Database) (h n : ℕ)
    → read_block (write_block b d) h n ≡ (
        if b.header.hash == h
        then (if b.header.number == n then some b else none)
        else read_block d h n)
unfolding read_block read_header write_block write_header
read_block-write_block b d h n = ground (
  arith,
  get?-put b.header.hash h b.header d.headers,
  get?-put b.header.hash h b.transactions d.bodies,
)

pub read_block_number :
    (d : Database) (h n : ℕ) (b : Block) → read_block d h n ≡ some b → b.header.number ≡ n
unfolding read_block read_header
read_block_number d h n b e = ground arith

pub read_block-write_inv :
    (b : Block) (d : Database) (h n : ℕ) (c : Block)
    → read_block (write_block b d) h n ≡ some c
    → ((b.header.hash ≡ h) × (b ≡ c)) ⊎ (read_block d h n ≡ some c)
read_block-write_inv b d h n c e = elim (Bool-cases (b.header.hash == h)) [
  | inl same ↦
      let at : (if b.header.number == n then some b else none) ≡ some c =
        sym (rw (read_block-write_block b d h n, same) refl) ∙ e in
      inl ((==_iff b.header.hash h).0 same, ground arith)
  | inr other ↦ inr (sym (rw (read_block-write_block b d h n, other) refl) ∙ e)
]
