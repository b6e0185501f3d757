-- ===== src/Chain/Rawdb.antt =====
-- The tables of the database that the chain is kept in: core/rawdb/accessors_chain.go and
-- accessors_indexes.go. A hash is a number, and common.Hash{} is 0. Headers and bodies are filed in
-- the source under a number and a hash; a header's hash determines its number, and so the key here
-- is the hash, and a read at another number finds nothing. The RLP and the keys are left out.
use benzene.Prelude.{
  ℕ, ◌+◌, ◌-◌, ◌%◌, ◌^◌, Bool, true, false, Option, none, some, List, [], ◌∷◌, Dict, get?, put,
  remove, keep, keys, ◌==◌, if◌then◌else◌,
}

pub record Header : Type 0 where
  pub hash : ℕ
  pub parent_hash : ℕ
  pub number : ℕ
  pub time : ℕ
  pub root : ℕ

pub record Block : Type 0 where
  pub header : Header
  -- The hashes of the transactions.
  pub transactions : List ℕ

pub record Database : Type 0 where
  pub headers : Dict Header
  pub header_numbers : Dict ℕ
  pub bodies : Dict (List ℕ)
  -- The hash of the canonical block of each number.
  pub canonical : Dict ℕ
  -- The number of the block that has a transaction.
  pub tx_lookup : Dict ℕ
  pub head_block : ℕ
  pub head_header : ℕ
  pub head_fast_block : ℕ

abbrev pub suc64 : ℕ → ℕ
suc64 n = (n + 1) % 2 ^ 64

abbrev pub pred64 : ℕ → ℕ
pred64 n = (n + 2 ^ 64 - 1) % 2 ^ 64

abbrev pub or_zero : Option ℕ → ℕ
or_zero none = 0
or_zero (some h) = h

unfoldable pub read_canonical_hash : Database → ℕ → ℕ
read_canonical_hash d n = or_zero (get? n d.canonical)

unfoldable pub write_canonical_hash : ℕ → ℕ → Database → Database
write_canonical_hash hash n d = record d { canonical = put n hash d.canonical }

unfoldable pub delete_canonical_hash : ℕ → Database → Database
delete_canonical_hash n d = record d { canonical = remove n d.canonical }

-- ReadHeaderNumber
unfoldable pub read_header_number : Database → ℕ → Option ℕ
read_header_number d hash = get? hash d.header_numbers

unfoldable pub read_header : Database → ℕ → ℕ → Option Header
read_header d hash n = elim (get? hash d.headers) [
  | none ↦ none
  | some h ↦ if h.number == n then some h else none
]

unfoldable pub has_header : Database → ℕ → ℕ → Bool
unfolding read_header
has_header d hash n = elim (read_header d hash n) [ none ↦ false | some h ↦ true ]

unfoldable pub write_header : Header → Database → Database
write_header h d = record d {
  header_numbers = put h.hash h.number d.header_numbers;
  headers = put h.hash h d.headers;
}

-- DeleteHeader
unfoldable pub delete_header : ℕ → Database → Database
delete_header hash d = record d {
  headers = remove hash d.headers;
  header_numbers = remove hash d.header_numbers;
}

unfoldable pub read_block : Database → ℕ → ℕ → Option Block
unfolding read_header
read_block d hash n = elim (read_header d hash n) [
  | none ↦ none
  | some h ↦ elim (get? hash d.bodies) [
    | none ↦ none
    | some txs ↦ some (record { header = h; transactions = txs })
  ]
]

unfoldable pub write_block : Block → Database → Database
unfolding write_header
write_block b d =
    write_header b.header (record d { bodies = put b.header.hash b.transactions d.bodies })

unfoldable pub write_tx_lookup_entries : ℕ → List ℕ → Database → Database
write_tx_lookup_entries n [] d = d
write_tx_lookup_entries n (tx ∷ txs) d =
    write_tx_lookup_entries n txs (record d { tx_lookup = put tx n d.tx_lookup })

unfoldable pub delete_tx_lookup_entries : List ℕ → Database → Database
delete_tx_lookup_entries [] d = d
delete_tx_lookup_entries (tx ∷ txs) d =
    delete_tx_lookup_entries txs (record d { tx_lookup = remove tx d.tx_lookup })

-- ReadAllHashes: the hashes of every header of a number.
unfoldable pub read_all_hashes : Database → ℕ → List ℕ
read_all_hashes d n = keys (keep (λ hash h. h.number == n) d.headers)
