-- ===== src/Chain/Ancestor.antt =====
-- GetAncestor and GetBlockHashesFromHash of core/headerchain.go, on the tables of core/rawdb. The
-- caches of headers and numbers are left out: they hold what the database has.
use benzene.Prelude.{
  ℕ, zero, suc, ◌+◌, ◌-◌, ◌%◌, ◌^◌, Option, none, some, List, [], ◌∷◌, ltb, ◌==◌, if◌then◌else◌,
}
use benzene.Chain.Rawdb.{
  Header, Database, pred64, read_canonical_hash, read_header, read_header_number,
}

abbrev pub sub64 : ℕ → ℕ → ℕ
sub64 a b = (a + 2 ^ 64 - b) % 2 ^ 64

-- The loop of GetAncestor: a hash with its number, and what is left of maxNonCanonical.
unfoldable pub ancestor_loop : ℕ → Database → ℕ → ℕ → ℕ → (ℕ × ℕ) × ℕ
ancestor_loop zero d hash number max_non_canonical = ((hash, number), max_non_canonical)
ancestor_loop (suc ancestor) d hash number max_non_canonical =
    let below = sub64 number (suc ancestor) in
    let next : (ℕ × ℕ) × ℕ = elim (read_header d hash number) [
      | none ↦ ((0, 0), max_non_canonical - 1)
      | some h ↦ ancestor_loop ancestor d h.parent_hash (pred64 number) (max_non_canonical - 1)
    ] in
    if read_canonical_hash d number == hash
    then ((read_canonical_hash d below, below), max_non_canonical)
    else if max_non_canonical == 0
    then ((0, 0), 0)
    else next

unfoldable pub get_ancestor : Database → ℕ → ℕ → ℕ → ℕ → (ℕ × ℕ) × ℕ
unfolding ancestor_loop
get_ancestor d hash number ancestor max_non_canonical =
    let parent : (ℕ × ℕ) × ℕ = elim (read_header d hash number) [
      | none ↦ ((0, 0), max_non_canonical)
      | some h ↦ ((h.parent_hash, pred64 number), max_non_canonical)
    ] in
    if ltb number ancestor
    then ((0, 0), max_non_canonical)
    else if ancestor == 1
    then parent
    else ancestor_loop ancestor d hash number max_non_canonical

-- GetHeaderByHash
unfoldable pub get_header_by_hash : Database → ℕ → Option Header
get_header_by_hash d hash = elim (read_header_number d hash) [
  | none ↦ none
  | some n ↦ read_header d hash n
]

-- The loop of GetBlockHashesFromHash.
unfoldable pub hashes_from : ℕ → Database → Header → List ℕ
hashes_from zero d h = []
hashes_from (suc max) d h = elim (read_header d h.parent_hash (pred64 h.number)) [
  | none ↦ []
  | some p ↦
      let rest = hashes_from max d p in
      if p.number == 0 then h.parent_hash ∷ [] else h.parent_hash ∷ rest
]

unfoldable pub get_block_hashes_from_hash : Database → ℕ → ℕ → List ℕ
unfolding get_header_by_hash hashes_from
get_block_hashes_from_hash d hash max = elim (get_header_by_hash d hash) [
  | none ↦ []
  | some h ↦ hashes_from max d h
]
