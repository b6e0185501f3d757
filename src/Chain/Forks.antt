-- ===== src/Chain/Forks.antt =====
-- A run of writeKnownBlock of core/blockchain.go: two branches from one first block, the head on the
-- shorter one.
use benzene.Prelude.{
  ℕ, suc, ◌≡◌, refl, sym, ◌⊎◌, inl, inr, some, [], ◌∷◌, arith, subst, ◌==◌, if◌then◌else◌, ◌^◌, ◌-◌,
  ◌<◌, ◌≤◌,
}
use benzene.Chain.Rawdb.{Block, read_block, read_header, read_canonical_hash}
use benzene.Chain.Head.{BlockChain}
use benzene.Chain.Reorg.{write_known_block}
use benzene.Chain.Canonical.{IsGood, IsChain}
use benzene.Chain.Walk.{IsRooted}
use benzene.Chain.Ancestor.{get_ancestor}
use benzene.Chain.Ancestry.{IsAnswer, get_ancestor-IsAnswer}
use benzene.Chain.Reorged.{Settles, write_known_block-Settles}

abbrev block_at : ℕ → ℕ → ℕ → Block
block_at hash parent number = record {
  header = record { hash = hash; parent_hash = parent; number = number; time = 0; root = 0 };
  transactions = [];
}

abbrev genesis : Block
genesis = block_at 7 0 0

abbrev short : Block
short = block_at 8 7 1

abbrev long : Block
long = block_at 18 7 1

abbrev longer : Block
longer = block_at 19 18 2

abbrev names : ℕ → Block
names h =
    if h == 7
    then genesis
    else if h == 8
    then short
    else if h == 18
    then long
    else if h == 19
    then longer
    else block_at h 0 0

abbrev forked : BlockChain ℕ
forked = record {
  db = record {
    headers =
        (7, genesis.header) ∷ (8, short.header) ∷ (18, long.header) ∷ (19, longer.header) ∷ [];
    header_numbers = (7, 0) ∷ (8, 1) ∷ (18, 1) ∷ (19, 2) ∷ [];
    bodies = (7, []) ∷ (8, []) ∷ (18, []) ∷ (19, []) ∷ [];
    canonical = (0, 7) ∷ (1, 8) ∷ [];
    tx_lookup = [];
    head_block = 8;
    head_header = 8;
    head_fast_block = 8;
  };
  current_block = short;
  current_fast_block = short;
  current_header = short.header;
  current_header_hash = 8;
  future_blocks = 0;
  bad_blocks = 0;
  events = [];
}

abbrev Listed : ℕ → ℕ → Block → Type 0
Listed h n b =
    ((h ≡ 7) × (n ≡ 0) × (genesis ≡ b))
    ⊎ (((h ≡ 8) × (n ≡ 1) × (short ≡ b))
        ⊎ (((h ≡ 18) × (n ≡ 1) × (long ≡ b)) ⊎ ((h ≡ 19) × (n ≡ 2) × (longer ≡ b))))

listed : (h n : ℕ) (b : Block) → read_block forked.db h n ≡ some b → Listed h n b
unfolding read_block read_header
listed h n b e = ground arith

Listed-IsGood : (h n : ℕ) (b : Block) → Listed h n b → (b.header.hash ≡ h) × IsGood names b
Listed-IsGood h n b (inl (x, _, e)) = (
  rw (← e) (sym x),
  subst (IsGood names) e
      (record { named = refl; nonzero = λ e. omega arith; numbered = inl (refl, refl) }),
)
Listed-IsGood h n b (inr (inl (x, _, e))) = (
  rw (← e) (sym x),
  subst (IsGood names) e (record { named = refl; nonzero = λ e. omega arith; numbered = inr refl }),
)
Listed-IsGood h n b (inr (inr (inl (x, _, e)))) = (
  rw (← e) (sym x),
  subst (IsGood names) e (record { named = refl; nonzero = λ e. omega arith; numbered = inr refl }),
)
Listed-IsGood h n b (inr (inr (inr (x, _, e)))) = (
  rw (← e) (sym x),
  subst (IsGood names) e (record { named = refl; nonzero = λ e. omega arith; numbered = inr refl }),
)

forked_parent :
    (h m : ℕ) (b : Block)
    → Listed h (suc m) b
    → read_block forked.db b.header.parent_hash m ≡ some (names b.header.parent_hash)
unfolding read_block read_header
forked_parent h m b (inl (_, z, e)) = absurd (omega (arith, z))
forked_parent h m b (inr (inl (_, z, e))) = let low : m ≡ 0 = omega (arith, z) in rw (← e, low) refl
forked_parent h m b (inr (inr (inl (_, z, e)))) =
    let low : m ≡ 0 = omega (arith, z) in rw (← e, low) refl
forked_parent h m b (inr (inr (inr (_, z, e)))) =
    let low : m ≡ 1 = omega (arith, z) in rw (← e, low) refl

forked_small : (h n : ℕ) (b : Block) → Listed h n b → n < 2 ^ 64 - 1
forked_small h n b l = ground arith

forked_root : (h : ℕ) (b : Block) → Listed h 0 b → h ≡ read_canonical_hash forked.db 0
unfolding read_canonical_hash
forked_root h b l = ground arith

forked-IsRooted : IsRooted names forked.db
forked-IsRooted = record {
  good = λ h n b e. Listed-IsGood h n b (listed h n b e);
  small = λ h n b e. forked_small h n b (listed h n b e);
  parents = λ h m b e. forked_parent h m b (listed h (suc m) b e);
  root = λ h b e. forked_root h b (listed h 0 b e);
}

two_numbers : (n : ℕ) → n ≤ 1 → (n ≡ 0) ⊎ (n ≡ 1)
two_numbers n l = ground arith

forked_stored :
    (n : ℕ)
    → n ≤ 1
    → read_block forked.db (read_canonical_hash forked.db n) n
      ≡ some (names (read_canonical_hash forked.db n))
unfolding read_block read_header read_canonical_hash
forked_stored n l = elim (two_numbers n l) [ inl e ↦ rw e refl | inr e ↦ rw e refl ]

forked_nonzero : (n : ℕ) → n ≤ 1 → read_canonical_hash forked.db n ≡ 0 → ⊥
unfolding read_canonical_hash
forked_nonzero n l e = ground arith

forked-IsChain : IsChain names forked.db short
unfolding read_canonical_hash
forked-IsChain = record {
  path = record {
    good = forked-IsRooted.good;
    at_head = refl;
    named = refl;
    stored = forked_stored;
    nonzero = forked_nonzero;
    linked = λ n l. let z : n ≡ 0 = omega (arith, l) in rw z refl;
  };
  above = λ n l. ground arith;
}

longer_stored : read_block forked.db 19 2 ≡ some longer
unfolding read_block read_header
longer_stored = refl

write_known_block-Settles_example : Settles names longer forked (write_known_block longer forked)
write_known_block-Settles_example =
    write_known_block-Settles names forked forked-IsRooted forked-IsChain longer longer_stored
      (omega arith)

get_ancestor-IsAnswer_example : IsAnswer names (get_ancestor forked.db 19 2 2 5) 19 2 2 5
get_ancestor-IsAnswer_example =
    get_ancestor-IsAnswer names forked.db short forked-IsRooted forked-IsChain longer 2 2 5
      longer_stored (omega arith)
