-- ===== src/Chain/Tests.antt =====
-- Runs of core/blockchain.go, and the theorems of the chain at them: a chain of one block, a block
-- on it, one whose parent is not stored.
use benzene.Prelude.{
  ℕ, suc, ◌≡◌, refl, inl, inr, none, some, [], ◌∷◌, arith, true, false, subst, sym, ◌==◌,
  if◌then◌else◌,
}
use benzene.Chain.Rawdb.{Block, read_block, read_header, read_canonical_hash}
use benzene.Chain.Head.{BlockChain}
use benzene.Chain.Write.{Services, write_block_with_state}
use benzene.Chain.Insert.{panics, is_contiguous}
use benzene.Chain.Side.{insert_chain}
use benzene.Chain.Engine.{with_engine}
use benzene.Chain.Canonical.{IsGood}
use benzene.Chain.Grow.{InOrder, AfterWrite, write_block_with_state-AfterWrite}
use benzene.Chain.Inserted.{insert_chain-Kept}
use benzene.Chain.Ends.{insert_chain-Ends}
use benzene.Chain.Finality.{Kept}
use benzene.Chain.Adopts.{RunsThrough, Adopted}
use benzene.Chain.Completes.{insert_chain-Adopted, insert_chain-panics}

abbrev block_at : ℕ → ℕ → ℕ → Block
block_at hash parent number = record {
  header = record { hash = hash; parent_hash = parent; number = number; time = 0; root = 0 };
  transactions = [];
}

abbrev genesis : Block
genesis = block_at 7 0 0

abbrev first : Block
first = block_at 8 7 1

-- A block of a parent that nobody has.
abbrev orphan : Block
orphan = block_at 9 5 1

abbrev names : ℕ → Block
names h = if h == 7 then genesis else if h == 8 then first else block_at h 0 0

abbrev start : BlockChain ℕ
start = record {
  db = record {
    headers = (7, genesis.header) ∷ [];
    header_numbers = (7, 0) ∷ [];
    bodies = (7, []) ∷ [];
    canonical = (0, 7) ∷ [];
    tx_lookup = [];
    head_block = 7;
    head_header = 7;
    head_fast_block = 7;
  };
  current_block = genesis;
  current_fast_block = genesis;
  current_header = genesis.header;
  current_header_hash = 7;
  future_blocks = 0;
  bad_blocks = 0;
  events = [];
}

abbrev lib : Services ℕ
lib = record {
  cache_add = λ h b q. suc q;
  cache_remove = λ h q. q;
  cache_contains = λ h q. false;
  cached_header = λ s h. none;
  verify_headers = λ s bs seals i. none;
  validate_body = λ b. none;
  terminating = false;
  stopped = λ s. false;
  is_bad_hash = λ h. false;
  now = 0;
  open_state = λ root. none;
  process = λ h b. none;
  validate_state = λ b. none;
  commit_state = λ b. none;
  has_state = λ s root. true;
  block_size = λ b. 100;
  should_preserve = none;
  coin = λ b. true;
}

lib-RunsThrough : RunsThrough lib
lib-RunsThrough = record {
  goes_on = refl;
  not_stopped = λ s. refl;
  no_bad_hash = λ h. refl;
  opens = λ root. refl;
  runs = λ h b. refl;
  commits = λ b. refl;
}

genesis-IsGood : IsGood names genesis
genesis-IsGood = record { named = refl; nonzero = λ e. omega arith; numbered = inl (refl, refl) }

first-IsGood : IsGood names first
first-IsGood = record { named = refl; nonzero = λ e. omega arith; numbered = inr refl }

read_block_start :
    (h n : ℕ) (b : Block) → read_block start.db h n ≡ some b → (h ≡ 7) × (genesis ≡ b)
unfolding read_block read_header
read_block_start h n b e = ground arith

start-InOrder : InOrder names start
unfolding read_block read_header read_canonical_hash
start-InOrder = record {
  path = record {
    good = λ h n b e.
        let (at, eq) = read_block_start h n b e in
        (rw (← eq) (sym at), subst (IsGood names) eq genesis-IsGood);
    at_head = refl;
    named = refl;
    stored = λ n l. let z : n ≡ 0 = omega arith in rw z refl;
    nonzero = λ n l e.
        let z : n ≡ 0 = omega arith in
        let seven : ◌≡◌ {A = ℕ} 7 0 = subst (λ k. read_canonical_hash start.db k ≡ 0) z e in
        absurd (omega arith);
    linked = λ n l. absurd (omega (arith, l));
  };
  above = λ n l. ground arith;
}

alone : (b : Block) → is_contiguous (b ∷ []) ≡ true
unfolding is_contiguous
alone b = refl

no_parent : read_header start.db 5 0 ≡ none
unfolding read_header
no_parent = refl

write_block_with_state-AfterWrite_example :
    AfterWrite names none start first (write_block_with_state lib first true start)
write_block_with_state-AfterWrite_example =
    write_block_with_state-AfterWrite names lib first true start start-InOrder first-IsGood

insert_chain-Kept_example : Kept names Unit start (insert_chain lib 3 start (first ∷ []))
insert_chain-Kept_example =
    insert_chain-Kept names lib (λ s bs seals i e. cc) (λ b e. cc) 3 start (first ∷ [])
      start-InOrder (first-IsGood, tt)

insert_chain-Adopted_example :
    Adopted lib lib-RunsThrough names start first [] 0
      (insert_chain (with_engine lib) 1 start (first ∷ []))
insert_chain-Adopted_example =
    insert_chain-Adopted lib lib-RunsThrough names 0 start first [] start-InOrder (first-IsGood, tt)
      (alone first) refl (omega arith)

insert_chain-panics_example : insert_chain (with_engine lib) 1 start (orphan ∷ []) ≡ panics
insert_chain-panics_example =
    insert_chain-panics lib lib-RunsThrough 0 start orphan [] (alone orphan) refl no_parent

insert_chain-Ends_example : Kept names ⊥ start (insert_chain (with_engine lib) 1 start (first ∷ []))
insert_chain-Ends_example =
    insert_chain-Ends lib names 0 start (first ∷ []) start-InOrder (first-IsGood, tt)
