-- ===== src/TxPool/Tests.antt =====
-- The pool's structures at concrete transactions. A transaction's sender is a number that stands in
-- for the signer's answer.
use benzene.Prelude.{
  ℕ, ◌+◌, ◌*◌, ◌/◌, ◌≤◌, ◌<◌, ◌≡◌, ◌↔◌, ◌⊎◌, refl, true, false, some, none, [], ◌∷◌, arith,
}
use benzene.Prelude.Int.{pos}
use benzene.Prelude.Arrays.{swap}
use benzene.GoHeap.{push}
use benzene.TxPool.Transaction.{Transaction}
use benzene.TxPool.SortedMap
use benzene.TxPool.SortedMap.{TxSortedMap}
use benzene.TxPool.TxList.{TxList, add, overwrite, filter}
use benzene.TxPool.Index.{IsIndexed, insert-IsIndexed}
use benzene.TxPool.Forward.{Forwarded, forward-Forwarded}
use benzene.TxPool.Ready.{ReadyOf, ready-ReadyOf}
use benzene.TxPool.Replace.{at, Written, add_lem}
use benzene.TxPool.Caps.{Filtered, filter-Filtered}
use benzene.TxPool.Noncer
use benzene.TxPool.Noncer.{TxNoncer}
use benzene.TxPool.NoncerRuns.{gets, sets, lowers, run, run_map, noncer_refines}
use benzene.TxPool.Lookup.{TxLookup, IsLookup}
use benzene.TxPool.Pool.{TxPool, validate_tx}
use benzene.TxPool.Validate.{IsValid, validate_tx-IsValid}

abbrev tx : ℕ → ℕ → Transaction
tx nonce price = record {
  nonce = nonce;
  gas_price = price;
  gas = 21;
  amount = pos 5;
  hash = 100 + nonce;
  size = 200;
}

abbrev no_map : TxSortedMap
no_map = record { items = []; index = []; cache = none }

no_map-IsIndexed : IsIndexed no_map
no_map-IsIndexed = record {
  keyed = tt;
  nonces = λ k v e. absurd (cc);
  heap = λ c x y p l b e f. absurd (omega (arith, l));
  listed = λ k. refl;
}

abbrev two : TxSortedMap
two = SortedMap.insert (SortedMap.insert no_map (tx 7 10)) (tx 4 10)

two-IsIndexed : IsIndexed two
two-IsIndexed =
    insert-IsIndexed (SortedMap.insert no_map (tx 7 10)) (tx 4 10)
      (insert-IsIndexed no_map (tx 7 10) no_map-IsIndexed)

forward-Forwarded_example :
    Forwarded 6 two.items []
      (SortedMap.forward two 6).0.items
      (SortedMap.forward two 6).0.index
      (SortedMap.forward two 6).1
forward-Forwarded_example = forward-Forwarded two 6 two-IsIndexed

abbrev account : TxList
account = record {
  strict = true;
  txs = record { items = (4, tx 4 10) ∷ []; index = 4 ∷ []; cache = none };
  costcap = 5;
  gascap = 30;
}

add_lem_example :
    ((at account 4 ≡ none)
      × (add account (tx 4 11) 10 ≡ (overwrite account (tx 4 11), true, none))
      × Written account (tx 4 11) (overwrite account (tx 4 11)))
    ⊎ ((old : Transaction) × (at account 4 ≡ some old)
        × (((old.gas_price < 11)
              × ((100 + 10) * old.gas_price / 100 ≤ 11)
              × (add account (tx 4 11) 10 ≡ (overwrite account (tx 4 11), true, some old))
              × Written account (tx 4 11) (overwrite account (tx 4 11)))
            ⊎ (((11 ≤ old.gas_price) ⊎ (11 < (100 + 10) * old.gas_price / 100))
                × (add account (tx 4 11) 10 ≡ (account, false, none)))))
add_lem_example = add_lem account (tx 4 11) 10

filter-Filtered_example : Filtered account 4 30 (filter account 4 30)
filter-Filtered_example =
    filter-Filtered account 4 30 (omega arith, omega arith, tt) (omega arith, tt)

abbrev noncer : TxNoncer
noncer = record { fallback = λ addr. 3; nonces = (1, 8) ∷ [] }

noncer_refines_example :
    run (Noncer.new_tx_noncer (λ addr. 3)) (gets 1 ∷ lowers 1 2 ∷ sets 2 8 ∷ gets 1 ∷ gets 2 ∷ [])
    ≡ run_map (λ addr. 3) (gets 1 ∷ lowers 1 2 ∷ sets 2 8 ∷ gets 1 ∷ gets 2 ∷ [])
noncer_refines_example =
    noncer_refines (λ addr. 3) (gets 1 ∷ lowers 1 2 ∷ sets 2 8 ∷ gets 1 ∷ gets 2 ∷ [])

abbrev lookup : TxLookup
lookup = record { all = (104, tx 4 10) ∷ []; slots = 1 }

lookup-IsLookup : IsLookup lookup
lookup-IsLookup = record { keyed = (refl, tt); hashed = λ k v e. ground arith; summed = refl }

abbrev pool : TxPool
pool = record {
  price_bump = 10;
  account_slots = 16;
  global_slots = 4096;
  account_queue = 64;
  global_queue = 1024;
  gas_price = 1;
  current_max_gas = 0;
  state_nonce = λ addr. 4;
  state_balance = λ addr. 1000;
  pending_nonces = noncer;
  locals = record { accounts = []; cache = none };
  pending = [];
  queue = [];
  beats = [];
  all = lookup;
  priced = record { items = tx 4 10 ∷ []; stales = pos 0 };
}

validate_tx-IsValid_example :
    (validate_tx (λ x. some 9) pool (tx 5 10) false ≡ none)
    ↔ ((addr : ℕ) × IsValid (λ x. some 9) pool (tx 5 10) false addr)
validate_tx-IsValid_example = validate_tx-IsValid (λ x. some 9) pool (tx 5 10) false

ready-ReadyOf_example : ReadyOf two 4 (SortedMap.ready two 4)
unfolding SortedMap.insert push swap
ready-ReadyOf_example =
    ready-ReadyOf two 4 two-IsIndexed (λ k c. ground (arith, c, two-IsIndexed.listed k))
