-- ===== src/TxPool/PoolTests.antt =====
-- A pool with a pending transaction of account 9, and what happens to others in it. The signer
-- finds account 9 as the sender of every transaction.
use benzene.Prelude.{
  ℕ, ◌+◌, ◌≡◌, refl, inl, inr, ◌⊎◌, ◌↔◌, List, true, false, Option, some, none, [], ◌∷◌, arith,
  Bool-cases, ◌==◌,
}
use benzene.Prelude.Int.{pos}
use benzene.TxPool.Transaction.{Transaction}
use benzene.TxPool.SortedMap
use benzene.TxPool.SortedMap.{TxSortedMap}
use benzene.TxPool.TxList.{TxList}
use benzene.TxPool.Lookup
use benzene.TxPool.Lookup.{TxLookup, IsLookup}
use benzene.TxPool.Index.{IsIndexed, insert-IsIndexed}
use benzene.GoHeap
use benzene.GoHeap.Order.{IsHeap}
use benzene.GoHeap.Ops.{push-IsHeap}
use benzene.TxPool.PricedList
use benzene.TxPool.PricedList.{TxPricedList, price_less}
use benzene.TxPool.Underpriced.{IsClear, IsDear, price_less-IsOrder, underpriced-IsDear}
use benzene.TxPool.Pool.{TxPool, promote_tx, remove_tx}
use benzene.TxPool.Admit.{Added, add}
use benzene.TxPool.AddTx.{IsOverfull, add-IsPool}
use benzene.TxPool.Invariant.{entry, IsOrderly, IsPool}
use benzene.TxPool.Pending.{promote_tx-IsPool}
use benzene.TxPool.RemoveTx.{remove_tx-IsPool}

abbrev tx : ℕ → ℕ → Transaction
tx nonce price = record {
  nonce = nonce;
  gas_price = price;
  gas = 21;
  amount = pos 5;
  hash = 100 + nonce;
  size = 200;
}

abbrev no_map : TxSortedMap
no_map = record { items = []; index = []; cache = none }

no_map-IsIndexed : IsIndexed no_map
no_map-IsIndexed = record {
  keyed = tt;
  nonces = λ k v e. absurd (cc);
  heap = λ c x y p l b e f. absurd (omega (arith, l));
  listed = λ k. refl;
}

abbrev account : TxList
account = record {
  strict = true;
  txs = SortedMap.insert no_map (tx 4 10);
  costcap = 5;
  gascap = 21;
}

account-IsOrderly : IsOrderly true account
unfolding SortedMap.insert
account-IsOrderly = record {
  kind = refl;
  indexed = insert-IsIndexed no_map (tx 4 10) no_map-IsIndexed;
  capped = (omega arith, omega arith, tt);
}

abbrev lookup : TxLookup
lookup = record { all = (104, tx 4 10) ∷ []; slots = 1 }

lookup-IsLookup : IsLookup lookup
lookup-IsLookup = record { keyed = (refl, tt); hashed = λ k v e. ground arith; summed = refl }

abbrev pool : TxPool
pool = record {
  price_bump = 10;
  account_slots = 16;
  global_slots = 4096;
  account_queue = 64;
  global_queue = 1024;
  gas_price = 1;
  current_max_gas = 0;
  state_nonce = λ addr. 4;
  state_balance = λ addr. 1000;
  pending_nonces = record { fallback = λ addr. 4; nonces = (9, 5) ∷ [] };
  locals = record { accounts = []; cache = none };
  pending = (9, account) ∷ [];
  queue = [];
  beats = [];
  all = lookup;
  priced = record { items = tx 4 10 ∷ []; stales = pos 0 };
}

abbrev account_number : ℕ
account_number = 9

the_account : (l : TxList) → some account ≡ some l → account ≡ l
the_account l e = cc

abbrev signer : Transaction → Option ℕ
signer x = some 9

pool-IsPool : IsPool signer pool
unfolding Lookup.get SortedMap.insert
pool-IsPool = record {
  lookup = lookup-IsLookup;
  pending = record {
    orderly = λ addr l e. elim (Bool-cases (account_number == addr)) [
      | inl same ↦ rw (← the_account l (ground (arith, same, e))) account-IsOrderly
      | inr other ↦ absurd (ground (arith, other, e))
    ];
    known = λ addr n x e. ground (arith, e);
    place = λ addr n x e. ground (arith, e);
  };
  queue = record {
    orderly = λ addr l e. absurd (cc);
    known = λ addr n x e. absurd (cc);
    place = λ addr n x e. absurd (cc);
  };
  apart = λ addr n. inr refl;
}

promote_tx-IsPool_example :
    (t : TxPool) × (promote_tx signer 1 pool 9 (tx 5 10) ≡ some (t, true))
    × IsPool signer t
    × (t.queue ≡ pool.queue)
    × (entry t.pending 9 5 ≡ some (tx 5 10))
unfolding Lookup.get SortedMap.insert
promote_tx-IsPool_example =
    promote_tx-IsPool signer 1 pool (tx 5 10) pool-IsPool (inl refl) refl refl

remove_tx-IsPool_example :
    (t : TxPool) × (remove_tx signer 1 pool 104 true ≡ some t)
    × IsPool signer t
    × ((k : ℕ) → Lookup.get pool.all k ≡ none → Lookup.get t.all k ≡ none)
remove_tx-IsPool_example = remove_tx-IsPool signer 1 pool 104 true pool-IsPool

add-IsPool_example :
    IsOverfull signer pool (tx 5 10) false
    ⊎ ((t : TxPool) × (r : Added) × (add signer 1 pool (tx 5 10) false ≡ some (t, r))
        × IsPool signer t)
add-IsPool_example = add-IsPool signer 1 pool (tx 5 10) false pool-IsPool

abbrev no_entries : List Transaction
no_entries = []

abbrev prices : TxPricedList
prices = record { items = GoHeap.push price_less no_entries (tx 4 10); stales = pos 0 }

prices-IsHeap : IsHeap price_less prices.items
prices-IsHeap =
    (push-IsHeap price_less price_less-IsOrder no_entries (tx 4 10)
      (λ c x y p l b e f. absurd (omega (arith, l)))).0

underpriced-IsDear_example :
    IsClear lookup prices (PricedList.underpriced signer lookup prices (tx 5 9) pool.locals).0
    × ((PricedList.underpriced signer lookup prices (tx 5 9) pool.locals).1 ≡ true
        ↔ IsDear signer
            (tx 5 9)
            (PricedList.underpriced signer lookup prices (tx 5 9) pool.locals).0)
unfolding Lookup.contains_tx Lookup.contains
underpriced-IsDear_example =
    underpriced-IsDear signer lookup prices (tx 5 9) pool.locals prices-IsHeap refl
