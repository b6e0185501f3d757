-- ===== src/TxPool/TxList.antt =====
-- txList of core/tx_list.go: an account's transactions, with bounds on their cost and gas.
use benzene.Prelude.{
  ℕ, ◌+◌, ◌-◌, ◌*◌, ◌/◌, ◌^◌, Bool, true, false, ◌&&◌, ◌||◌, Option, none, some, List, [], ◌∷◌, ltb,
  leb, not, if◌then◌else◌, ◌==◌,
}
use benzene.TxPool.Transaction.{Transaction, cost}
use benzene.TxPool.SortedMap
use benzene.TxPool.SortedMap.{TxSortedMap}

pub record TxList : Type 0 where
  pub strict : Bool
  pub txs : TxSortedMap
  pub costcap : ℕ
  pub gascap : ℕ

unfoldable pub new_tx_list : Bool → TxList
unfolding SortedMap.new_tx_sorted_map
new_tx_list strict = record {
  strict = strict;
  txs = SortedMap.new_tx_sorted_map;
  costcap = 0;
  gascap = 0;
}

unfoldable pub overlaps : TxList → Transaction → Bool
unfolding SortedMap.get
overlaps l tx = elim (SortedMap.get l.txs tx.nonce) [ none ↦ false | some old ↦ true ]

-- The gas price that a replacement has to reach. `100 + int64(priceBump)` does not wrap: a price
-- bump is a percentage.
abbrev pub bump_threshold : Transaction → ℕ → ℕ
bump_threshold old price_bump = (100 + price_bump) * old.gas_price / 100

-- Is the old transaction kept?
abbrev pub is_better : Transaction → Transaction → ℕ → Bool
is_better old tx price_bump =
    leb tx.gas_price old.gas_price || ltb tx.gas_price (bump_threshold old price_bump)

-- Put, and the caps raised to the new transaction's cost and gas.
unfoldable pub overwrite : TxList → Transaction → TxList
unfolding SortedMap.insert
overwrite l tx = record l {
  txs = SortedMap.insert l.txs tx;
  costcap = if ltb l.costcap (cost tx) then cost tx else l.costcap;
  gascap = if ltb l.gascap tx.gas then tx.gas else l.gascap;
}

unfoldable pub add : TxList → Transaction → ℕ → TxList × Bool × Option Transaction
add l tx price_bump = elim (SortedMap.get l.txs tx.nonce) [
  | none ↦ (overwrite l tx, true, none)
  | some old ↦
      if is_better old tx price_bump then (l, false, none) else (overwrite l tx, true, some old)
]

unfoldable pub forward : TxList → ℕ → TxList × List Transaction
unfolding SortedMap.forward
forward l threshold =
    let (m, removed) = SortedMap.forward l.txs threshold in (record l { txs = m }, removed)

-- The lowest nonce of some transactions, from math.MaxUint64 down.
unfoldable pub lowest_nonce : ℕ → List Transaction → ℕ
lowest_nonce lowest [] = lowest
lowest_nonce lowest (tx ∷ txs) = lowest_nonce (if ltb tx.nonce lowest then tx.nonce else lowest) txs

abbrev pub exceeds : ℕ → ℕ → Transaction → Bool
exceeds cost_limit gas_limit tx = ltb gas_limit tx.gas || ltb cost_limit (cost tx)

-- What Filter does past its short circuit, the caps lowered already.
unfoldable pub filter_exceeding : TxList → ℕ → ℕ → TxList × List Transaction × List Transaction
filter_exceeding l cost_limit gas_limit =
    let (m, removed) = SortedMap.filter l.txs (exceeds cost_limit gas_limit) in
    let lowest = lowest_nonce (2 ^ 64 - 1) removed in
    let (m', invalids) = SortedMap.filter_items m (λ tx. ltb lowest tx.nonce) in
    if SortedMap.is_empty removed
    then (record l { txs = m }, [], [])
    else if l.strict
    then (record l { txs = SortedMap.reheap m' }, removed, invalids)
    else (record l { txs = SortedMap.reheap m }, removed, [])

unfoldable pub filter : TxList → ℕ → ℕ → TxList × List Transaction × List Transaction
filter l cost_limit gas_limit =
    if leb l.costcap cost_limit && leb l.gascap gas_limit
    then (l, [], [])
    else filter_exceeding (record l { costcap = cost_limit; gascap = gas_limit }) cost_limit
        gas_limit

unfoldable pub cap : TxList → ℕ → TxList × List Transaction
unfolding SortedMap.cap
cap l threshold = let (m, drops) = SortedMap.cap l.txs threshold in (record l { txs = m }, drops)

-- Remove
unfoldable pub delete : TxList → Transaction → TxList × Bool × List Transaction
unfolding SortedMap.delete SortedMap.filter
delete l tx =
    let (m, removed) = SortedMap.delete l.txs tx.nonce in
    let (m', invalids) = SortedMap.filter m (λ x. ltb tx.nonce x.nonce) in
    if not removed
    then (l, false, [])
    else if l.strict
    then (record l { txs = m' }, true, invalids)
    else (record l { txs = m }, true, [])

unfoldable pub ready : TxList → ℕ → TxList × List Transaction
unfolding SortedMap.ready
ready l start = let (m, txs) = SortedMap.ready l.txs start in (record l { txs = m }, txs)

unfoldable pub length : TxList → ℕ
unfolding SortedMap.len
length l = SortedMap.len l.txs

unfoldable pub empty : TxList → Bool
unfolding length
empty l = length l == 0

unfoldable pub flatten : TxList → TxList × List Transaction
unfolding SortedMap.flatten
flatten l = let (m, txs) = SortedMap.flatten l.txs in (record l { txs = m }, txs)

unfoldable pub last_element : TxList → TxList × Option Transaction
unfolding SortedMap.last_element
last_element l = let (m, tx) = SortedMap.last_element l.txs in (record l { txs = m }, tx)
