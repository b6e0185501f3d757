-- ===== src/TxPool/Replace.antt =====
-- txList.Add: when a transaction takes the place of another.
use benzene.Prelude.{
  ℕ, ◌+◌, ◌*◌, ◌/◌, ◌≤◌, ◌<◌, ◌≡◌, refl, ◌⊎◌, inl, inr, true, false, Option, none, some, arith,
  Option-cases, Bool-cases, get?-put, leb, ltb, ◌==◌, if◌then◌else◌,
}
use benzene.TxPool.Transaction.{Transaction, cost}
use benzene.TxPool.SortedMap
use benzene.TxPool.TxList.{TxList, add, overwrite, bump_threshold}

-- The transaction that a list has under a nonce.
abbrev pub at : TxList → ℕ → Option Transaction
at l nonce = SortedMap.get l.txs nonce

pub record Written (l : TxList) (tx : Transaction) (l' : TxList) : Type 0 where
  pub entry : (nonce : ℕ) → at l' nonce ≡ (if tx.nonce == nonce then some tx else at l nonce)
  pub cost_bound : (l.costcap ≤ l'.costcap) × (cost tx ≤ l'.costcap)
  pub gas_bound : (l.gascap ≤ l'.gascap) × (tx.gas ≤ l'.gascap)
  pub kind : l'.strict ≡ l.strict

pub overwrite-Written : (l : TxList) (tx : Transaction) → Written l tx (overwrite l tx)
unfolding overwrite SortedMap.insert SortedMap.get
overwrite-Written l tx = record {
  entry = λ nonce. get?-put tx.nonce nonce tx l.txs.items;
  cost_bound = ground arith;
  gas_bound = ground arith;
  kind = refl;
}

-- Add takes a transaction unless the list has one of its nonce whose price is as high, or higher
-- than the price bump allows; then the list stays as it is. A transaction that is taken is the one
-- under its nonce, every other nonce is untouched, the caps cover it, and the transaction that it
-- replaces is returned.
pub add_lem :
    (l : TxList) (tx : Transaction) (price_bump : ℕ)
    → ((at l tx.nonce ≡ none)
        × (add l tx price_bump ≡ (overwrite l tx, true, none))
        × Written l tx (overwrite l tx))
      ⊎ ((old : Transaction) × (at l tx.nonce ≡ some old)
          × (((old.gas_price < tx.gas_price)
                × ((100 + price_bump) * old.gas_price / 100 ≤ tx.gas_price)
                × (add l tx price_bump ≡ (overwrite l tx, true, some old))
                × Written l tx (overwrite l tx))
              ⊎ (((tx.gas_price ≤ old.gas_price)
                    ⊎ (tx.gas_price < (100 + price_bump) * old.gas_price / 100))
                  × (add l tx price_bump ≡ (l, false, none)))))
unfolding add
add_lem l tx price_bump = elim (Option-cases (SortedMap.get l.txs tx.nonce)) [
  | inl free ↦ inl (free, rw (free, add) refl, overwrite-Written l tx)
  | inr (old, taken) ↦ inr (
    old,
    taken,
    elim (Bool-cases (leb tx.gas_price old.gas_price)) [
      | inl low ↦ inr (inl (ground arith), rw (taken, low, add) refl)
      | inr high ↦ elim (Bool-cases (ltb tx.gas_price (bump_threshold old price_bump))) [
        | inl small ↦ inr (inr (ground arith), rw (taken, high, small, add) refl)
        | inr large ↦
            inl (
              ground arith,
              ground arith,
              rw (taken, high, large, add) refl,
              overwrite-Written l tx,
            )
      ]
    ],
  )
]
