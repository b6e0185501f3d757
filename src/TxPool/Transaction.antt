-- ===== src/TxPool/Transaction.antt =====
-- core/types/transaction.go: what the pool reads of a transaction. The hash and the size are
-- computed by the RLP and Keccak libraries. Prices are not negative; an amount may be, which validateTx
-- turns down.
use benzene.Prelude.{ℕ, List, [], ◌∷◌, ltb, if◌then◌else◌}
use Prim.Native.Nat.{compare, Ordering}
use benzene.Prelude.Int.{ℤ, pos_part}

pub record Transaction : Type 0 where
  pub nonce : ℕ
  pub gas_price : ℕ
  pub gas : ℕ
  pub amount : ℤ
  pub hash : ℕ
  pub size : ℕ

-- GasPriceCmp and GasPriceIntCmp: the sign of a difference.
abbrev pub gas_price_cmp : Transaction → Transaction → Ordering
gas_price_cmp tx other = compare tx.gas_price other.gas_price

abbrev pub gas_price_int_cmp : Transaction → ℕ → Ordering
gas_price_int_cmp tx other = compare tx.gas_price other

-- Only the amount. It is compared with numbers that are not negative, caps and balances, and exceeds
-- them exactly if its positive part does.
abbrev pub cost : Transaction → ℕ
cost tx = pos_part tx.amount

-- sort.Sort of TxByNonce: an insertion sort. The nonces differ, so every sort gives this result.
pub insert_by_nonce : Transaction → List Transaction → List Transaction
insert_by_nonce tx [] = tx ∷ []
insert_by_nonce tx (x ∷ xs) =
    if ltb x.nonce tx.nonce then x ∷ insert_by_nonce tx xs else tx ∷ x ∷ xs

unfoldable pub sort_by_nonce : List Transaction → List Transaction
unfolding insert_by_nonce
sort_by_nonce [] = []
sort_by_nonce (x ∷ xs) = insert_by_nonce x (sort_by_nonce xs)
