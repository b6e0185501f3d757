-- ===== src/TxPool/Validate.antt =====
-- validateTx of core/tx_pool.go.
use benzene.Prelude.{
  ℕ, ◌*◌, ◌≤◌, ◌≡◌, refl, ◌⊎◌, ◌↔◌, inl, inr, Bool, true, Option, none, some, arith, Option-cases,
}
use benzene.Prelude.Int.{ℤ, pos, negsuc, is_negative}
use benzene.TxPool.Transaction.{Transaction}
use benzene.TxPool.Lookup
use benzene.TxPool.Pool.{TxPool, validate_tx}

amount_cases : (a : ℤ) → ((n : ℕ) × (a ≡ pos n)) ⊎ (is_negative a ≡ true)
amount_cases (pos n) = inl (n, refl)
amount_cases (negsuc n) = inr refl

module _ (sender : Transaction → Option ℕ) where
  -- What a valid transaction satisfies.
  pub record IsValid (s : TxPool) (tx : Transaction) (local : Bool) (addr : ℕ) : Type 0 where
    pub size : tx.size ≤ 4 * (32 * 1024)
    pub signed : sender tx ≡ some addr
    pub price :
        (local ≡ true) ⊎ ((Lookup.contains s.locals addr ≡ true) ⊎ (s.gas_price ≤ tx.gas_price))
    pub nonce : s.state_nonce addr ≤ tx.nonce
    pub funds : (n : ℕ) × (tx.amount ≡ pos n) × (n ≤ s.state_balance addr)

  sound :
      (s : TxPool) (tx : Transaction) (local : Bool)
      → validate_tx sender s tx local ≡ none
      → (addr : ℕ) × IsValid s tx local addr
  unfolding validate_tx
  sound s tx local e = elim (Option-cases (sender tx)) [
    | inl unsigned ↦ absurd (ground arith)
    | inr (addr, signed) ↦ elim (amount_cases tx.amount) [
      | inr negative ↦ absurd (ground arith)
      | inl (n, positive) ↦ (
        addr,
        record {
          size = ground arith;
          signed = signed;
          price = ground arith;
          nonce = ground arith;
          funds = (n, positive, ground arith);
        },
      )
    ]
  ]

  -- validateTx accepts exactly the transactions that are at most 128 KB large, are signed, pay the
  -- pool's price unless they or their senders are local, and have a nonce and an amount that the
  -- state allows; the amount is not negative.
  pub validate_tx-IsValid :
      (s : TxPool) (tx : Transaction) (local : Bool)
      → (validate_tx sender s tx local ≡ none) ↔ ((addr : ℕ) × IsValid s tx local addr)
  unfolding validate_tx
  validate_tx-IsValid s tx local = (
    sound s tx local,
    λ (addr, v).
        let (n, amount, le) = v.funds in
        ground (arith, v.size, v.signed, v.price, v.nonce, amount, le),
  )
