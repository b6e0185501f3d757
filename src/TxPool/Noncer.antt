-- ===== src/TxPool/Noncer.antt =====
-- core/tx_noncer.go: the pool's nonces over those of a state database, which is a function from
-- addresses to nonces (a private copy that nothing else changes).
use benzene.Prelude.{ℕ, none, some, [], Dict, get?, put, leb, if◌then◌else◌}

pub record TxNoncer : Type 0 where
  pub fallback : ℕ → ℕ
  pub nonces : Dict ℕ

unfoldable pub new_tx_noncer : (ℕ → ℕ) → TxNoncer
new_tx_noncer statedb = record { fallback = statedb; nonces = [] }

-- The reads of both operations, which fill the map first.
unfoldable pub load : TxNoncer → ℕ → TxNoncer × ℕ
load t addr = elim (get? addr t.nonces) [
  | some n ↦ (t, n)
  | none ↦ (record t { nonces = put addr (t.fallback addr) t.nonces }, t.fallback addr)
]

unfoldable pub get : TxNoncer → ℕ → TxNoncer × ℕ
unfolding load
get t addr = load t addr

unfoldable pub set : TxNoncer → ℕ → ℕ → TxNoncer
set t addr nonce = record t { nonces = put addr nonce t.nonces }

unfoldable pub set_if_lower : TxNoncer → ℕ → ℕ → TxNoncer
unfolding load
set_if_lower t addr nonce =
    let (t', n) = load t addr in
    if leb n nonce then t' else record t' { nonces = put addr nonce t'.nonces }
