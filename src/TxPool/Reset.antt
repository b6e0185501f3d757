-- ===== src/TxPool/Reset.antt =====
-- reset and runReorg of core/tx_pool.go: a new head of the chain. The blocks and the state of a root
-- come from the chain, the record Chain. The events to subscribers are left out. `none` is a panic.
use benzene.Prelude.{
  ℕ, zero, suc, ◌+◌, ◌-◌, ◌%◌, ◌^◌, false, not, Option, none, some, List, [], ◌∷◌, ◌++◌, Dict, put,
  keys, has, select, ltb, ◌==◌, if◌then◌else◌,
}
use benzene.TxPool.Transaction.{Transaction}
use benzene.TxPool.TxList
use benzene.TxPool.TxList.{TxList}
use benzene.TxPool.Lookup
use benzene.TxPool.Lookup.{AccountSet}
use benzene.TxPool.Noncer
use benzene.TxPool.Pool.{TxPool}
use benzene.TxPool.Admit.{add_txs_locked}
use benzene.TxPool.Promote.{promote_executables, demote_unexecutables}
use benzene.TxPool.Truncate.{Prque, truncate_pending, truncate_queue}

-- What the pool reads of a block and its header.
pub record ChainBlock : Type 0 where
  pub hash : ℕ
  pub parent_hash : ℕ
  pub number : ℕ
  pub root : ℕ
  pub transactions : List Transaction

pub record Chain : Type 0 where
  pub get_block : ℕ → ℕ → Option ChainBlock
  -- The nonces and the balances of a root.
  pub state_at : ℕ → Option ((ℕ → ℕ) × (ℕ → ℕ))

-- A walk down the two branches: a nil block that is read, a missing parent, or what was found.
pub data Walk : Type 0 where
  panics stops : Walk
  found : List Transaction → List Transaction → Walk

unfoldable pub mark_hashes : List Transaction → Dict (Unit {0}) → Dict (Unit {0})
mark_hashes [] marks = marks
mark_hashes (tx ∷ txs) marks = mark_hashes txs (put tx.hash tt marks)

-- TxDifference
unfoldable pub tx_difference : List Transaction → List Transaction → List Transaction
unfolding mark_hashes
tx_difference a b = select (λ tx. not (has tx.hash (mark_hashes b []))) a

module _ (chain : Chain) where
  abbrev pub parent : ChainBlock → Option ChainBlock
  parent b = chain.get_block b.parent_hash ((b.number + 2 ^ 64 - 1) % 2 ^ 64)

  -- The blocks of a branch above a height, the transactions of each behind those before. `none` is
  -- a missing parent. A parent's number is one less, so that the number is enough fuel.
  unfoldable pub descend :
      ℕ → ℕ → ChainBlock → List Transaction → Option (ChainBlock × List Transaction)
  descend zero height b txs = some (b, txs)
  descend (suc fuel) height b txs =
      let next : Option (ChainBlock × List Transaction) = elim (parent b) [
        | none ↦ none
        | some p ↦ descend fuel height p (txs ++ b.transactions)
      ] in
      if ltb height b.number then next else some (b, txs)

  -- Both branches, block by block, down to where they meet.
  unfoldable pub descend_both :
      ℕ → ChainBlock → ChainBlock → List Transaction → List Transaction → Walk
  descend_both zero rem add discarded included = stops
  descend_both (suc fuel) rem add discarded included =
      let next : Walk = elim (parent rem) [
        | none ↦ stops
        | some rem' ↦ elim (parent add) [
          | none ↦ stops
          | some add' ↦
              descend_both fuel rem' add' (discarded ++ rem.transactions)
                (included ++ add.transactions)
        ]
      ] in
      if rem.hash == add.hash then found discarded included else next

  -- The walk from the old head and the new one. Two branches that meet do so at number 0 at the
  -- latest.
  unfoldable pub walk : Option ChainBlock → Option ChainBlock → Walk
  unfolding descend descend_both
  walk none add = stops
  walk (some rem) none = panics
  walk (some rem) (some add) = elim (descend rem.number add.number rem []) [
    | none ↦ stops
    | some (rem', discarded) ↦ elim (descend add.number rem'.number add []) [
      | none ↦ stops
      | some (add', included) ↦ descend_both (suc (suc rem'.number)) rem' add' discarded included
    ]
  ]

  -- The distance of two heights, which is computed in floating point: exact below 2 ^ 53.
  abbrev pub depth : ℕ → ℕ → ℕ
  depth m n = if ltb m n then n - m else m - n

  -- What a new head makes of the transactions of the old one.
  unfoldable pub reorg : Option ChainBlock → ChainBlock → Walk
  unfolding walk
  reorg none new_head = found [] []
  reorg (some old) new_head =
      if old.hash == new_head.parent_hash
      then found [] []
      else if ltb 64 (depth old.number new_head.number)
      then found [] []
      else walk (chain.get_block old.hash old.number)
          (chain.get_block new_head.hash new_head.number)

  module _ (sender : Transaction → Option ℕ) where
    -- The state of the new head, and the reinjected transactions.
    unfoldable pub reinject : ℕ → TxPool → ChainBlock → List Transaction → Option TxPool
    unfolding Noncer.new_tx_noncer Lookup.new_account_set add_txs_locked
    reinject now s new_head txs = elim (chain.state_at new_head.root) [
      | none ↦ some s
      | some (nonces, balances) ↦
          let fresh = record s {
            state_nonce = nonces;
            state_balance = balances;
            pending_nonces = Noncer.new_tx_noncer nonces;
          } in
          elim (add_txs_locked sender now fresh txs false (Lookup.new_account_set [])) [
            | none ↦ none
            | some (u, results, dirty) ↦ some u
          ]
    ]

    -- reset. Only a test calls it without a new head.
    unfoldable pub reset : ℕ → TxPool → Option ChainBlock → ChainBlock → Option TxPool
    unfolding reorg reinject tx_difference
    reset now s old_head new_head = elim (reorg old_head new_head) [
      | panics ↦ none
      | stops ↦ some s
      | found discarded included ↦ reinject now s new_head (tx_difference discarded included)
    ]

    -- The pending nonces behind the last transactions of the lists; an empty list panics.
    unfoldable pub update_nonces : TxPool → Dict TxList → Option TxPool
    unfolding TxList.last_element Noncer.set
    update_nonces s [] = some s
    update_nonces s ((addr, list) ∷ rest) =
        let (read, last) = TxList.last_element list in
        elim last [
          | none ↦ none
          | some tx ↦
              update_nonces
                (record s {
                  pending = put addr read s.pending;
                  pending_nonces = Noncer.set s.pending_nonces addr ((tx.nonce + 1) % 2 ^ 64);
                })
                rest
        ]

    module _ {Q : Type 0} (prque : Prque Q) where
      -- The end of runReorg.
      unfoldable pub settle : ℕ → TxPool → Option TxPool
      unfolding truncate_pending truncate_queue update_nonces
      settle now s = elim (truncate_pending prque s) [
        | none ↦ none
        | some u ↦ elim (truncate_queue sender now u) [
          | none ↦ none
          | some v ↦ update_nonces v v.pending
        ]
      ]

      -- runReorg with a reset.
      unfoldable pub run_reset : ℕ → TxPool → Option ChainBlock → ChainBlock → Option TxPool
      unfolding reset promote_executables demote_unexecutables settle
      run_reset now s old_head new_head = elim (reset now s old_head new_head) [
        | none ↦ none
        | some t ↦ elim (promote_executables sender now t (keys t.queue) []) [
          | none ↦ none
          | some (u, promoted) ↦ elim (demote_unexecutables sender now u) [
            | none ↦ none
            | some v ↦ settle now v
          ]
        ]
      ]

      -- runReorg without one: the accounts that sent transactions, if any.
      unfoldable pub run_promotion : ℕ → TxPool → Option AccountSet → Option TxPool
      unfolding promote_executables settle Lookup.flatten
      run_promotion now s dirty =
          let addrs : List ℕ = elim dirty [ none ↦ [] | some d ↦ (Lookup.flatten d).1 ] in
          elim (promote_executables sender now s addrs []) [
            | none ↦ none
            | some (u, promoted) ↦ settle now u
          ]
