-- ===== src/TxPool/Promote.antt =====
-- promoteExecutables and demoteUnexecutables of core/tx_pool.go. The lists of an account are changed
-- in place: a changed list is put back at the end, since no step between reads it from the pool.
use benzene.Prelude.{
  ℕ, ◌+◌, Bool, true, false, ◌&&◌, Option, none, some, List, [], ◌∷◌, ◌++◌, Dict, get?, put, remove,
  length, ltb, if◌then◌else◌,
}
use benzene.TxPool.Transaction.{Transaction}
use benzene.TxPool.SortedMap
use benzene.TxPool.TxList
use benzene.TxPool.TxList.{TxList}
use benzene.TxPool.Lookup
use benzene.TxPool.Lookup.{TxLookup}
use benzene.TxPool.PricedList
use benzene.TxPool.Noncer
use benzene.TxPool.Pool.{TxPool, promote_tx, enqueue_all}

-- pool.all.Remove for each of the transactions.
unfoldable pub delete_all : TxLookup → List Transaction → Option TxLookup
unfolding Lookup.delete
delete_all all [] = some all
delete_all all (tx ∷ txs) = elim (Lookup.delete all tx.hash) [
  | none ↦ none
  | some left ↦ delete_all left txs
]

module _ (sender : Transaction → Option ℕ) where
  -- The promoted transactions behind those that were promoted before.
  unfoldable pub promote_readies :
      ℕ → TxPool → ℕ → List Transaction → List Transaction → Option (TxPool × List Transaction)
  unfolding promote_tx
  promote_readies now s addr [] promoted = some (s, promoted)
  promote_readies now s addr (tx ∷ txs) promoted = elim (promote_tx sender now s addr tx) [
    | none ↦ none
    | some (u, inserted) ↦
        promote_readies now u addr txs (if inserted then promoted ++ tx ∷ [] else promoted)
  ]

  -- A queue that became empty is deleted, and its heartbeat.
  unfoldable pub store_queue : TxPool → ℕ → TxList → TxPool
  unfolding TxList.empty
  store_queue s addr list =
      if TxList.empty list
      then record s { queue = remove addr s.queue; beats = remove addr s.beats }
      else record s { queue = put addr list s.queue }

  -- The transactions over the limit, of an account that is not local.
  unfoldable pub cap_queue : TxPool → ℕ → TxList → TxList × List Transaction
  unfolding TxList.cap Lookup.contains
  cap_queue s addr list =
      if Lookup.contains s.locals addr then (list, []) else TxList.cap list s.account_queue

  -- One account, from Ready on; `dropped` transactions are out of the lookup already.
  unfoldable pub promote_rest :
      ℕ → TxPool → ℕ → TxList → ℕ → List Transaction → Option (TxPool × List Transaction)
  unfolding TxList.ready Noncer.get PricedList.removed promote_readies cap_queue delete_all
      store_queue
  promote_rest now s addr list dropped promoted =
      let (nonces, start) = Noncer.get s.pending_nonces addr in
      let (left, readies) = TxList.ready list start in
      elim (promote_readies now (record s { pending_nonces = nonces }) addr readies promoted) [
        | none ↦ none
        | some (u, promoted') ↦
            let (capped, caps) = cap_queue u addr left in
            elim (delete_all u.all caps) [
              | none ↦ none
              | some all ↦
                  let priced = PricedList.removed all u.priced (dropped + length caps) in
                  some
                    (store_queue (record u { all = all; priced = priced }) addr capped, promoted')
            ]
      ]

  -- One account of promoteExecutables.
  unfoldable pub promote_account :
      ℕ → TxPool → ℕ → TxList → List Transaction → Option (TxPool × List Transaction)
  unfolding TxList.forward TxList.filter delete_all promote_rest
  promote_account now s addr list promoted =
      let (newer, forwards) = TxList.forward list (s.state_nonce addr) in
      let (payable, drops, invalids) =
        TxList.filter newer (s.state_balance addr) s.current_max_gas in
      elim (delete_all s.all forwards) [
        | none ↦ none
        | some fresh ↦ elim (delete_all fresh drops) [
          | none ↦ none
          | some all ↦
              promote_rest now (record s { all = all }) addr payable
                (length forwards + length drops) promoted
        ]
      ]

  -- promoteExecutables
  unfoldable pub promote_executables :
      ℕ → TxPool → List ℕ → List Transaction → Option (TxPool × List Transaction)
  unfolding promote_account
  promote_executables now s [] promoted = some (s, promoted)
  promote_executables now s (addr ∷ addrs) promoted = elim (get? addr s.queue) [
    | none ↦ promote_executables now s addrs promoted
    | some list ↦ elim (promote_account now s addr list promoted) [
      | none ↦ none
      | some (u, promoted') ↦ promote_executables now u addrs promoted'
    ]
  ]

  -- A gap in front of a pending list: its transactions go back to the queue.
  unfoldable pub demote_gapped : ℕ → TxPool → ℕ → TxList → Option (TxPool × TxList)
  unfolding TxList.length TxList.cap SortedMap.get enqueue_all
  demote_gapped now s nonce list =
      let (emptied, gapped) = TxList.cap list 0 in
      let gap : Bool = elim (SortedMap.get list.txs nonce) [ none ↦ true | some tx ↦ false ] in
      if ltb 0 (TxList.length list) && gap
      then elim (enqueue_all sender now s gapped) [ none ↦ none | some u ↦ some (u, emptied) ]
      else some (s, list)

  unfoldable pub store_pending : TxPool → ℕ → TxList → TxPool
  unfolding TxList.empty
  store_pending s addr list =
      if TxList.empty list
      then record s { pending = remove addr s.pending }
      else record s { pending = put addr list s.pending }

  -- One account of demoteUnexecutables.
  unfoldable pub demote_account : ℕ → TxPool → ℕ → TxList → Option TxPool
  unfolding TxList.forward TxList.filter PricedList.removed delete_all enqueue_all demote_gapped
      store_pending
  demote_account now s addr list =
      let nonce = s.state_nonce addr in
      let (newer, olds) = TxList.forward list nonce in
      let (payable, drops, invalids) =
        TxList.filter newer (s.state_balance addr) s.current_max_gas in
      elim (delete_all s.all olds) [
        | none ↦ none
        | some fresh ↦ elim (delete_all fresh drops) [
          | none ↦ none
          | some all ↦
              let priced = PricedList.removed all s.priced (length olds + length drops) in
              elim (enqueue_all sender now (record s { all = all; priced = priced }) invalids) [
                | none ↦ none
                | some u ↦ elim (demote_gapped now u nonce payable) [
                  | none ↦ none
                  | some (v, left) ↦ some (store_pending v addr left)
                ]
              ]
        ]
      ]

  -- demoteUnexecutables, over the accounts as they are at its start: a round changes the pending
  -- list of its own account only.
  unfoldable pub demote_accounts : ℕ → TxPool → Dict TxList → Option TxPool
  unfolding demote_account
  demote_accounts now s [] = some s
  demote_accounts now s ((addr, list) ∷ rest) = elim (demote_account now s addr list) [
    | none ↦ none
    | some u ↦ demote_accounts now u rest
  ]

  unfoldable pub demote_unexecutables : ℕ → TxPool → Option TxPool
  unfolding demote_accounts
  demote_unexecutables now s = demote_accounts now s s.pending
