-- ===== src/TxPool/Admit.antt =====
-- TxPool.add, addTxsLocked and Status of core/tx_pool.go.
use benzene.Prelude.{
  ℕ, ◌+◌, Bool, true, false, not, ◌&&◌, Option, none, some, List, [], ◌∷◌, has, put, leb,
  if◌then◌else◌,
}
use benzene.Prelude.Int.{sub_ℕ}
use benzene.TxPool.Transaction.{Transaction}
use benzene.TxPool.TxList
use benzene.TxPool.TxList.{TxList}
use benzene.TxPool.Lookup
use benzene.TxPool.Lookup.{AccountSet, num_slots}
use benzene.TxPool.PricedList
use benzene.TxPool.PricedList.{TxPricedList}
use benzene.TxPool.Pool.{
  TxPool, PoolError, already_known, underpriced, replace_underpriced, TxStatus, status_unknown,
  status_queued, status_pending, global_limit, discard_old, index_tx, list_of, from, validate_tx,
  enqueue_tx, remove_tx,
}

-- What add says: whether a transaction was replaced, or an error.
pub data Added : Type 0 where
  added : Bool → Added
  rejected : PoolError → Added

module _ (sender : Transaction → Option ℕ) where
  unfoldable pub remove_all : ℕ → TxPool → List Transaction → Option TxPool
  unfolding remove_tx
  remove_all now s [] = some s
  remove_all now s (tx ∷ txs) = elim (remove_tx sender now s tx.hash false) [
    | none ↦ none
    | some u ↦ remove_all now u txs
  ]

  -- The room made in a full pool. `none` inside is ErrUnderpriced.
  unfoldable pub make_room : ℕ → TxPool → Transaction → Bool → Option (TxPool × Bool)
  unfolding Lookup.count PricedList.underpriced PricedList.discard remove_all
  make_room now s tx local =
      let (checked, cheap) = PricedList.underpriced sender s.all s.priced tx s.locals in
      let priced = if local then s.priced else checked in
      let room = sub_ℕ (s.all.slots + num_slots tx) (global_limit s) in
      if not (leb (global_limit s) (Lookup.count s.all))
      then some (s, true)
      else if not local && cheap
      then some (record s { priced = checked }, false)
      else elim (PricedList.discard sender s.all priced room s.locals) [
        | none ↦ none
        | some (left, drop) ↦ elim (remove_all now (record s { priced = left }) drop) [
          | none ↦ none
          | some u ↦ some (u, true)
        ]
      ]

  -- The replacement of a pending transaction.
  unfoldable pub replace_pending : ℕ → TxPool → TxList → Transaction → Option (TxPool × Added)
  unfolding TxList.add Lookup.delete PricedList.removed PricedList.insert Lookup.add
  replace_pending now s list tx =
      let addr = from sender tx in
      let (list', inserted, old) = TxList.add list tx s.price_bump in
      let s' = record s { pending = put addr list' s.pending } in
      if not inserted then some (s', rejected replace_underpriced) else elim (discard_old s' old) [
        | none ↦ none
        | some u ↦
            let v = index_tx u tx in
            some (
              record v { beats = put addr now v.beats },
              added (elim old [ none ↦ false | some x ↦ true ]),
            )
      ]

  -- add past the room: a pending transaction is replaced, another one is queued.
  unfoldable pub place : ℕ → TxPool → Transaction → Bool → Option (TxPool × Added)
  unfolding TxList.overlaps replace_pending enqueue_tx Lookup.contains Lookup.add_account
  place now s tx local =
      let addr = from sender tx in
      let list = list_of true addr s.pending in
      if has addr s.pending && TxList.overlaps list tx
      then replace_pending now s list tx
      else elim (enqueue_tx sender now s tx) [
        | none ↦ none
        | some (u, none) ↦ some (u, rejected replace_underpriced)
        | some (u, some replaced) ↦
            if local && not (Lookup.contains u.locals addr)
            then some (record u { locals = Lookup.add_account u.locals addr }, added replaced)
            else some (u, added replaced)
      ]

  unfoldable pub add : ℕ → TxPool → Transaction → Bool → Option (TxPool × Added)
  unfolding Lookup.get validate_tx make_room place
  add now s tx local = elim (Lookup.get s.all tx.hash) [
    | some x ↦ some (s, rejected already_known)
    | none ↦ elim (validate_tx sender s tx local) [
      | some e ↦ some (s, rejected e)
      | none ↦ elim (make_room now s tx local) [
        | none ↦ none
        | some (u, false) ↦ some (u, rejected underpriced)
        | some (u, true) ↦ place now u tx local
      ]
    ]
  ]

  -- addTxsLocked: the results in order, and the senders of what was added.
  unfoldable pub add_txs_locked :
      ℕ → TxPool → List Transaction → Bool → AccountSet → Option (TxPool × List Added × AccountSet)
  unfolding add Lookup.add_tx
  add_txs_locked now s [] local dirty = some (s, [], dirty)
  add_txs_locked now s (tx ∷ txs) local dirty = elim (add now s tx local) [
    | none ↦ none
    | some (u, r) ↦
        let dirty' : AccountSet = elim r [
          | added false ↦ Lookup.add_tx sender dirty tx
          | _ ↦ dirty
        ] in
        elim (add_txs_locked now u txs local dirty') [
          | none ↦ none
          | some (v, rs, d) ↦ some (v, r ∷ rs, d)
        ]
  ]

  unfoldable pub status : TxPool → ℕ → TxStatus
  unfolding Lookup.get TxList.overlaps
  status s hash = elim (Lookup.get s.all hash) [
    | none ↦ status_unknown
    | some tx ↦
        if TxList.overlaps (list_of true (from sender tx) s.pending) tx
        then status_pending
        else if TxList.overlaps (list_of false (from sender tx) s.queue) tx
        then status_queued
        else status_unknown
  ]
