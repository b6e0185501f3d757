-- ===== src/TxPool/Pool.antt =====
-- TxPool of core/tx_pool.go: how a transaction is validated, queued, promoted and removed. The
-- sender is recovered by the signer: a parameter. Meters, the journal of local transactions and
-- the events to subscribers are left out. The methods run under the pool's lock, one at a time;
-- `now` is the time they read. `none` is a panic, of TxLookup.Remove or TxPricedList.Discard.
use benzene.Prelude.{
  ℕ, ◌+◌, ◌*◌, ◌%◌, ◌^◌, Bool, true, false, not, ◌&&◌, ◌||◌, Option, none, some, List, [], ◌∷◌,
  Dict, get?, has, put, remove, ltb, if◌then◌else◌,
}
use Prim.Native.Nat.{Ordering}
use benzene.Prelude.Int.{is_negative}
use benzene.TxPool.Transaction.{Transaction, cost, gas_price_int_cmp}
use benzene.TxPool.TxList
use benzene.TxPool.TxList.{TxList}
use benzene.TxPool.Lookup
use benzene.TxPool.Lookup.{TxLookup, AccountSet, num_slots, tx_slot_size}
use benzene.TxPool.PricedList
use benzene.TxPool.PricedList.{TxPricedList}
use benzene.TxPool.Noncer
use benzene.TxPool.Noncer.{TxNoncer}

pub data PoolError : Type 0 where
  already_known oversized_data invalid_sender underpriced nonce_too_low : PoolError
  insufficient_funds replace_underpriced negative_value : PoolError

pub data TxStatus : Type 0 where
  status_unknown status_queued status_pending : TxStatus

pub record TxPool : Type 0 where
  pub price_bump : ℕ
  pub account_slots : ℕ
  pub global_slots : ℕ
  pub account_queue : ℕ
  pub global_queue : ℕ
  pub gas_price : ℕ
  pub current_max_gas : ℕ
  pub state_nonce : ℕ → ℕ
  pub state_balance : ℕ → ℕ
  pub pending_nonces : TxNoncer
  pub locals : AccountSet
  pub pending : Dict TxList
  pub queue : Dict TxList
  pub beats : Dict ℕ
  pub all : TxLookup
  pub priced : TxPricedList

-- GlobalSlots + GlobalQueue
abbrev pub global_limit : TxPool → ℕ
global_limit s = (s.global_slots + s.global_queue) % 2 ^ 64

abbrev pub tx_max_size : ℕ
tx_max_size = 4 * tx_slot_size

-- A transaction's place in a list of its account, with the replaced one out of the lookup.
abbrev pub discard_old : TxPool → Option Transaction → Option TxPool
discard_old s none = some s
discard_old s (some old) = elim (Lookup.delete s.all old.hash) [
  | none ↦ none
  | some all ↦ some (record s { all = all; priced = PricedList.removed all s.priced 1 })
]

abbrev pub index_tx : TxPool → Transaction → TxPool
index_tx s tx = record s { all = Lookup.add s.all tx; priced = PricedList.insert s.priced tx }

abbrev pub index_new : TxPool → Transaction → TxPool
index_new s tx = elim (Lookup.get s.all tx.hash) [ none ↦ index_tx s tx | some x ↦ s ]

abbrev pub list_of : Bool → ℕ → Dict TxList → TxList
list_of strict addr lists = elim (get? addr lists) [ some l ↦ l | none ↦ TxList.new_tx_list strict ]

module _ (sender : Transaction → Option ℕ) where
  -- The sender of a validated transaction; Go has the zero address where there is none.
  abbrev pub from : Transaction → ℕ
  from tx = elim (sender tx) [ some addr ↦ addr | none ↦ 0 ]

  unfoldable pub validate_tx : TxPool → Transaction → Bool → Option PoolError
  unfolding Lookup.contains
  validate_tx s tx local =
      if ltb tx_max_size tx.size
      then some oversized_data
      else if is_negative tx.amount
      then some negative_value
      else elim (sender tx) [
        | none ↦ some invalid_sender
        | some addr ↦
            if not (local || Lookup.contains s.locals addr)
              && elim (gas_price_int_cmp tx s.gas_price) [ Ordering.lt ↦ true | _ ↦ false ]
            then some underpriced
            else if ltb tx.nonce (s.state_nonce addr)
            then some nonce_too_low
            else if ltb (s.state_balance addr) (cost tx)
            then some insufficient_funds
            else none
      ]

  -- enqueueTx: whether a transaction was replaced, or the error.
  unfoldable pub enqueue_tx : ℕ → TxPool → Transaction → Option (TxPool × Option Bool)
  unfolding TxList.new_tx_list TxList.add Lookup.get Lookup.delete PricedList.removed
      PricedList.insert Lookup.add
  enqueue_tx now s tx =
      let addr = from tx in
      let (list, inserted, old) = TxList.add (list_of false addr s.queue) tx s.price_bump in
      let s' = record s { queue = put addr list s.queue } in
      if not inserted then some (s', none) else elim (discard_old s' old) [
        | none ↦ none
        | some u ↦
            let v = index_new u tx in
            some (
              record v { beats = if has addr v.beats then v.beats else put addr now v.beats },
              some (elim old [ none ↦ false | some x ↦ true ]),
            )
      ]

  unfoldable pub promote_tx : ℕ → TxPool → ℕ → Transaction → Option (TxPool × Bool)
  unfolding TxList.new_tx_list TxList.add Lookup.get Lookup.delete PricedList.removed
      PricedList.insert Noncer.set Lookup.add
  promote_tx now s addr tx =
      let (list, inserted, old) = TxList.add (list_of true addr s.pending) tx s.price_bump in
      let s' = record s { pending = put addr list s.pending } in
      if not inserted
      then elim (discard_old s' (some tx)) [ none ↦ none | some u ↦ some (u, false) ]
      else elim (discard_old s' old) [
        | none ↦ none
        | some u ↦
            let v = index_new u tx in
            some (
              record v {
                pending_nonces = Noncer.set v.pending_nonces addr ((tx.nonce + 1) % 2 ^ 64);
                beats = put addr now v.beats;
              },
              true,
            )
      ]

  unfoldable pub enqueue_all : ℕ → TxPool → List Transaction → Option TxPool
  unfolding enqueue_tx
  enqueue_all now s [] = some s
  enqueue_all now s (tx ∷ txs) = elim (enqueue_tx now s tx) [
    | none ↦ none
    | some (u, replaced) ↦ enqueue_all now u txs
  ]

  -- removeTx past the pending list.
  unfoldable pub remove_queued : TxPool → ℕ → Transaction → TxPool
  unfolding TxList.delete TxList.empty
  remove_queued s addr tx = elim (get? addr s.queue) [
    | none ↦ s
    | some future ↦
        let (list, removed, invalids) = TxList.delete future tx in
        if TxList.empty list
        then record s { queue = remove addr s.queue; beats = remove addr s.beats }
        else record s { queue = put addr list s.queue }
  ]

  -- removeTx for a transaction that is out of the lookup already.
  unfoldable pub remove_listed : ℕ → TxPool → ℕ → Transaction → Option TxPool
  unfolding TxList.delete TxList.empty enqueue_all remove_queued Noncer.set_if_lower
  remove_listed now s addr tx = elim (get? addr s.pending) [
    | none ↦ some (remove_queued s addr tx)
    | some list ↦
        let (list', removed, invalids) = TxList.delete list tx in
        let pending =
          if TxList.empty list' then remove addr s.pending else put addr list' s.pending in
        if removed
        then elim (enqueue_all now (record s { pending = pending }) invalids) [
          | none ↦ none
          | some u ↦
              some
                (record u { pending_nonces = Noncer.set_if_lower u.pending_nonces addr tx.nonce })
        ]
        else some (remove_queued s addr tx)
  ]

  unfoldable pub remove_tx : ℕ → TxPool → ℕ → Bool → Option TxPool
  unfolding Lookup.get Lookup.delete PricedList.removed remove_listed
  remove_tx now s hash outofbound = elim (Lookup.get s.all hash) [
    | none ↦ some s
    | some tx ↦ elim (Lookup.delete s.all hash) [
      | none ↦ none
      | some all ↦
          let priced = if outofbound then PricedList.removed all s.priced 1 else s.priced in
          remove_listed now (record s { all = all; priced = priced }) (from tx) tx
    ]
  ]
