-- ===== src/TxPool/Truncate.antt =====
-- truncatePending and truncateQueue of core/tx_pool.go. The priority queue of the offenders is
-- go-ethereum's: the record Prque. A loop of the first runs on the length of the list that it
-- looks at, which each of its rounds shortens by one. `none` is a panic.
use benzene.Prelude.{
  ℕ, zero, suc, ◌+◌, ◌-◌, ◌%◌, ◌^◌, true, not, ◌&&◌, Option, none, some, List, [], ◌∷◌, ◌++◌, Dict,
  get?, put, get_elem?, length, ltb, leb, ◌==◌, if◌then◌else◌,
}
use benzene.Prelude.Arrays.{take}
use benzene.TxPool.Transaction.{Transaction}
use benzene.TxPool.TxList
use benzene.TxPool.TxList.{TxList}
use benzene.TxPool.Lookup
use benzene.TxPool.Lookup.{AccountSet}
use benzene.TxPool.PricedList
use benzene.TxPool.Noncer
use benzene.TxPool.Noncer.{TxNoncer}
use benzene.TxPool.Pool.{TxPool, remove_tx}
use benzene.TxPool.Promote.{delete_all}

-- Addresses with priorities; `none` of `pop` is an empty queue.
pub record Prque (Q : Type 0) : Type 0 where
  pub fresh : Q
  pub push : Q → ℕ → ℕ → Q
  pub pop : Q → Option (ℕ × Q)

-- How many transactions some lists have.
unfoldable pub total_len : Dict TxList → ℕ
unfolding TxList.length
total_len [] = 0
total_len ((addr, list) ∷ rest) = TxList.length list + total_len rest

abbrev pub less_one : ℕ → ℕ
less_one n = (n + 2 ^ 64 - 1) % 2 ^ 64

unfoldable pub lower_all : TxNoncer → ℕ → List Transaction → TxNoncer
unfolding Noncer.set_if_lower
lower_all nonces addr [] = nonces
lower_all nonces addr (tx ∷ txs) = lower_all (Noncer.set_if_lower nonces addr tx.nonce) addr txs

-- The body of both loops over offenders: the last transaction of a list goes. An address without a
-- list, and a list without transactions, panic.
unfoldable pub drop_last : TxPool → ℕ → Option TxPool
unfolding TxList.length TxList.cap delete_all PricedList.removed lower_all
drop_last s addr = elim (get? addr s.pending) [
  | none ↦ none
  | some list ↦
      let (left, caps) = TxList.cap list (TxList.length list - 1) in
      let kept : Option TxPool = elim (delete_all s.all caps) [
        | none ↦ none
        | some all ↦ some (record s {
          pending = put addr left s.pending;
          all = all;
          pending_nonces = lower_all s.pending_nonces addr caps;
          priced = PricedList.removed all s.priced (length caps);
        })
      ] in
      if TxList.length list == 0 then none else kept
]

unfoldable pub drop_each : TxPool → ℕ → List ℕ → Option (TxPool × ℕ)
unfolding drop_last
drop_each s pending [] = some (s, pending)
drop_each s pending (addr ∷ addrs) = elim (drop_last s addr) [
  | none ↦ none
  | some u ↦ drop_each u (less_one pending) addrs
]

abbrev pub last_of : List ℕ → Option ℕ
last_of xs = get_elem? xs (length xs - 1)

-- The length of the pending list of the last of some offenders.
unfoldable pub last_len : TxPool → List ℕ → Option ℕ
unfolding TxList.length
last_len s offenders = elim (last_of offenders) [
  | none ↦ none
  | some addr ↦ elim (get? addr s.pending) [ none ↦ none | some list ↦ some (TxList.length list) ]
]

-- Rounds of drops while there are too many transactions and the last offender's list is longer
-- than the threshold.
unfoldable pub drop_until : ℕ → ℕ → TxPool → ℕ → List ℕ → Option (TxPool × ℕ)
unfolding last_len drop_each
drop_until zero threshold s pending offenders = some (s, pending)
drop_until (suc fuel) threshold s pending offenders =
    let next : Option (TxPool × ℕ) = elim (drop_each s pending offenders) [
      | none ↦ none
      | some (u, left) ↦ drop_until fuel threshold u left offenders
    ] in
    elim (last_len s offenders) [
      | none ↦ none
      | some len ↦
          if ltb s.global_slots pending && ltb threshold len then next else some (s, pending)
    ]

unfoldable pub drop_loop : ℕ → TxPool → ℕ → List ℕ → Option (TxPool × ℕ)
unfolding last_len drop_until
drop_loop threshold s pending offenders = elim (last_len s offenders) [
  | none ↦ none
  | some len ↦ drop_until (suc len) threshold s pending offenders
]

-- The lists of the offenders that came before are cut to the length of the new one's.
unfoldable pub equalize : TxPool → ℕ → List ℕ → ℕ → Option (TxPool × ℕ)
unfolding last_len drop_loop
equalize s pending [] offender = some (s, pending)
equalize s pending (first ∷ others) offender = elim (last_len s (offender ∷ [])) [
  | none ↦ none
  | some threshold ↦ drop_loop threshold s pending (first ∷ others)
]

module _ {Q : Type 0} (prque : Prque Q) where
  unfoldable pub push_spammers : TxPool → Dict TxList → Q → Q
  unfolding TxList.length Lookup.contains
  push_spammers s [] spammers = spammers
  push_spammers s ((addr, list) ∷ rest) spammers = push_spammers s rest (
      if not (Lookup.contains s.locals addr) && ltb s.account_slots (TxList.length list)
      then prque.push spammers addr (TxList.length list)
      else spammers)

  -- The loop over the spammers, of which there are at most as many as rounds.
  unfoldable pub penalize : ℕ → TxPool → ℕ → List ℕ → Q → Option (TxPool × ℕ × List ℕ)
  unfolding equalize
  penalize zero s pending offenders spammers = some (s, pending, offenders)
  penalize (suc rounds) s pending offenders spammers =
      let next : Option (TxPool × ℕ × List ℕ) = elim (prque.pop spammers) [
        | none ↦ some (s, pending, offenders)
        | some (offender, rest) ↦ elim (equalize s pending offenders offender) [
          | none ↦ none
          | some (u, left) ↦ penalize rounds u left (offenders ++ offender ∷ []) rest
        ]
      ] in
      if ltb s.global_slots pending then next else some (s, pending, offenders)

  unfoldable pub truncate_pending : TxPool → Option TxPool
  unfolding total_len push_spammers penalize drop_loop
  truncate_pending s =
      let pending = total_len s.pending in
      let cut : Option TxPool =
        elim (penalize (length s.pending) s pending [] (push_spammers s s.pending prque.fresh)) [
          | none ↦ none
          | some (u, left, []) ↦ some u
          | some (u, left, first ∷ others) ↦
              let dropped = drop_loop u.account_slots u left (first ∷ others) in
              if ltb u.global_slots left
              then elim dropped [ none ↦ none | some (v, n) ↦ some v ]
              else some u
        ] in
      if leb pending s.global_slots then some s else cut

-- addressesByHeartbeat, the last heartbeat first. sort.Sort leaves the order of equals open.
pub insert_beat : (ℕ → ℕ) → ℕ → List ℕ → List ℕ
insert_beat beat a [] = a ∷ []
insert_beat beat a (x ∷ xs) =
    if ltb (beat a) (beat x) then x ∷ insert_beat beat a xs else a ∷ x ∷ xs

unfoldable pub by_heartbeat : (ℕ → ℕ) → AccountSet → Dict TxList → List ℕ
unfolding insert_beat Lookup.contains
by_heartbeat beat locals [] = []
by_heartbeat beat locals ((addr, list) ∷ rest) =
    let sorted = by_heartbeat beat locals rest in
    if Lookup.contains locals addr then sorted else insert_beat beat addr sorted

-- The heartbeat of an account; Go reads the zero time where there is none.
abbrev pub beat_of : TxPool → ℕ → ℕ
beat_of s addr = elim (get? addr s.beats) [ none ↦ 0 | some time ↦ time ]

unfoldable pub back_first : List Transaction → List Transaction
back_first [] = []
back_first (tx ∷ txs) = back_first txs ++ tx ∷ []

module _ (sender : Transaction → Option ℕ) where
  unfoldable pub remove_each : ℕ → TxPool → List Transaction → Option TxPool
  unfolding remove_tx
  remove_each now s [] = some s
  remove_each now s (tx ∷ txs) = elim (remove_tx sender now s tx.hash true) [
    | none ↦ none
    | some u ↦ remove_each now u txs
  ]

  -- The loop of truncateQueue: `drop` transactions are still to go.
  unfoldable pub drop_queued : ℕ → TxPool → List ℕ → ℕ → Option TxPool
  unfolding TxList.flatten TxList.length remove_each back_first
  drop_queued now s [] drop = some s
  drop_queued now s (addr ∷ addrs) drop = elim (get? addr s.queue) [
    | none ↦ if drop == 0 then some s else none
    | some list ↦
        let (flat, txs) = TxList.flatten list in
        let read = record s { queue = put addr flat s.queue } in
        let size = TxList.length list in
        let all_of_it : Option TxPool = elim (remove_each now read txs) [
          | none ↦ none
          | some u ↦ drop_queued now u addrs (drop - size)
        ] in
        if drop == 0
        then some s
        else if leb size drop
        then all_of_it
        else remove_each now read (take drop (back_first txs))
  ]

  unfoldable pub truncate_queue : ℕ → TxPool → Option TxPool
  unfolding total_len by_heartbeat drop_queued
  truncate_queue now s =
      let queued = total_len s.queue in
      if leb queued s.global_queue
      then some s
      else drop_queued now s (by_heartbeat (beat_of s) s.locals s.queue) (queued - s.global_queue)
