-- ===== src/TxPool/PricedList.antt =====
-- txPricedList of core/tx_list.go: a heap of prices over the pool's lookup. Stale entries, whose
-- transactions have left the lookup, are counted and cleaned up late.
use benzene.Prelude.{
  ℕ, zero, suc, ◌+◌, ◌-◌, ◌/◌, Bool, true, false, Option, none, some, List, [], ◌∷◌, ◌++◌, values,
  length, get_elem?, ltb, leb, ◌==◌, if◌then◌else◌,
}
use Prim.Native.Nat.{Ordering}
use benzene.Prelude.Int.{ℤ, pos, negsuc, pos_part, neg_part, ◌+ℤ◌}
use benzene.GoHeap
use benzene.TxPool.Transaction.{Transaction, gas_price_cmp, gas_price_int_cmp}
use benzene.TxPool.Lookup
use benzene.TxPool.Lookup.{TxLookup, AccountSet, num_slots}

-- priceHeap.Less: the cheaper one first, and of two prices alike the higher nonce.
abbrev pub price_less : Transaction → Transaction → Bool
price_less x y = elim (gas_price_cmp x y) [
  | Ordering.lt ↦ true
  | Ordering.gt ↦ false
  | Ordering.eq ↦ ltb y.nonce x.nonce
]

-- The lookup is shared with the pool: it is an argument of the methods.
pub record TxPricedList : Type 0 where
  pub items : List Transaction
  pub stales : ℤ

unfoldable pub new_tx_priced_list : TxPricedList
new_tx_priced_list = record { items = []; stales = pos 0 }

unfoldable pub insert : TxPricedList → Transaction → TxPricedList
insert l tx = record l { items = GoHeap.push price_less l.items tx }

abbrev pub le_ℤ : ℤ → ℕ → Bool
le_ℤ a n = leb (pos_part a) (n + neg_part a)

unfoldable pub removed : TxLookup → TxPricedList → ℕ → TxPricedList
unfolding ◌+ℤ◌
removed all l count =
    let stales = l.stales +ℤ pos count in
    if le_ℤ stales (length l.items / 4)
    then record l { stales = stales }
    else record { items = GoHeap.init price_less (values all.all); stales = pos 0 }

-- l.stales--
abbrev pub fewer_stales : TxPricedList → TxPricedList
fewer_stales l = record l { stales = l.stales +ℤ negsuc 0 }

unfoldable pub push_all : List Transaction → List Transaction → List Transaction
push_all [] items = items
push_all (tx ∷ txs) items = push_all txs (GoHeap.push price_less items tx)

abbrev pub is_stale : TxLookup → Transaction → Bool
is_stale all tx = elim (Lookup.get all tx.hash) [ none ↦ true | some x ↦ false ]

abbrev pub at_least : Transaction → ℕ → Bool
at_least tx threshold = elim (gas_price_int_cmp tx threshold) [ Ordering.lt ↦ false | _ ↦ true ]

module _ (sender : Transaction → Option ℕ) where
  -- The loop of Cap: what is left of the list, the transactions to drop and those to save.
  unfoldable pub cap_loop :
      ℕ
      → TxLookup
      → ℕ
      → AccountSet
      → TxPricedList
      → List Transaction
      → List Transaction
      → TxPricedList × List Transaction × List Transaction
  cap_loop zero all threshold local l drop save = (l, drop, save)
  cap_loop (suc fuel) all threshold local l drop save = elim (GoHeap.pop price_less l.items) [
    | none ↦ (l, drop, save)
    | some (tx, rest) ↦
        let l' = record l { items = rest } in
        let stale = cap_loop fuel all threshold local (fewer_stales l') drop save in
        let saved = cap_loop fuel all threshold local l' drop (save ++ tx ∷ []) in
        let dropped = cap_loop fuel all threshold local l' (drop ++ tx ∷ []) save in
        if is_stale all tx
        then stale
        else if at_least tx threshold
        then (l', drop, save ++ tx ∷ [])
        else if Lookup.contains_tx sender local tx
        then saved
        else dropped
  ]

  unfoldable pub cap : TxLookup → TxPricedList → ℕ → AccountSet → TxPricedList × List Transaction
  unfolding cap_loop push_all Lookup.contains_tx Lookup.get
  cap all l threshold local =
      let (l', drop, save) = cap_loop (length l.items) all threshold local l [] [] in
      (record l' { items = push_all save l'.items }, drop)

  -- The loop of Underpriced, which clears stale entries off the front.
  unfoldable pub clear_stales : ℕ → TxLookup → TxPricedList → TxPricedList
  clear_stales zero all l = l
  clear_stales (suc fuel) all l =
      let next : TxPricedList = elim (GoHeap.pop price_less l.items) [
        | none ↦ l
        | some (tx, rest) ↦ clear_stales fuel all (record (fewer_stales l) { items = rest })
      ] in
      elim (get_elem? l.items 0) [ none ↦ l | some head ↦ if is_stale all head then next else l ]

  unfoldable pub underpriced :
      TxLookup → TxPricedList → Transaction → AccountSet → TxPricedList × Bool
  unfolding clear_stales Lookup.contains_tx Lookup.get
  underpriced all l tx local =
      let l' = clear_stales (length l.items) all l in
      if Lookup.contains_tx sender local tx then (l, false) else elim (get_elem? l'.items 0) [
        | none ↦ (l', false)
        | some cheapest ↦ (l', elim (gas_price_cmp cheapest tx) [ Ordering.lt ↦ false | _ ↦ true ])
      ]

  -- How many transactions could be dropped, counted up to `slots` only.
  unfoldable pub count_discardable : AccountSet → ℤ → ℕ → List Transaction → ℕ
  unfolding Lookup.contains_tx
  count_discardable local slots found [] = found
  count_discardable local slots found (tx ∷ txs) =
      let found' = if Lookup.contains_tx sender local tx then found else suc found in
      let rest = count_discardable local slots found' txs in
      if le_ℤ slots found' then found' else rest

  unfoldable pub limit_slots : AccountSet → ℤ → List Transaction → ℤ
  unfolding count_discardable Lookup.is_empty
  limit_slots local slots items =
      let discardable = count_discardable local slots 0 items in
      if Lookup.is_empty local
      then slots
      else if le_ℤ slots discardable
      then slots
      else pos discardable

  unfoldable pub discard_loop :
      ℕ
      → TxLookup
      → ℕ
      → AccountSet
      → TxPricedList
      → List Transaction
      → List Transaction
      → TxPricedList × List Transaction × List Transaction
  discard_loop zero all slots local l drop save = (l, drop, save)
  discard_loop (suc fuel) all slots local l drop save = elim (GoHeap.pop price_less l.items) [
    | none ↦ (l, drop, save)
    | some (tx, rest) ↦
        let l' = record l { items = rest } in
        let stale = discard_loop fuel all slots local (fewer_stales l') drop save in
        let saved = discard_loop fuel all slots local l' drop (save ++ tx ∷ []) in
        let dropped =
          discard_loop fuel all (slots - num_slots tx) local l' (drop ++ tx ∷ []) save in
        if slots == 0
        then (l, drop, save)
        else if is_stale all tx
        then stale
        else if Lookup.contains_tx sender local tx
        then saved
        else dropped
  ]

  -- `none` is the panic of `make` on a negative capacity: of `drop` where the slots are negative,
  -- of `save` where they are more than the entries.
  unfoldable pub discard :
      TxLookup → TxPricedList → ℤ → AccountSet → Option (TxPricedList × List Transaction)
  unfolding limit_slots discard_loop push_all
  discard all l slots local = elim (limit_slots local slots l.items) [
    | negsuc n ↦ none
    | pos n ↦
        let (l', drop, save) = discard_loop (length l.items) all n local l [] [] in
        if n == 0
        then some (l, [])
        else if ltb (length l.items) n
        then none
        else some (record l' { items = push_all save l'.items }, drop)
  ]
