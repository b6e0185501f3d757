-- ===== src/TxPool/SortedMap.antt =====
-- txSortedMap of core/tx_list.go: a map from nonces to transactions, a heap of its nonces, and a
-- cache of its transactions in order. Where the heap names a nonce that the map lacks, Go appends
-- a nil transaction; here nothing is appended.
use benzene.Prelude.{
  ℕ, zero, suc, ◌+◌, ◌-◌, ◌%◌, ◌^◌, Bool, true, false, Option, none, some, List, [], ◌∷◌, ◌++◌,
  Dict, get?, has, put, remove, keep, keys, values, length, select, get_elem?, ltb, leb, ◌==◌, not,
  if◌then◌else◌,
}
use benzene.Prelude.Arrays.{take, drop}
use benzene.GoHeap
use benzene.TxPool.Transaction.{Transaction, sort_by_nonce}

pub record TxSortedMap : Type 0 where
  pub items : Dict Transaction
  pub index : List ℕ
  pub cache : Option (List Transaction)

unfoldable pub new_tx_sorted_map : TxSortedMap
new_tx_sorted_map = record { items = []; index = []; cache = none }

-- nonceHeap.Less
abbrev pub nonce_less : ℕ → ℕ → Bool
nonce_less a b = ltb a b

unfoldable pub get : TxSortedMap → ℕ → Option Transaction
get m nonce = get? nonce m.items

unfoldable pub insert : TxSortedMap → Transaction → TxSortedMap
unfolding get
insert m tx = record m {
  items = put tx.nonce tx m.items;
  index = elim (get m tx.nonce) [
    | none ↦ GoHeap.push nonce_less m.index tx.nonce
    | some old ↦ m.index
  ];
  cache = none;
}

abbrev pub append_found : List Transaction → Option Transaction → List Transaction
append_found txs none = txs
append_found txs (some tx) = txs ++ tx ∷ []

-- The loop of Forward; each round takes one nonce off the heap.
unfoldable pub forward_loop :
    ℕ
    → ℕ
    → Dict Transaction
    → List ℕ
    → List Transaction
    → Dict Transaction × List ℕ × List Transaction
forward_loop zero threshold items index removed = (items, index, removed)
forward_loop (suc fuel) threshold items index removed =
    let next : Dict Transaction × List ℕ × List Transaction = elim (GoHeap.pop nonce_less index) [
      | none ↦ (items, index, removed)
      | some (nonce, rest) ↦
          forward_loop fuel threshold (remove nonce items) rest
            (append_found removed (get? nonce items))
    ] in
    elim (get_elem? index 0) [
      | none ↦ (items, index, removed)
      | some first ↦ if ltb first threshold then next else (items, index, removed)
    ]

unfoldable pub forward : TxSortedMap → ℕ → TxSortedMap × List Transaction
unfolding forward_loop
forward m threshold =
    let (items, index, removed) = forward_loop (length m.index) threshold m.items m.index [] in
    (
      record {
        items = items;
        index = index;
        cache = elim m.cache [ none ↦ none | some c ↦ some (drop (length removed) c) ];
      },
      removed,
    )

unfoldable pub reheap : TxSortedMap → TxSortedMap
reheap m = record m { index = GoHeap.init nonce_less (keys m.items); cache = none }

abbrev pub is_empty : List Transaction → Bool
is_empty [] = true
is_empty (x ∷ xs) = false

-- filter, which leaves the heap alone.
unfoldable pub filter_items : TxSortedMap → (Transaction → Bool) → TxSortedMap × List Transaction
filter_items m f =
    let removed = select f (values m.items) in
    (
      record m {
        items = keep (λ nonce tx. not (f tx)) m.items;
        cache = if is_empty removed then m.cache else none;
      },
      removed,
    )

-- Filter
unfoldable pub filter : TxSortedMap → (Transaction → Bool) → TxSortedMap × List Transaction
unfolding filter_items reheap
filter m f =
    let (m', removed) = filter_items m f in (if is_empty removed then m' else reheap m', removed)

-- sort.Sort of the nonce heap.
pub insert_nonce : ℕ → List ℕ → List ℕ
insert_nonce k [] = k ∷ []
insert_nonce k (x ∷ xs) = if ltb x k then x ∷ insert_nonce k xs else k ∷ x ∷ xs

unfoldable pub sort_nonces : List ℕ → List ℕ
unfolding insert_nonce
sort_nonces [] = []
sort_nonces (x ∷ xs) = insert_nonce x (sort_nonces xs)

-- The loop of Cap, from the highest nonce down: `size` counts down to the threshold, `rounds` of
-- them.
unfoldable pub cap_loop :
    ℕ → ℕ → List ℕ → Dict Transaction → List Transaction → Dict Transaction × List Transaction
cap_loop zero size index items drops = (items, drops)
cap_loop (suc rounds) size index items drops = elim (get_elem? index (size - 1)) [
  | none ↦ (items, drops)
  | some nonce ↦
      cap_loop rounds (size - 1) index (remove nonce items) (append_found drops (get? nonce items))
]

unfoldable pub cap : TxSortedMap → ℕ → TxSortedMap × List Transaction
unfolding cap_loop sort_nonces
cap m threshold =
    let size = length m.items in
    let index = sort_nonces m.index in
    let (items, drops) = cap_loop (size - threshold) size index m.items [] in
    if leb size threshold then (m, []) else (
      record {
        items = items;
        index = GoHeap.init nonce_less (take threshold index);
        cache = elim m.cache [ none ↦ none | some c ↦ some (take (length c - length drops) c) ];
      },
      drops,
    )

-- The first index of a nonce in the heap.
unfoldable pub position : ℕ → ℕ → List ℕ → Option ℕ
position nonce i [] = none
position nonce i (x ∷ xs) =
    let rest = position nonce (suc i) xs in if x == nonce then some i else rest

-- Remove
unfoldable pub delete : TxSortedMap → ℕ → TxSortedMap × Bool
unfolding position
delete m nonce =
    if has nonce m.items
    then (
      record {
        items = remove nonce m.items;
        index = elim (position nonce 0 m.index) [
          | none ↦ m.index
          | some i ↦ GoHeap.remove_at nonce_less m.index i
        ];
        cache = none;
      },
      true,
    )
    else (m, false)

-- The loop of Ready; `next` is a uint64.
unfoldable pub ready_loop :
    ℕ
    → ℕ
    → Dict Transaction
    → List ℕ
    → List Transaction
    → Dict Transaction × List ℕ × List Transaction
ready_loop zero next items index ready = (items, index, ready)
ready_loop (suc fuel) next items index ready =
    let more : Dict Transaction × List ℕ × List Transaction = elim (GoHeap.pop nonce_less index) [
      | none ↦ (items, index, ready)
      | some (nonce, rest) ↦
          ready_loop fuel ((next + 1) % 2 ^ 64) (remove next items) rest
            (append_found ready (get? next items))
    ] in
    elim (get_elem? index 0) [
      | none ↦ (items, index, ready)
      | some first ↦ if first == next then more else (items, index, ready)
    ]

unfoldable pub ready : TxSortedMap → ℕ → TxSortedMap × List Transaction
unfolding ready_loop
ready m start = elim (get_elem? m.index 0) [
  | none ↦ (m, [])
  | some first ↦
      let (items, index, txs) = ready_loop (length m.index) first m.items m.index [] in
      if ltb start first
      then (m, [])
      else (record { items = items; index = index; cache = none }, txs)
]

unfoldable pub len : TxSortedMap → ℕ
len m = length m.items

-- flatten fills the cache; Flatten returns a copy of it.
unfoldable pub flatten : TxSortedMap → TxSortedMap × List Transaction
flatten m = elim m.cache [
  | some c ↦ (m, c)
  | none ↦ let c = sort_by_nonce (values m.items) in (record m { cache = some c }, c)
]

-- LastElement; `none` is the panic on an empty map.
unfoldable pub last_element : TxSortedMap → TxSortedMap × Option Transaction
unfolding flatten
last_element m = let (m', c) = flatten m in (m', get_elem? c (length c - 1))
