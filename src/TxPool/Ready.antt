-- ===== src/TxPool/Ready.antt =====
-- Ready of txSortedMap: the run of consecutive nonces from the lowest one on.
use benzene.Prelude.{
  ℕ, zero, suc, ◌+◌, ◌%◌, ◌^◌, ◌≤◌, ◌<◌, ◌≡◌, refl, sym, ap, subst, ◌∙◌, ◌⊎◌, inl, inr, true, false,
  none, some, List, [], ◌∷◌, ◌++◌, arith, Option-cases, Bool-cases, Dict, get?, has, has-get?,
  remove, length, get_elem?, ltb, ◌==◌,
}
use benzene.Prelude.Arrays.{count, get_elem?_bound}
use benzene.GoHeap.Ops.{Popped, pop-Popped}
use benzene.TxPool.Transaction.{Transaction}
use benzene.TxPool.SortedMap.{TxSortedMap, nonce_less, ready_loop, ready}
use benzene.TxPool.Index.{IsIndexed, nonce_less-IsOrder, has-remove}
use benzene.TxPool.Forward.{of, low_root, Popped-IsIndexed, listed_get}

-- The transactions of a run of nonces from `next` on, which ends where a nonce is missing, and the
-- map without them.
abbrev pub IsRun : ℕ → Dict Transaction → List Transaction → Dict Transaction → Type 0
IsRun next items [] items' = (get? next items ≡ none) × (items' ≡ items)
IsRun next items (tx ∷ txs) items' =
    (get? next items ≡ some tx) × IsRun (suc next) (remove next items) txs items'

-- A result of the loop that goes on from `before`.
abbrev IsReady :
    ℕ → Dict Transaction → List Transaction → Dict Transaction × List ℕ × List Transaction → Type 0
IsReady next items before (items', index, txs) =
    (run : List Transaction) × (txs ≡ before ++ run)
    × IsRun next items run items'
    × IsIndexed (of items' index)

append-nil : (xs : List Transaction) → xs ≡ xs ++ []
append-nil [] = refl
append-nil (x ∷ xs) = let e = append-nil xs in rw (← e) refl

append_assoc :
    (xs : List Transaction) (y : Transaction) (zs : List Transaction)
    → (xs ++ y ∷ []) ++ zs ≡ xs ++ y ∷ zs
append_assoc [] y zs = refl
append_assoc (x ∷ xs) y zs = let e = append_assoc xs y zs in rw e refl

ended :
    (next : ℕ) (items : Dict Transaction) (index : List ℕ) (before : List Transaction)
    → IsIndexed (of items index)
    → count (λ x. x == next) index ≡ 0
    → IsReady next items before (items, index, before)
ended next items index before h none_there =
    let gone : has next items ≡ false = ground (arith, none_there, h.listed next) in
    ([], append-nil before, (has-get? next items gone, refl), h)

empty_count : (k : ℕ) (xs : List ℕ) → get_elem? xs 0 ≡ none → count (λ x. x == k) xs ≡ 0
empty_count k [] e = refl
empty_count k (x ∷ xs) e = cc

root_count :
    (first : ℕ) (xs : List ℕ) → get_elem? xs 0 ≡ some first → 0 < count (λ x. x == first) xs
root_count first [] e = absurd (cc)
root_count first (x ∷ xs) e = let same : x ≡ first = cc in ground (arith, same)

-- Where the first nonce of the heap is another one, the next nonce is missing.
gap_count :
    (next first : ℕ) (items : Dict Transaction) (index : List ℕ)
    → IsIndexed (of items index)
    → get_elem? index 0 ≡ some first
    → (first == next) ≡ false
    → ((k : ℕ) → k < next → count (λ x. x == k) index ≡ 0)
    → count (λ x. x == next) index ≡ 0
gap_count next first items index h e gap low = elim (Bool-cases (ltb first (suc next))) [
  | inr high ↦ low_root (suc next) first next items index h e high (omega arith)
  | inl below ↦
      let there = root_count first index e in
      let nowhere = low first (ground (arith, below, gap)) in absurd (omega (arith, there, nowhere))
]

one_more :
    (next : ℕ) (items : Dict Transaction) (before : List Transaction) (tx : Transaction)
    (r : Dict Transaction × List ℕ × List Transaction)
    → get? next items ≡ some tx
    → IsReady (suc next) (remove next items) (before ++ tx ∷ []) r
    → IsReady next items before r
one_more next items before tx (items', index, txs) there (run, e, is_run, h) =
    (tx ∷ run, e ∙ append_assoc before tx run, (there, is_run), h)

lower :
    (next k x : ℕ) (items : Dict Transaction) (index rest : List ℕ)
    → IsIndexed (of (remove next items) rest)
    → Popped nonce_less nonce_less-IsOrder index x rest
    → ((j : ℕ) → j < next → count (λ y. y == j) index ≡ 0)
    → k < suc next
    → count (λ y. y == k) rest ≡ 0
lower next k x items index rest h q low b = elim (Bool-cases (next == k)) [
  | inl same ↦ ground (arith, h.listed k, has-remove next k items, same)
  | inr other ↦
      let before = low k (ground (arith, b, other)) in
      let often = q.often (λ y. y == k) in omega (arith, before, often)
]

ready_loop-IsReady :
    (fuel next : ℕ) (items : Dict Transaction) (index : List ℕ) (before : List Transaction)
    → IsIndexed (of items index)
    → length index ≤ fuel
    → next + fuel < 2 ^ 64
    → ((k : ℕ) → k < next → count (λ x. x == k) index ≡ 0)
    → IsReady next items before (ready_loop fuel next items index before)
unfolding ready_loop
ready_loop-IsReady zero next items [] before h l w low = ended next items [] before h refl
ready_loop-IsReady zero next items (x ∷ xs) before h l w low = absurd (omega (arith, l))
ready_loop-IsReady (suc fuel) next items index before h l w low =
    elim (Option-cases (get_elem? index 0)) [
      | inl e ↦ rw (e, ready_loop) (ended next items index before h (empty_count next index e))
      | inr (first, e) ↦ elim (Bool-cases (first == next)) [
        | inr gap ↦
            rw (e, gap, ready_loop)
              (ended next items index before h (gap_count next first items index h e gap low))
        | inl here ↦
            let (x, rest, took, q) =
              pop-Popped nonce_less nonce_less-IsOrder index h.heap
                (get_elem?_bound index 0 first e) in
            let same : x ≡ next = some_inj x next (sym q.first ∙ (e ∙ some_eq first next here)) in
            let (tx, there) = listed_get items index x h (ground (arith, q.often (λ y. y == x))) in
            let there' = sym (ap (λ z. get? z items) same) ∙ there in
            let wrap : (next + 1) % 2 ^ 64 ≡ suc next = omega (arith, w) in
            let h' =
              subst (λ z. IsIndexed (of (remove z items) rest)) same
                (Popped-IsIndexed items index rest x h q) in
            let long = q.long in
            rw (e, here, took, there', wrap, ready_loop)
              (one_more next items before tx _ there' (
                ready_loop-IsReady fuel (suc next) (remove next items) rest (before ++ tx ∷ []) h'
                  (omega (arith, long, l)) (omega (arith, w))
                  (λ k b. lower next k x items index rest h' q low b)))
      ]
    ]
  where
    some_inj : (x y : ℕ) → some x ≡ some y → x ≡ y
    some_inj x y e = cc

    some_eq : (x y : ℕ) → (x == y) ≡ true → some x ≡ some y
    some_eq x y e = let q : x ≡ y = ground (arith, e) in cc

-- What Ready does to a map in order: nothing where its lowest nonce is above the start, and
-- otherwise it takes out the run of nonces from the lowest one on.
abbrev pub ReadyOf : TxSortedMap → ℕ → TxSortedMap × List Transaction → Type 0
ReadyOf m start (m', txs) =
    ((m' ≡ m) × (txs ≡ []) × ((k : ℕ) → k ≤ start → get? k m.items ≡ none))
    ⊎ ((first : ℕ) × (first ≤ start)
        × ((k : ℕ) → k < first → get? k m.items ≡ none)
        × IsRun first m.items txs m'.items
        × IsIndexed m')

uncached : (m : TxSortedMap) → IsIndexed m → IsIndexed (of m.items m.index)
uncached m h = record { keyed = h.keyed; nonces = h.nonces; heap = h.heap; listed = h.listed }

low_get :
    (m : TxSortedMap) (first k : ℕ)
    → IsIndexed m
    → get_elem? m.index 0 ≡ some first
    → k < first
    → get? k m.items ≡ none
low_get m first k h e b =
    let absent = low_root first first k m.items m.index (uncached m h) e (ground arith) b in
    let gone : has k m.items ≡ false = ground (arith, absent, h.listed k) in has-get? k m.items gone

empty_get :
    (m : TxSortedMap) (k : ℕ) → IsIndexed m → get_elem? m.index 0 ≡ none → get? k m.items ≡ none
empty_get m k h e =
    let absent = empty_count k m.index e in
    let gone : has k m.items ≡ false = ground (arith, absent, h.listed k) in has-get? k m.items gone

-- Ready of a map in order, whose nonces do not wrap around, returns nothing where the lowest nonce
-- is above the start. Otherwise it returns exactly the run of consecutive nonces from the lowest
-- one on, up to the first that is missing, takes these out, and leaves the map in order.
pub ready-ReadyOf :
    (m : TxSortedMap) (start : ℕ)
    → IsIndexed m
    → ((k : ℕ) → 0 < count (λ x. x == k) m.index → k + length m.index < 2 ^ 64)
    → ReadyOf m start (ready m start)
unfolding ready
ready-ReadyOf m start h w = elim (Option-cases (get_elem? m.index 0)) [
  | inl e ↦ rw (e, ready) (inl (refl, refl, λ k b. empty_get m k h e))
  | inr (first, e) ↦ elim (Bool-cases (ltb start first)) [
    | inl early ↦
        rw (e, early, ready)
          (inl (refl, refl, λ k b. low_get m first k h e (ground (arith, early, b))))
    | inr due ↦
        let (run, same, is_run, left) =
          ready_loop-IsReady (length m.index) first m.items m.index [] (uncached m h) (omega arith)
            (w first (root_count first m.index e))
            (λ k b. low_root first first k m.items m.index (uncached m h) e (ground arith) b) in
        rw (e, due, ready)
          (inr (
            first,
            ground (arith, due),
            λ k b. low_get m first k h e b,
            subst
                (λ z.
                  IsRun first m.items z (ready_loop (length m.index) first m.items m.index []).0)
                (sym same) is_run,
            record {
              keyed = left.keyed;
              nonces = left.nonces;
              heap = left.heap;
              listed = left.listed;
            },
          ))
  ]
]
