-- ===== src/TxPool/Index.antt =====
-- txSortedMap: its heap holds the nonces of its map.
use benzene.Prelude.{
  ℕ, suc, ◌+◌, ◌<◌, ◌≡◌, refl, true, false, none, some, List, [], ◌∷◌, arith, Option-cases,
  Bool-cases, Dict, get?, has, put, remove, IsMap, IsKeyed, put-IsMap, put-IsKeyed, remove-IsMap,
  remove-IsKeyed, get?-remove, has-none, get_elem?, ◌==◌, if◌then◌else◌, inl, inr,
}
use benzene.Prelude.Arrays.{count, unit_if, count-append}
use benzene.GoHeap.Order.{IsOrder, IsHeap}
use benzene.GoHeap.Ops.{push-IsHeap, remove_at-IsHeap}
use benzene.TxPool.Transaction.{Transaction}
use benzene.TxPool.SortedMap
use benzene.TxPool.SortedMap.{TxSortedMap, nonce_less, insert, delete, position, reheap}

pub nonce_less-IsOrder : IsOrder nonce_less
nonce_less-IsOrder = record { asym = λ x y e. ground arith; trans = λ x y z e h. ground arith }

abbrev pub nonce_of : Transaction → ℕ
nonce_of tx = tx.nonce

-- The heap holds each nonce of the map once, and no other.
pub record IsIndexed (m : TxSortedMap) : Type 0 where
  pub keyed : IsMap m.items
  pub nonces : IsKeyed nonce_of m.items
  pub heap : IsHeap nonce_less m.index
  pub listed : (k : ℕ) → count (λ x. x == k) m.index ≡ unit_if (has k m.items)

has-put :
    (n k : ℕ) (tx : Transaction) (m : Dict Transaction)
    → has k (put n tx m) ≡ (if n == k then true else has k m)
has-put n k tx [] = refl
has-put n k tx ((j, x) ∷ m) = ground (arith, has-put n k tx m)

pub has-remove :
    (n k : ℕ) (m : Dict Transaction) → has k (remove n m) ≡ (if n == k then false else has k m)
has-remove n k [] = ground arith
has-remove n k ((j, x) ∷ m) = ground (arith, has-remove n k m)

pub absent_get :
    (n k : ℕ) (m : Dict Transaction)
    → has n m ≡ false
    → get? k m ≡ (if n == k then none else get? k m)
absent_get n k [] e = ground arith
absent_get n k ((j, x) ∷ m) e = ground (arith, absent_get n k m)

pub has-some :
    (n : ℕ) (tx : Transaction) (m : Dict Transaction) → get? n m ≡ some tx → has n m ≡ true
has-some n tx [] e = absurd (cc)
has-some n tx ((j, x) ∷ m) e = ground (arith, has-some n tx m)

-- The index of a nonce that the heap holds.
pub position_lem :
    (n i : ℕ) (xs : List ℕ)
    → 0 < count (λ x. x == n) xs
    → (j : ℕ) × (position n i xs ≡ some (i + j)) × (get_elem? xs j ≡ some n)
unfolding position
position_lem n i [] c = absurd (omega (arith, c))
position_lem n i (x ∷ xs) c = elim (Bool-cases (x == n)) [
  | inl here ↦ (0, rw here (ground arith), ground arith)
  | inr there ↦
      let (j, e, at) = position_lem n (suc i) xs (ground arith) in
      (suc j, rw there (ground arith), at)
]

-- Put keeps the heap and the map together.
pub insert-IsIndexed : (m : TxSortedMap) (tx : Transaction) → IsIndexed m → IsIndexed (insert m tx)
unfolding insert SortedMap.get
insert-IsIndexed m tx h = elim (Option-cases (get? tx.nonce m.items)) [
  | inl new ↦
      let (heap, same) = push-IsHeap nonce_less nonce_less-IsOrder m.index tx.nonce h.heap in
      rw (new, insert)
        (record {
          keyed = put-IsMap tx.nonce tx m.items h.keyed;
          nonces = put-IsKeyed nonce_of tx m.items h.nonces;
          heap = heap;
          listed = λ k.
              let often = same.often (λ x. x == k) in
              let both = count-append (λ x. x == k) m.index (tx.nonce ∷ []) in
              let absent = has-none tx.nonce m.items new in
              ground (arith, often, both, h.listed k, has-put tx.nonce k tx m.items);
        })
  | inr (old, there) ↦
      rw (there, insert)
        (record {
          keyed = put-IsMap tx.nonce tx m.items h.keyed;
          nonces = put-IsKeyed nonce_of tx m.items h.nonces;
          heap = h.heap;
          listed = λ k.
              let present = has-some tx.nonce old m.items there in
              ground (arith, h.listed k, has-put tx.nonce k tx m.items);
        })
]

-- Remove takes out a nonce of the map, and its place in the heap, and reports whether it was there.
pub delete-IsIndexed :
    (m : TxSortedMap) (nonce : ℕ)
    → IsIndexed m
    → IsIndexed (delete m nonce).0
      × ((delete m nonce).1 ≡ has nonce m.items)
      × ((k : ℕ) → get? k (delete m nonce).0.items ≡ (if nonce == k then none else get? k m.items))
unfolding delete
delete-IsIndexed m nonce h = elim (Bool-cases (has nonce m.items)) [
  | inr absent ↦ (
    rw (absent, delete) h,
    rw (absent, delete) refl,
    λ k. rw (absent, delete) (absent_get nonce k m.items absent),
  )
  | inl present ↦
      let (i, found, at) = position_lem nonce 0 m.index (ground (arith, h.listed nonce)) in
      let found' : position nonce 0 m.index ≡ some i = ground arith in
      let (heap, long, often) =
        remove_at-IsHeap nonce_less nonce_less-IsOrder m.index i nonce h.heap at in
      (
        rw (present, found', delete)
            (record {
              keyed = remove-IsMap nonce m.items h.keyed;
              nonces = remove-IsKeyed nonce_of nonce m.items h.nonces;
              heap = heap;
              listed =
                  λ k. ground (arith, often (λ x. x == k), h.listed k, has-remove nonce k m.items);
            }),
        rw (present, delete) refl,
        λ k. rw (present, delete) (get?-remove nonce k m.items),
      )
]
