-- ===== src/TxPool/Filter.antt =====
-- Filter and reheap of txSortedMap keep the heap and the map together.
use benzene.Prelude.{
  ℕ, ◌≡◌, ◌≢◌, refl, sym, ap, ◌∙◌, inl, inr, Bool, true, false, not, none, some, List, [], ◌∷◌,
  arith, Bool-cases, Dict, get?, has, has-none, remove, keep, keys, values, select, IsMap, IsKeyed,
  keep-IsMap, keep-IsKeyed, In, In-select, In-values-get?, ◌==◌,
}
use benzene.Prelude.Arrays.{count, unit_if}
use benzene.GoHeap.Down.{init-IsHeap}
use benzene.TxPool.Transaction.{Transaction}
use benzene.TxPool.SortedMap
use benzene.TxPool.SortedMap.{TxSortedMap, nonce_less}
use benzene.TxPool.Index.{IsIndexed, nonce_of, nonce_less-IsOrder}
use benzene.TxPool.Caps.{AreUnder}

count-keys :
    (k : ℕ) (m : Dict Transaction) → IsMap m → count (λ x. x == k) (keys m) ≡ unit_if (has k m)
count-keys k [] u = refl
count-keys k ((j, x) ∷ m) u =
    let rest = count-keys k m u.1 in
    let gone = has-none j m u.0 in
    elim (Bool-cases (j == k)) [
      | inl here ↦
          let same : j ≡ k = ground (arith, here) in
          let gone' : has k m ≡ false = sym (ap (λ z. has z m) same) ∙ gone in
          ground (arith, here, rest, gone')
      | inr there ↦ ground (arith, there, rest)
    ]

-- reheap makes the heap anew from the map.
reheap-IsIndexed :
    (m : TxSortedMap) → IsMap m.items → IsKeyed nonce_of m.items → IsIndexed (SortedMap.reheap m)
unfolding SortedMap.reheap
reheap-IsIndexed m u h =
    let (heap, same) = init-IsHeap nonce_less nonce_less-IsOrder (keys m.items) in
    record {
      keyed = u;
      nonces = h;
      heap = heap;
      listed = λ k. same.often (λ x. x == k) ∙ count-keys k m.items u;
    }

keep_all :
    (f : Transaction → Bool) (m : Dict Transaction)
    → select f (values m) ≡ []
    → keep (λ n tx. not (f tx)) m ≡ m
keep_all f [] e = refl
keep_all f ((j, x) ∷ m) e = elim (Bool-cases (f x)) [
  | inl hit ↦ absurd (clash (select f (values m)) (ground (arith, e, hit)))
  | inr miss ↦
      let rest : select f (values m) ≡ [] = ground (arith, e, miss) in
      rw (miss, keep_all f m rest) refl
]
  where
    clash : (xs : List Transaction) → x ∷ xs ≡ [] → ⊥
    clash xs e = cc

nothing_removed : (xs : List Transaction) → SortedMap.is_empty xs ≡ true → xs ≡ []
nothing_removed [] e = refl
nothing_removed (x ∷ xs) e = absurd (cc)

pub filter-IsIndexed :
    (m : TxSortedMap) (f : Transaction → Bool) → IsIndexed m → IsIndexed (SortedMap.filter m f).0
unfolding SortedMap.filter SortedMap.filter_items
filter-IsIndexed m f h = elim (Bool-cases (SortedMap.is_empty (select f (values m.items)))) [
  | inr some_removed ↦ rw some_removed (
      reheap-IsIndexed (SortedMap.filter_items m f).0
        (keep-IsMap (λ n tx. not (f tx)) m.items h.keyed)
        (keep-IsKeyed nonce_of (λ n tx. not (f tx)) m.items h.keyed h.nonces))
  | inl none_removed ↦
      let same = keep_all f m.items (nothing_removed _ none_removed) in
      rw (none_removed, same)
        (record { keyed = h.keyed; nonces = h.nonces; heap = h.heap; listed = h.listed })
]

pub AreUnder-remove :
    (c g k : ℕ) (m : Dict Transaction) → AreUnder c g m → AreUnder c g (remove k m)
AreUnder-remove c g k [] u = tt
AreUnder-remove c g k ((j, x) ∷ m) (a, b, u) = elim (Bool-cases (j == k)) [
  | inl here ↦ rw here (AreUnder-remove c g k m u)
  | inr there ↦ rw there (a, b, AreUnder-remove c g k m u)
]

pub AreUnder-delete :
    (c g k : ℕ) (m : TxSortedMap)
    → AreUnder c g m.items
    → AreUnder c g (SortedMap.delete m k).0.items
unfolding SortedMap.delete
AreUnder-delete c g k m u = elim (Bool-cases (has k m.items)) [
  | inl here ↦ rw here (AreUnder-remove c g k m.items u)
  | inr absent ↦ rw absent u
]

-- Transactions of different nonces.
abbrev pub AreApart : List Transaction → Type 0
AreApart [] = Unit {0}
AreApart (x ∷ xs) = ((y : Transaction) → In y xs → y.nonce ≢ x.nonce) × AreApart xs

head_apart :
    (j k : ℕ) (v : Transaction) (m : Dict Transaction) → get? j m ≡ none → get? k m ≡ some v → j ≢ k
head_apart j k v m gone e q =
    let there : get? j m ≡ some v = ap (λ z. get? z m) q ∙ e in absurd (cc)

pub select-AreApart :
    (f : Transaction → Bool) (m : Dict Transaction)
    → IsMap m
    → IsKeyed nonce_of m
    → AreApart (select f (values m))
select-AreApart f [] u h = tt
select-AreApart f ((j, x) ∷ m) u h =
    let head : x.nonce ≡ j = h j x (ground arith) in
    let tail : IsKeyed nonce_of m =
      λ k v e. let other = head_apart j k v m u.0 e in h k v (ground (arith, e, other)) in
    let rest = select-AreApart f m u.1 tail in
    elim (Bool-cases (f x)) [
      | inr miss ↦ rw miss rest
      | inl hit ↦ rw hit (
        (λ y i q.
            let (k, e) = In-values-get? y m u.1 (In-select f y (values m) i).0 in
            head_apart j k y m u.0 e (sym head ∙ (sym q ∙ tail k y e))),
        rest,
      )
    ]
