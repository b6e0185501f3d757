-- ===== src/TxPool/Forward.antt =====
-- txSortedMap.Forward: the transactions below a nonce leave the map.
use benzene.Prelude.{
  ℕ, zero, suc, ◌+◌, ◌≤◌, ◌<◌, ◌≡◌, ◌∙◌, refl, sym, Bool, false, none, some, List, [], ◌∷◌, ◌++◌,
  arith, Option-cases, Bool-cases, Dict, get?, has, has-none, remove, values, IsMap, remove-IsMap,
  remove_absent, remove-IsKeyed, get?-remove, length, get_elem?, ltb, ◌==◌, if◌then◌else◌, inl, inr,
  ◌⊎◌,
}
use benzene.Prelude.Arrays.{count, unit_if, count-append, get_elem?_bound}
use benzene.GoHeap.Ops.{Popped, pop-Popped, root_least}
use benzene.TxPool.Transaction.{Transaction}
use benzene.TxPool.SortedMap.{TxSortedMap, nonce_less, forward, forward_loop}
use benzene.TxPool.Index.{
  IsIndexed, nonce_of, nonce_less-IsOrder, has-remove, absent_get, position_lem,
}

abbrev pub of : Dict Transaction → List ℕ → TxSortedMap
of items index = record { items = items; index = index; cache = none }

-- What Forward leaves of the items and returns, where `before` was returned already.
pub record Forwarded (threshold : ℕ) (items : Dict Transaction) (before : List Transaction)
    (items' : Dict Transaction) (index : List ℕ) (removed : List Transaction) : Type 0 where
  pub indexed : IsIndexed (record { items = items'; index = index; cache = none })
  pub entry : (k : ℕ) → get? k items' ≡ (if ltb k threshold then none else get? k items)
  pub often :
      (p : Transaction → Bool)
      → count p removed + count p (values items') ≡ count p before + count p (values items)

count-values-remove :
    (p : Transaction → Bool) (n : ℕ) (tx : Transaction) (m : Dict Transaction)
    → IsMap m
    → get? n m ≡ some tx
    → unit_if (p tx) + count p (values (remove n m)) ≡ count p (values m)
count-values-remove p n tx [] u e = absurd (cc)
count-values-remove p n tx ((j, x) ∷ m) u e =
    let rest = remove_absent n m in ground (arith, count-values-remove p n tx m u.1, u.0, rest)

-- Where no nonce of the heap is below the threshold, none of the map is.
done :
    (threshold : ℕ) (items : Dict Transaction) (index : List ℕ) (removed : List Transaction)
    → IsIndexed (of items index)
    → ((k : ℕ) → k < threshold → count (λ x. x == k) index ≡ 0)
    → Forwarded threshold items removed items index removed
done threshold items index removed h low = record {
  indexed = h;
  entry = λ k. elim (Bool-cases (ltb k threshold)) [
    | inr high ↦ rw high refl
    | inl below ↦
        let gone : has k items ≡ false = ground (arith, low k (ground arith), h.listed k) in
        rw below (ground (arith, absent_get k k items gone))
  ];
  often = λ p. refl;
}

pub low_root :
    (threshold first k : ℕ) (items : Dict Transaction) (index : List ℕ)
    → IsIndexed (of items index)
    → get_elem? index 0 ≡ some first
    → ltb first threshold ≡ false
    → k < threshold
    → count (λ x. x == k) index ≡ 0
low_root threshold first k items index h e high below = elim (ℕ-zero (count (λ x. x == k) index)) [
  | inl none_there ↦ none_there
  | inr some_there ↦
      let (i, found, at) = position_lem k 0 index some_there in
      let r = root_least nonce_less nonce_less-IsOrder index i k first h.heap at e in
      absurd (ground arith)
]
  where
    ℕ-zero : (n : ℕ) → (n ≡ 0) ⊎ (0 < n)
    ℕ-zero zero = inl refl
    ℕ-zero (suc n) = inr (omega arith)

pub Popped-IsIndexed :
    (items : Dict Transaction) (index rest : List ℕ) (first : ℕ)
    → IsIndexed (of items index)
    → Popped nonce_less nonce_less-IsOrder index first rest
    → IsIndexed (of (remove first items) rest)
Popped-IsIndexed items index rest first h q = record {
  keyed = remove-IsMap first items h.keyed;
  nonces = remove-IsKeyed nonce_of first items h.nonces;
  heap = q.heap;
  listed = λ k. ground (
    arith,
    q.often (λ x. x == k),
    q.often (λ x. x == first),
    h.listed k,
    h.listed first,
    has-remove first k items,
  );
}

pub listed_get :
    (items : Dict Transaction) (index : List ℕ) (k : ℕ)
    → IsIndexed (of items index)
    → 0 < count (λ x. x == k) index
    → (tx : Transaction) × (get? k items ≡ some tx)
listed_get items index k h c = elim (Option-cases (get? k items)) [
  | inl e ↦ absurd (ground (arith, has-none k items e, h.listed k))
  | inr found ↦ found
]

-- A result of the loop, as Forwarded reads it.
abbrev IsForwarded :
    ℕ → Dict Transaction → List Transaction → Dict Transaction × List ℕ × List Transaction → Type 0
IsForwarded threshold items before (items', index, removed) =
    Forwarded threshold items before items' index removed

-- One round, and the rounds after it.
round :
    (threshold first : ℕ) (items : Dict Transaction) (index : List ℕ) (before : List Transaction)
    (tx : Transaction) (r : Dict Transaction × List ℕ × List Transaction)
    → IsIndexed (of items index)
    → first < threshold
    → get? first items ≡ some tx
    → IsForwarded threshold (remove first items) (before ++ tx ∷ []) r
    → IsForwarded threshold items before r
round threshold first items index before tx (items', index', removed) h below e f = record {
  indexed = f.indexed;
  entry = λ k. ground (arith, f.entry k, get?-remove first k items);
  often = λ p. omega (
    arith,
    f.often p,
    count-append p before (tx ∷ []),
    count-values-remove p first tx items h.keyed e,
  );
}

forward_loop-IsForwarded :
    (fuel threshold : ℕ) (items : Dict Transaction) (index : List ℕ) (before : List Transaction)
    → IsIndexed (of items index)
    → length index ≤ fuel
    → IsForwarded threshold items before (forward_loop fuel threshold items index before)
unfolding forward_loop
forward_loop-IsForwarded zero threshold items [] before h l =
    done threshold items [] before h λ k b. refl
forward_loop-IsForwarded zero threshold items (x ∷ xs) before h l = absurd (omega (arith, l))
forward_loop-IsForwarded (suc fuel) threshold items index before h l =
    elim (Option-cases (get_elem? index 0)) [
      | inl e ↦
          rw (e, forward_loop) (done threshold items index before h λ k b. empty_count index k e)
      | inr (first, e) ↦ elim (Bool-cases (ltb first threshold)) [
        | inr high ↦
            rw (e, high, forward_loop)
              (done threshold items index before h
                λ k b. low_root threshold first k items index h e high b)
        | inl below ↦
            let (x, rest, took, q) =
              pop-Popped nonce_less nonce_less-IsOrder index h.heap
                (get_elem?_bound index 0 first e) in
            let same : x ≡ first = some_inj x first (sym q.first ∙ e) in
            let (tx, there) = listed_get items index x h (ground (arith, q.often (λ y. y == x))) in
            let left = q.long in
            rw (e, below, took, there, forward_loop)
              (round threshold x items index before tx _ h (ground arith) there (
                forward_loop-IsForwarded fuel threshold (remove x items) rest (before ++ tx ∷ [])
                  (Popped-IsIndexed items index rest x h q) (omega (arith, left, l))))
      ]
    ]
  where
    empty_count : (xs : List ℕ) (k : ℕ) → get_elem? xs 0 ≡ none → count (λ x. x == k) xs ≡ 0
    empty_count [] k e = refl
    empty_count (x ∷ xs) k e = cc

    some_inj : (x y : ℕ) → some x ≡ some y → x ≡ y
    some_inj x y e = cc

-- Forward returns the transactions whose nonces are below the threshold, each as often as it was
-- there, and leaves exactly the others, with the heap and the map together.
pub forward-Forwarded :
    (m : TxSortedMap) (threshold : ℕ)
    → IsIndexed m
    → Forwarded threshold m.items []
        (forward m threshold).0.items
        (forward m threshold).0.index
        (forward m threshold).1
unfolding forward
forward-Forwarded m threshold h =
    forward_loop-IsForwarded (length m.index) threshold m.items m.index []
      (record { keyed = h.keyed; nonces = h.nonces; heap = h.heap; listed = h.listed })
      (omega arith)
