-- ===== src/TxPool/Remove.antt =====
-- Remove of a list of transactions keeps it in order.
use benzene.Prelude.{
  ℕ, ◌≡◌, ◌≢◌, refl, sym, ap, ◌∙◌, inl, inr, Bool, true, false, not, Option, none, some, List, [],
  arith, Bool-cases, get?, has, values, get?-keep_inv, get?-keep_drop, In, In-select,
  In-values-get?, ltb, ◌==◌, if◌then◌else◌,
}
use benzene.TxPool.Transaction.{Transaction}
use benzene.TxPool.SortedMap
use benzene.TxPool.SortedMap.{TxSortedMap, nonce_less}
use benzene.TxPool.TxList
use benzene.TxPool.TxList.{TxList}
use benzene.TxPool.Index.{delete-IsIndexed, has-some}
use benzene.TxPool.Caps.{AreUnder, AreUnder-keep, filter_items_of}
use benzene.TxPool.Invariant.{IsOrderly}
use benzene.TxPool.Filter.{filter-IsIndexed, AreUnder-delete, AreApart, select-AreApart}

-- What Remove of a list does: the transaction's nonce goes, and from a strict list the later ones.
pub record Deleted (strict : Bool) (l : TxList) (tx : Transaction) (l' : TxList) (removed : Bool)
    (invalids : List Transaction) : Type 0 where
  pub orderly : IsOrderly strict l'
  pub found : removed ≡ has tx.nonce l.txs.items
  pub left :
      (n : ℕ) (x : Transaction)
      → get? n l'.txs.items ≡ some x
      → (get? n l.txs.items ≡ some x) × (tx.nonce ≢ n)
  pub later :
      (x : Transaction)
      → In x invalids
      → (get? x.nonce l.txs.items ≡ some x)
        × (get? x.nonce l'.txs.items ≡ none)
        × (tx.nonce ≢ x.nonce)
  pub apart : AreApart invalids

strict_deleted :
    (l : TxList) (tx : Transaction)
    → IsOrderly true l
    → has tx.nonce l.txs.items ≡ true
    → (TxList.delete l tx ≡ (
      record l {
        txs = (SortedMap.filter (SortedMap.delete l.txs tx.nonce).0 (λ x. ltb tx.nonce x.nonce)).0;
      },
      true,
      (SortedMap.filter (SortedMap.delete l.txs tx.nonce).0 (λ x. ltb tx.nonce x.nonce)).1,
    ))
unfolding TxList.delete
strict_deleted l tx h there =
    let (i, found, get) = delete-IsIndexed l.txs tx.nonce h.indexed in
    let removed = found ∙ there in rw (removed, h.kind, TxList.delete) refl

absent_deleted :
    (strict : Bool) (l : TxList) (tx : Transaction)
    → IsOrderly strict l
    → has tx.nonce l.txs.items ≡ false
    → TxList.delete l tx ≡ (l, false, [])
unfolding TxList.delete
absent_deleted strict l tx h absent =
    let (i, found, get) = delete-IsIndexed l.txs tx.nonce h.indexed in
    let kept = found ∙ absent in rw (kept, TxList.delete) refl

loose_deleted :
    (l : TxList) (tx : Transaction)
    → IsOrderly false l
    → has tx.nonce l.txs.items ≡ true
    → TxList.delete l tx ≡ (record l { txs = (SortedMap.delete l.txs tx.nonce).0 }, true, [])
unfolding TxList.delete
loose_deleted l tx h there =
    let (i, found, get) = delete-IsIndexed l.txs tx.nonce h.indexed in
    let removed = found ∙ there in rw (removed, h.kind, TxList.delete) refl

-- A result of Remove, as Deleted reads it.
abbrev pub IsDeleted : Bool → TxList → Transaction → TxList × Bool × List Transaction → Type 0
IsDeleted strict l tx (l', removed, invalids) = Deleted strict l tx l' removed invalids

absent_get :
    (l : TxList) (tx x : Transaction) (n : ℕ)
    → has tx.nonce l.txs.items ≡ false
    → get? n l.txs.items ≡ some x
    → tx.nonce ≢ n
absent_get l tx x n absent e q =
    let there = has-some n x l.txs.items e in
    let absent' : has n l.txs.items ≡ false = sym (ap (λ z. has z l.txs.items) q) ∙ absent in
    absurd (cc)

removed_get :
    (a n : ℕ) (o o' : Option Transaction) (x : Transaction)
    → o' ≡ (if a == n then none else o)
    → o' ≡ some x
    → (o ≡ some x) × (a ≢ n)
removed_get a n o o' x f e = elim (Bool-cases (a == n)) [
  | inl same ↦ let gone : o' ≡ none = ground (arith, f, same) in absurd (cc)
  | inr other ↦ (ground (arith, f, other, e), λ q. ground (arith, other, q))
]

absent-IsDeleted :
    (strict : Bool) (l : TxList) (tx : Transaction)
    → IsOrderly strict l
    → has tx.nonce l.txs.items ≡ false
    → IsDeleted strict l tx (l, false, [])
absent-IsDeleted strict l tx h absent = record {
  orderly = h;
  found = sym absent;
  left = λ n x e. (e, absent_get l tx x n absent e);
  later = λ x i. absurd i;
  apart = tt;
}

loose-IsDeleted :
    (l : TxList) (tx : Transaction)
    → IsOrderly false l
    → has tx.nonce l.txs.items ≡ true
    → IsDeleted false l tx (record l { txs = (SortedMap.delete l.txs tx.nonce).0 }, true, [])
loose-IsDeleted l tx h there =
    let (indexed, found, get) = delete-IsIndexed l.txs tx.nonce h.indexed in
    record {
      orderly = record {
        kind = h.kind;
        indexed = indexed;
        capped = AreUnder-delete l.costcap l.gascap tx.nonce l.txs h.capped;
      };
      found = sym there;
      left = λ n x e. removed_get tx.nonce n _ _ x (get n) e;
      later = λ x i. absurd i;
      apart = tt;
    }

strict-IsDeleted :
    (l : TxList) (tx : Transaction)
    → IsOrderly true l
    → has tx.nonce l.txs.items ≡ true
    → IsDeleted true l tx (
      record l {
        txs = (SortedMap.filter (SortedMap.delete l.txs tx.nonce).0 (λ x. ltb tx.nonce x.nonce)).0;
      },
      true,
      (SortedMap.filter (SortedMap.delete l.txs tx.nonce).0 (λ x. ltb tx.nonce x.nonce)).1,
    )
strict-IsDeleted l tx h there =
    let (indexed, found, get) = delete-IsIndexed l.txs tx.nonce h.indexed in
    let m = (SortedMap.delete l.txs tx.nonce).0 in
    let late : Transaction → Bool = λ x. ltb tx.nonce x.nonce in
    let (items, gone) = filter_items_of m late in
    let capped : AreUnder l.costcap l.gascap (SortedMap.filter m late).0.items = rw items (
      AreUnder-keep l.costcap l.gascap (λ n x. not (late x)) m.items
        (AreUnder-delete l.costcap l.gascap tx.nonce l.txs h.capped)) in
    record {
      orderly = record {
        kind = h.kind;
        indexed = filter-IsIndexed m late indexed;
        capped = capped;
      };
      found = sym there;
      left = λ n x e.
          removed_get tx.nonce n _ _ x (get n)
            (get?-keep_inv (λ k y. not (late y)) n x m.items indexed.keyed (rw items at e)).0;
      later = λ x i.
          let (among, is_late) = In-select late x (values m.items) (rw gone at i) in
          let (k, e) = In-values-get? x m.items indexed.keyed among in
          let at_nonce : get? x.nonce m.items ≡ some x =
            ap (λ j. get? j m.items) (indexed.nonces k x e) ∙ e in
          let (before, other) = removed_get tx.nonce x.nonce _ _ x (get x.nonce) at_nonce in
          (
            before,
            rw items (
                get?-keep_drop (λ j y. not (late y)) x.nonce x m.items indexed.keyed at_nonce
                  (ground (arith, is_late))),
            other,
          );
      apart = rw gone (select-AreApart late m.items indexed.keyed indexed.nonces);
    }

-- Remove of a list in order reports whether it had the nonce. It leaves a list in order without
-- that nonce. From a strict list it takes out every later transaction too, and returns these, which
-- have different nonces.
pub delete-IsDeleted :
    (strict : Bool) (l : TxList) (tx : Transaction)
    → IsOrderly strict l
    → IsDeleted strict l tx (TxList.delete l tx)
delete-IsDeleted strict l tx h = elim (Bool-cases (has tx.nonce l.txs.items)) [
  | inr absent ↦ rw (absent_deleted strict l tx h absent) (absent-IsDeleted strict l tx h absent)
  | inl there ↦ by_kind strict h there
]
  where
    by_kind :
        (b : Bool)
        → IsOrderly b l
        → has tx.nonce l.txs.items ≡ true
        → IsDeleted b l tx (TxList.delete l tx)
    by_kind true o t = rw (strict_deleted l tx o t) (strict-IsDeleted l tx o t)
    by_kind false o t = rw (loose_deleted l tx o t) (loose-IsDeleted l tx o t)
