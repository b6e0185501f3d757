-- ===== src/TxPool/Dropped.antt =====
-- The lists of the pool without a transaction, and the pool without it.
use benzene.Prelude.{
  ℕ, ◌≡◌, ◌≢◌, refl, sym, ap, ◌∙◌, ◌⊎◌, inl, inr, Bool, true, false, Option, none, some, List,
  arith, Bool-cases, Option-cases, Dict, get?, put, remove, get?-put, get?-remove, ◌==◌,
  if◌then◌else◌,
}
use benzene.TxPool.Transaction.{Transaction}
use benzene.TxPool.TxList
use benzene.TxPool.TxList.{TxList}
use benzene.TxPool.Lookup
use benzene.TxPool.Lookup.{TxLookup, IsLookup}
use benzene.TxPool.PricedList.{TxPricedList}
use benzene.TxPool.Pool.{TxPool, from, remove_queued}
use benzene.TxPool.Invariant.{
  NoNew, entry, entry-put, entry-remove, IsOrderly, IsFiled, IsPool, hash-distinct,
}
use benzene.TxPool.Filed.{some_inj, list_inj}
use benzene.TxPool.Remove.{Deleted, delete-IsDeleted}

-- An account's list that lost a transaction is stored again, or deleted where it is empty.
abbrev pub stored : ℕ → TxList → Dict TxList → Dict TxList
stored addr l lists = if TxList.empty l then remove addr lists else put addr l lists

pub record Dropped (strict : Bool) (addr : ℕ) (tx : Transaction) (lists lists' : Dict TxList)
    : Type 0 where
  pub orderly : (a : ℕ) (l : TxList) → get? a lists' ≡ some l → IsOrderly strict l
  pub left :
      (a n : ℕ) (x : Transaction)
      → entry lists' a n ≡ some x
      → (entry lists a n ≡ some x) × ((addr ≢ a) ⊎ (tx.nonce ≢ n))

stored-get :
    (addr a : ℕ) (l x : TxList) (lists : Dict TxList)
    → get? a (stored addr l lists) ≡ some x
    → (l ≡ x) ⊎ (get? a lists ≡ some x)
stored-get addr a l x lists e = elim (Bool-cases (TxList.empty l)) [
  | inl empty ↦ elim (Bool-cases (addr == a)) [
    | inl same ↦ absurd (clash x (ground (arith, get?-remove addr a lists, same, empty, e)))
    | inr other ↦ inr (ground (arith, get?-remove addr a lists, other, empty, e))
  ]
  | inr full ↦ elim (Bool-cases (addr == a)) [
    | inl same ↦ inl (list_inj l x (ground (arith, get?-put addr a l lists, same, full, e)))
    | inr other ↦ inr (ground (arith, get?-put addr a l lists, other, full, e))
  ]
]
  where
    clash : (y : TxList) → none ≡ some y → ⊥
    clash y e = cc

pub stored-entry :
    (addr a n : ℕ) (l : TxList) (x : Transaction) (lists : Dict TxList)
    → entry (stored addr l lists) a n ≡ some x
    → ((addr ≡ a) × (get? n l.txs.items ≡ some x)) ⊎ ((addr ≢ a) × (entry lists a n ≡ some x))
stored-entry addr a n l x lists e = elim (Bool-cases (TxList.empty l)) [
  | inl empty ↦ elim (Bool-cases (addr == a)) [
    | inl same ↦ absurd (clash x (ground (arith, entry-remove addr a n lists, same, empty, e)))
    | inr other ↦ inr (
      (λ q. ground (arith, other, q)),
      ground (arith, entry-remove addr a n lists, other, empty, e),
    )
  ]
  | inr full ↦ elim (Bool-cases (addr == a)) [
    | inl same ↦
        inl (ground (arith, same), ground (arith, entry-put addr a n l lists, same, full, e))
    | inr other ↦ inr (
      (λ q. ground (arith, other, q)),
      ground (arith, entry-put addr a n l lists, other, full, e),
    )
  ]
]
  where
    clash : (y : Transaction) → none ≡ some y → ⊥
    clash y e = cc

pub entry_of :
    (addr n : ℕ) (l : TxList) (lists : Dict TxList)
    → get? addr lists ≡ some l
    → entry lists addr n ≡ get? n l.txs.items
entry_of addr n l lists there = rw (there, entry) refl

pub no_entry :
    (addr n : ℕ) (lists : Dict TxList) → get? addr lists ≡ none → entry lists addr n ≡ none
no_entry addr n lists e = rw (e, entry) refl

module _ (sender : Transaction → Option ℕ) where
  pub stored-Dropped :
      (strict : Bool) (all : TxLookup) (lists : Dict TxList) (addr : ℕ) (tx : Transaction)
      (l l' : TxList) (removed : Bool) (invalids : List Transaction)
      → IsFiled sender strict all lists
      → get? addr lists ≡ some l
      → Deleted strict l tx l' removed invalids
      → Dropped strict addr tx lists (stored addr l' lists)
  stored-Dropped strict all lists addr tx l l' removed invalids h there d = record {
    orderly = λ a x e. elim (stored-get addr a l' x lists e) [
      | inl same ↦ rw (sym same) d.orderly
      | inr old ↦ h.orderly a x old
    ];
    left = λ a n x e. elim (stored-entry addr a n l' x lists e) [
      | inl (same, at_n) ↦
          let (before, other) = d.left n x at_n in
          (
            sym (ap (λ z. entry lists z n) same) ∙ (entry_of addr n l lists there ∙ before),
            inr other,
          )
      | inr (other, old) ↦ (old, inl other)
    ];
  }

  -- What is left is not the transaction that went.
  pub not_it :
      (strict : Bool) (all : TxLookup) (lists : Dict TxList) (a n : ℕ) (tx x : Transaction)
      → IsFiled sender strict all lists
      → entry lists a n ≡ some x
      → (from sender tx ≢ a) ⊎ (tx.nonce ≢ n)
      → some tx ≢ some x
  not_it strict all lists a n tx x h e (inl d) q =
      d (ap (λ (z : Transaction). from sender z) (some_inj tx x q) ∙ (h.place a n x e).0)
  not_it strict all lists a n tx x h e (inr d) q =
      d (ap (λ (z : Transaction). z.nonce) (some_inj tx x q) ∙ (h.place a n x e).1)

  -- The lookup without the transaction that went.
  abbrev pub IsWithout : Transaction → TxLookup → TxLookup → Type 0
  IsWithout tx all all' =
      (Lookup.get all tx.hash ≡ some tx)
      × IsLookup all'
      × ((k : ℕ) → Lookup.get all' k ≡ (if tx.hash == k then none else Lookup.get all k))

  pub still_known :
      (all all' : TxLookup) (tx x : Transaction)
      → IsWithout tx all all'
      → Lookup.get all x.hash ≡ some x
      → some tx ≢ some x
      → Lookup.get all' x.hash ≡ some x
  still_known all all' tx x (there, h, get) e n =
      ground (arith, get x.hash, hash-distinct all tx x there e n, e)

  Dropped-IsFiled :
      (strict : Bool) (all all' : TxLookup) (lists lists' : Dict TxList) (tx : Transaction)
      → IsFiled sender strict all lists
      → IsWithout tx all all'
      → Dropped strict (from sender tx) tx lists lists'
      → IsFiled sender strict all' lists'
  Dropped-IsFiled strict all all' lists lists' tx h w d = record {
    orderly = d.orderly;
    known = λ a n x e.
        let (old, away) = d.left a n x e in
        still_known all all' tx x w (h.known a n x old)
          (not_it strict all lists a n tx x h old away);
    place = λ a n x e. h.place a n x (d.left a n x e).0;
  }

  -- Lists that do not have the transaction lose nothing.
  pub unlisted-Dropped :
      (strict : Bool) (all : TxLookup) (lists : Dict TxList) (addr : ℕ) (tx : Transaction)
      → IsFiled sender strict all lists
      → entry lists addr tx.nonce ≡ none
      → Dropped strict addr tx lists lists
  unlisted-Dropped strict all lists addr tx h free = record {
    orderly = h.orderly;
    left = λ a n x e. (
      e,
      elim (Bool-cases (addr == a)) [
        | inr other ↦ inl (λ q. ground (arith, other, q))
        | inl same ↦ elim (Bool-cases (tx.nonce == n)) [
          | inr away ↦ inr (λ q. ground (arith, away, q))
          | inl here ↦ absurd (taken a n x (ground (arith, same)) (ground (arith, here)) e)
        ]
      ],
    );
  }
    where
      taken : (a n : ℕ) (x : Transaction) → addr ≡ a → tx.nonce ≡ n → entry lists a n ≡ some x → ⊥
      taken a n x q r e =
          let there : entry lists addr tx.nonce ≡ some x =
            ap (λ z. entry lists z tx.nonce) q ∙ (ap (entry lists a) r ∙ e) in
          absurd (cc)

  remove_queued_form :
      (s : TxPool) (all : TxLookup) (tx : Transaction)
      → IsFiled sender false all s.queue
      → (queue : Dict TxList) × (beats : Dict ℕ) × (remove_queued sender s (from sender tx) tx
          ≡ record s { queue = queue; beats = beats })
        × Dropped false (from sender tx) tx s.queue queue
  unfolding remove_queued
  remove_queued_form s all tx h = elim (Option-cases (get? (from sender tx) s.queue)) [
    | inl e ↦ (
      s.queue,
      s.beats,
      rw (e, remove_queued) refl,
      unlisted-Dropped false all s.queue (from sender tx) tx h
          (no_entry (from sender tx) tx.nonce s.queue e),
    )
    | inr (future, e) ↦
        let list = (TxList.delete future tx).0 in
        let d = delete-IsDeleted false future tx (h.orderly (from sender tx) future e) in
        let dropped = stored-Dropped false all s.queue (from sender tx) tx future list _ _ h e d in
        elim (Bool-cases (TxList.empty list)) [
          | inl empty ↦ (
            stored (from sender tx) list s.queue,
            remove (from sender tx) s.beats,
            rw (e, empty, remove_queued) refl,
            dropped,
          )
          | inr full ↦ (
            stored (from sender tx) list s.queue,
            s.beats,
            rw (e, full, remove_queued) refl,
            dropped,
          )
        ]
  ]

  pub both-Dropped :
      (s : TxPool) (all : TxLookup) (priced : TxPricedList) (pending queue : Dict TxList)
      (beats : Dict ℕ) (tx : Transaction)
      → IsPool sender s
      → IsWithout tx s.all all
      → Dropped true (from sender tx) tx s.pending pending
      → Dropped false (from sender tx) tx s.queue queue
      → IsPool sender
          (record s { all = all; priced = priced; pending = pending; queue = queue; beats = beats })
  both-Dropped s all priced pending queue beats tx h w p q = record {
    lookup = w.1;
    pending = Dropped-IsFiled true s.all all s.pending pending tx h.pending w p;
    queue = Dropped-IsFiled false s.all all s.queue queue tx h.queue w q;
    apart = λ a n. elim (h.apart a n) [
      | inl e ↦ elim (Option-cases (entry pending a n)) [
        | inl f ↦ inl f
        | inr (x, f) ↦ absurd (clash a n x e (p.left a n x f).0)
      ]
      | inr e ↦ elim (Option-cases (entry queue a n)) [
        | inl f ↦ inr f
        | inr (x, f) ↦ absurd (clash' a n x e (q.left a n x f).0)
      ]
    ];
  }
    where
      clash :
          (a n : ℕ) (x : Transaction)
          → entry s.pending a n ≡ none
          → entry s.pending a n ≡ some x
          → ⊥
      clash a n x e f = cc

      clash' :
          (a n : ℕ) (x : Transaction) → entry s.queue a n ≡ none → entry s.queue a n ≡ some x → ⊥
      clash' a n x e f = cc

  -- The transaction goes from the queue.
  pub queue_removed-IsPool :
      (s : TxPool) (all : TxLookup) (priced : TxPricedList) (tx : Transaction)
      → IsPool sender s
      → IsWithout tx s.all all
      → entry s.pending (from sender tx) tx.nonce ≡ none
      → IsPool sender
          (remove_queued sender (record s { all = all; priced = priced }) (from sender tx) tx)
        × NoNew all
            (remove_queued sender (record s { all = all; priced = priced }) (from sender tx) tx).all
  queue_removed-IsPool s all priced tx h w free =
      let (queue, beats, same, q) =
        remove_queued_form (record s { all = all; priced = priced }) s.all tx h.queue in
      let p = unlisted-Dropped true s.all s.pending (from sender tx) tx h.pending free in
      rw same (both-Dropped s all priced s.pending queue beats tx h w p q, λ k e. e)
