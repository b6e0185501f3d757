-- ===== src/TxPool/Filed.antt =====
-- Lists of the pool in which one account's list is written anew, or stored again as it was.
use benzene.Prelude.{
  ℕ, ◌<◌, ◌≡◌, ◌≢◌, refl, sym, ap, ◌∙◌, ◌⊎◌, inl, inr, Bool, not, Option, none, some, arith,
  Option-cases, Bool-cases, Dict, get?, put, get?-put, ◌==◌, if◌then◌else◌,
}
use benzene.TxPool.Transaction.{Transaction}
use benzene.TxPool.SortedMap
use benzene.TxPool.TxList
use benzene.TxPool.TxList.{TxList, overwrite}
use benzene.TxPool.Lookup.{TxLookup}
use benzene.TxPool.Index.{insert-IsIndexed}
use benzene.TxPool.Caps.{overwrite-IsCapped}
use benzene.TxPool.Replace.{at, overwrite-Written}
use benzene.TxPool.Pool.{from, list_of}
use benzene.TxPool.Invariant.{entry, entry-put, IsOrderly, IsFiled, IsOld, Settled}

pub list_of-entry :
    (strict : Bool) (addr n : ℕ) (lists : Dict TxList)
    → at (list_of strict addr lists) n ≡ entry lists addr n
unfolding TxList.new_tx_list SortedMap.new_tx_sorted_map SortedMap.get
list_of-entry strict addr n lists = elim (Option-cases (get? addr lists)) [
  | inl e ↦ rw (e, list_of, entry) refl
  | inr (l, e) ↦ rw (e, list_of, entry) refl
]

new-IsOrderly : (strict : Bool) → IsOrderly strict (TxList.new_tx_list strict)
unfolding TxList.new_tx_list SortedMap.new_tx_sorted_map
new-IsOrderly strict = record {
  kind = refl;
  indexed = record {
    keyed = tt;
    nonces = λ k v e. absurd (cc);
    heap = λ c x y p l b e f. absurd (omega (arith, l));
    listed = λ k. refl;
  };
  capped = tt;
}

pub overwrite-IsOrderly :
    (strict : Bool) (l : TxList) (tx : Transaction)
    → IsOrderly strict l
    → IsOrderly strict (overwrite l tx)
unfolding overwrite
overwrite-IsOrderly strict l tx h = record {
  kind = h.kind;
  indexed = insert-IsIndexed l.txs tx h.indexed;
  capped = overwrite-IsCapped l tx h.capped;
}

pub some_inj : (y z : Transaction) → some y ≡ some z → y ≡ z
some_inj y z e = cc

pub list_inj : (y z : TxList) → some y ≡ some z → y ≡ z
list_inj y z e = cc

pub dearer : (x y : Transaction) → x.gas_price < y.gas_price → some x ≢ some y
dearer x y lt e =
    let p : x.gas_price ≡ y.gas_price = ap (λ z. z.gas_price) (some_inj x y e) in
    absurd (omega (arith, lt, p))

module _ (sender : Transaction → Option ℕ) where
  pub list_of-IsOrderly :
      (strict : Bool) (addr : ℕ) (all : TxLookup) (lists : Dict TxList)
      → IsFiled sender strict all lists
      → IsOrderly strict (list_of strict addr lists)
  list_of-IsOrderly strict addr all lists h = elim (Option-cases (get? addr lists)) [
    | inl e ↦ rw (e, list_of) (new-IsOrderly strict)
    | inr (l, e) ↦ rw (e, list_of) (h.orderly addr l e)
  ]

  -- The list of the sender, with a transaction written under its nonce.
  abbrev pub Writes : Dict TxList → Transaction → TxList → Type 0
  Writes lists tx l =
      (n : ℕ)
      → get? n l.txs.items ≡ (if tx.nonce == n then some tx else entry lists (from sender tx) n)

  -- What the lists have after the write: the transaction, or what they had at another place.
  put_cases :
      (lists : Dict TxList) (tx x : Transaction) (l : TxList) (a n : ℕ)
      → Writes lists tx l
      → entry (put (from sender tx) l lists) a n ≡ some x
      → ((tx ≡ x) × (from sender tx ≡ a) × (tx.nonce ≡ n))
        ⊎ ((entry lists a n ≡ some x) × ((from sender tx ≢ a) ⊎ (tx.nonce ≢ n)))
  put_cases lists tx x l a n w e = elim (Bool-cases (from sender tx == a)) [
    | inr other ↦ inr (
      ground (arith, entry-put (from sender tx) a n l lists, other, e),
      inl (λ q. ground (arith, other, q)),
    )
    | inl same ↦
        let q : from sender tx ≡ a = ground (arith, same) in
        let there : entry lists (from sender tx) n ≡ entry lists a n =
          ap (λ z. entry lists z n) q in
        elim (Bool-cases (tx.nonce == n)) [
          | inl here ↦ inl (
            some_inj tx x
                (ground (arith, entry-put (from sender tx) a n l lists, same, w n, here, e)),
            q,
            ground (arith, here),
          )
          | inr away ↦ inr (
            sym there ∙ ground (arith, entry-put (from sender tx) a n l lists, same, w n, away, e),
            inr (λ z. ground (arith, away, z)),
          )
        ]
  ]

  -- A transaction that is filed at another place is not the one that is replaced.
  other_place :
      (strict : Bool) (all : TxLookup) (lists : Dict TxList) (addr nonce a n : ℕ) (x : Transaction)
      → IsFiled sender strict all lists
      → (from sender x ≡ a) × (x.nonce ≡ n)
      → (addr ≢ a) ⊎ (nonce ≢ n)
      → entry lists addr nonce ≢ some x
  other_place strict all lists addr nonce a n x h (f, g) (inl d) e =
      d (sym (h.place addr nonce x e).0 ∙ f)
  other_place strict all lists addr nonce a n x h (f, g) (inr d) e =
      d (sym (h.place addr nonce x e).1 ∙ g)

  pub written-IsFiled :
      (strict : Bool) (all all' : TxLookup) (lists : Dict TxList) (l : TxList) (tx : Transaction)
      → IsFiled sender strict all lists
      → IsOrderly strict l
      → Writes lists tx l
      → Settled all (entry lists (from sender tx) tx.nonce) tx all'
      → IsFiled sender strict all' (put (from sender tx) l lists)
  written-IsFiled strict all all' lists l tx h o w r = record {
    orderly = λ a x e. elim (Bool-cases (from sender tx == a)) [
      | inl same ↦
          let at_it : l ≡ x =
            list_inj l x (ground (arith, get?-put (from sender tx) a l lists, same, e)) in
          rw (sym at_it) o
      | inr other ↦ h.orderly a x (ground (arith, get?-put (from sender tx) a l lists, other, e))
    ];
    known = λ a n x e. elim (put_cases lists tx x l a n w e) [
      | inl (same, q, z) ↦ rw (sym same) r.there
      | inr (old, away) ↦
          r.rest x (h.known a n x old) (
            other_place strict all lists (from sender tx) tx.nonce a n x h (h.place a n x old) away)
    ];
    place = λ a n x e. elim (put_cases lists tx x l a n w e) [
      | inl (same, q, z) ↦ rw (sym same) (q, z)
      | inr (old, away) ↦ h.place a n x old
    ];
  }

  -- The other lists, which have nothing at that place.
  pub untouched-IsFiled :
      (strict : Bool) (all all' : TxLookup) (lists others : Dict TxList) (tx : Transaction)
      → IsFiled sender (not strict) all lists
      → IsFiled sender strict all others
      → entry others (from sender tx) tx.nonce ≡ none
      → Settled all (entry lists (from sender tx) tx.nonce) tx all'
      → IsFiled sender strict all' others
  untouched-IsFiled strict all all' lists others tx h g free r = record {
    orderly = g.orderly;
    known = λ a n x e. r.rest x (g.known a n x e) (λ q.
        let (f, m) = h.place (from sender tx) tx.nonce x q in
        let (f', m') = g.place a n x e in
        absurd (place_taken (from sender tx) tx.nonce a n x (sym f ∙ f') (sym m ∙ m') free e));
    place = g.place;
  }
    where
      place_taken :
          (addr nonce a n : ℕ) (x : Transaction)
          → addr ≡ a
          → nonce ≡ n
          → entry others addr nonce ≡ none
          → entry others a n ≡ some x
          → ⊥
      place_taken addr nonce a n x p q free e = cc

  -- The other lists have no place in common with the written ones.
  pub written-apart :
      (others lists : Dict TxList) (l : TxList) (tx : Transaction) (a n : ℕ)
      → Writes lists tx l
      → ((a n : ℕ) → (entry others a n ≡ none) ⊎ (entry lists a n ≡ none))
      → entry others (from sender tx) tx.nonce ≡ none
      → (entry others a n ≡ none) ⊎ (entry (put (from sender tx) l lists) a n ≡ none)
  written-apart others lists l tx a n w apart free = elim (Bool-cases (from sender tx == a)) [
    | inr other ↦ elim (apart a n) [
      | inl e ↦ inl e
      | inr e ↦ inr (ground (arith, entry-put (from sender tx) a n l lists, other, e))
    ]
    | inl same ↦
        let q : from sender tx ≡ a = ground (arith, same) in
        let moved : entry lists (from sender tx) n ≡ entry lists a n =
          ap (λ z. entry lists z n) q in
        elim (Bool-cases (tx.nonce == n)) [
          | inl here ↦
              let m : tx.nonce ≡ n = ground (arith, here) in
              inl (
                sym (ap (λ z. entry others z n) q)
                ∙ (sym (ap (entry others (from sender tx)) m) ∙ free))
          | inr away ↦ elim (apart a n) [
            | inl e ↦ inl e
            | inr e ↦
                inr (
                  ground (arith, entry-put (from sender tx) a n l lists, same, w n, away, moved, e))
          ]
        ]
  ]

  pub written :
      (strict : Bool) (lists : Dict TxList) (tx : Transaction)
      → Writes lists tx (overwrite (list_of strict (from sender tx) lists) tx)
  unfolding SortedMap.get
  written strict lists tx n =
      let e = (overwrite-Written (list_of strict (from sender tx) lists) tx).entry n in
      let f = list_of-entry strict (from sender tx) n lists in ground (arith, e, f)

  pub same_entry :
      (strict : Bool) (addr a n : ℕ) (lists : Dict TxList)
      → entry (put addr (list_of strict addr lists) lists) a n ≡ entry lists a n
  unfolding SortedMap.get
  same_entry strict addr a n lists =
      let f = list_of-entry strict addr n lists in
      elim (Bool-cases (addr == a)) [
        | inr other ↦ ground (arith, entry-put addr a n (list_of strict addr lists) lists, other)
        | inl same ↦
            let q : addr ≡ a = ground (arith, same) in
            let moved : entry lists addr n ≡ entry lists a n = ap (λ z. entry lists z n) q in
            ground (arith, entry-put addr a n (list_of strict addr lists) lists, same, f, moved)
      ]

  pub same-IsFiled :
      (strict : Bool) (addr : ℕ) (all : TxLookup) (lists : Dict TxList)
      → IsFiled sender strict all lists
      → IsFiled sender strict all (put addr (list_of strict addr lists) lists)
  same-IsFiled strict addr all lists h = record {
    orderly = λ a x e. elim (Bool-cases (addr == a)) [
      | inl same ↦
          let at_it : list_of strict addr lists ≡ x =
            list_inj _ x
              (ground (arith, get?-put addr a (list_of strict addr lists) lists, same, e)) in
          rw (sym at_it) (list_of-IsOrderly strict addr all lists h)
      | inr other ↦
          h.orderly a x
            (ground (arith, get?-put addr a (list_of strict addr lists) lists, other, e))
    ];
    known = λ a n x e. h.known a n x (sym (same_entry strict addr a n lists) ∙ e);
    place = λ a n x e. h.place a n x (sym (same_entry strict addr a n lists) ∙ e);
  }

  pub IsOld-known :
      (strict : Bool) (all : TxLookup) (lists : Dict TxList) (addr n : ℕ) (old : Option Transaction)
      → IsFiled sender strict all lists
      → entry lists addr n ≡ old
      → IsOld all old
  IsOld-known strict all lists addr n none h e = tt
  IsOld-known strict all lists addr n (some old) h e = h.known addr n old e
