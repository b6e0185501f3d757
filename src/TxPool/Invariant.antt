-- ===== src/TxPool/Invariant.antt =====
-- The invariant of TxPool: what its lists hold is in the lookup, under the sender's address and the
-- nonce, and no sender has one nonce in both lists.
use benzene.Prelude.{
  ℕ, ◌≡◌, ◌≢◌, refl, sym, ap, ◌∙◌, ◌⊎◌, inl, inr, Bool, true, false, Option, none, some, arith,
  Bool-cases, Dict, get?, put, remove, get?-put, get?-remove, ◌==◌, if◌then◌else◌,
}
use benzene.TxPool.Transaction.{Transaction}
use benzene.TxPool.TxList.{TxList}
use benzene.TxPool.Lookup
use benzene.TxPool.Lookup.{TxLookup, IsLookup, IsLookup-keeps}
use benzene.TxPool.PricedList
use benzene.TxPool.PricedList.{TxPricedList}
use benzene.TxPool.Index.{IsIndexed}
use benzene.TxPool.Caps.{IsCapped}
use benzene.TxPool.Pool.{TxPool, from, discard_old, index_new}

-- The transaction that some lists have for an address under a nonce.
abbrev pub entry : Dict TxList → ℕ → ℕ → Option Transaction
entry lists addr n = elim (get? addr lists) [ none ↦ none | some l ↦ get? n l.txs.items ]

pub entry-put :
    (addr a n : ℕ) (l : TxList) (lists : Dict TxList)
    → entry (put addr l lists) a n ≡ (if addr == a then get? n l.txs.items else entry lists a n)
entry-put addr a n l lists = elim (Bool-cases (addr == a)) [
  | inl same ↦ ground (arith, same, get?-put addr a l lists)
  | inr other ↦ ground (arith, other, get?-put addr a l lists)
]

pub entry-remove :
    (addr a n : ℕ) (lists : Dict TxList)
    → entry (remove addr lists) a n ≡ (if addr == a then none else entry lists a n)
entry-remove addr a n lists = elim (Bool-cases (addr == a)) [
  | inl same ↦ ground (arith, same, get?-remove addr a lists)
  | inr other ↦ ground (arith, other, get?-remove addr a lists)
]

-- A list in order: of one kind, the heap and the map together, and the caps above.
pub record IsOrderly (strict : Bool) (l : TxList) : Type 0 where
  pub kind : l.strict ≡ strict
  pub indexed : IsIndexed l.txs
  pub capped : IsCapped l

module _ (sender : Transaction → Option ℕ) where
  pub record IsFiled (strict : Bool) (all : TxLookup) (lists : Dict TxList) : Type 0 where
    pub orderly : (addr : ℕ) (l : TxList) → get? addr lists ≡ some l → IsOrderly strict l
    pub known :
        (addr n : ℕ) (tx : Transaction)
        → entry lists addr n ≡ some tx
        → Lookup.get all tx.hash ≡ some tx
    pub place :
        (addr n : ℕ) (tx : Transaction)
        → entry lists addr n ≡ some tx
        → (from sender tx ≡ addr) × (tx.nonce ≡ n)

  pub record IsPool (s : TxPool) : Type 0 where
    pub lookup : IsLookup s.all
    pub pending : IsFiled true s.all s.pending
    pub queue : IsFiled false s.all s.queue
    pub apart : (addr n : ℕ) → (entry s.pending addr n ≡ none) ⊎ (entry s.queue addr n ≡ none)

-- A lookup that has no hash which the other lacks.
abbrev pub NoNew : TxLookup → TxLookup → Type 0
NoNew all all' = (k : ℕ) → Lookup.get all k ≡ none → Lookup.get all' k ≡ none

-- The lookup has the transaction under its hash, or nothing.
abbrev pub Fits : TxLookup → Transaction → Type 0
Fits all tx = (Lookup.get all tx.hash ≡ none) ⊎ (Lookup.get all tx.hash ≡ some tx)

-- A lookup in which a transaction has taken the place of another, if any.
pub record Settled (all : TxLookup) (old : Option Transaction) (tx : Transaction) (all' : TxLookup)
    : Type 0 where
  pub lookup : IsLookup all'
  pub there : Lookup.get all' tx.hash ≡ some tx
  pub rest :
      (x : Transaction)
      → Lookup.get all x.hash ≡ some x
      → old ≢ some x
      → Lookup.get all' x.hash ≡ some x
  pub fewer : (h : ℕ) → Lookup.get all h ≡ none → tx.hash ≢ h → Lookup.get all' h ≡ none

get-add :
    (all : TxLookup) (tx : Transaction) (k : ℕ)
    → Lookup.get (Lookup.add all tx) k ≡ (if tx.hash == k then some tx else Lookup.get all k)
unfolding Lookup.get Lookup.add
get-add all tx k = get?-put tx.hash k tx all.all

pub known_apart :
    (all : TxLookup) (h k : ℕ) (x : Transaction)
    → Lookup.get all h ≡ some x
    → Lookup.get all k ≡ none
    → h ≢ k
known_apart all h k x there gone q =
    let there' : Lookup.get all k ≡ some x = sym (ap (Lookup.get all) q) ∙ there in absurd (cc)

hash_apart :
    (all : TxLookup) (h k : ℕ) (x : Transaction)
    → Lookup.get all h ≡ none
    → Lookup.get all k ≡ some x
    → (h == k) ≡ false
hash_apart all h k x new e = elim (Bool-cases (h == k)) [
  | inr other ↦ other
  | inl same ↦ let equal : h ≡ k = ground (arith, same) in absurd (cc)
]

index_new-Settled :
    (s : TxPool) (tx : Transaction)
    → IsLookup s.all
    → Fits s.all tx
    → (all : TxLookup) × (priced : TxPricedList) × (index_new s tx
        ≡ record s { all = all; priced = priced })
      × Settled s.all none tx all
index_new-Settled s tx h (inr there) = (
  s.all,
  s.priced,
  rw (there, index_new) refl,
  record { lookup = h; there = there; rest = λ x e n. e; fewer = λ k e n. e },
)
index_new-Settled s tx h (inl new) = (
  Lookup.add s.all tx,
  PricedList.insert s.priced tx,
  rw (new, index_new) refl,
  record {
    lookup = (IsLookup-keeps s.all tx 0 0 h).0 new;
    there = ground (arith, get-add s.all tx tx.hash);
    rest = λ x e n.
        ground (arith, get-add s.all tx x.hash, hash_apart s.all tx.hash x.hash x new e, e);
    fewer = λ k e n. ground (arith, get-add s.all tx k, e, n);
  },
)

lookup_inj : (t u : TxLookup) → some t ≡ some u → t ≡ u
lookup_inj t u e = cc

pub delete-IsLookup :
    (t : TxLookup) (old : Transaction)
    → IsLookup t
    → Lookup.get t old.hash ≡ some old
    → (u : TxLookup) × (Lookup.delete t old.hash ≡ some u)
      × IsLookup u
      × ((k : ℕ) → Lookup.get u k ≡ (if old.hash == k then none else Lookup.get t k))
delete-IsLookup t old h there =
    let (u, gone, lookup, zeroth) = (IsLookup-keeps t old old.hash 0 h).2 old there in
    (
      u,
      gone,
      lookup,
      λ k.
          let (v, gone', lookup', kth) = (IsLookup-keeps t old old.hash k h).2 old there in
          let same : u ≡ v = lookup_inj u v (sym gone ∙ gone') in rw same kth,
    )

-- The old transaction leaves the lookup, which changes nothing else than the lookup and the prices.
discard_old_form :
    (s : TxPool) (old : Transaction)
    → IsLookup s.all
    → Lookup.get s.all old.hash ≡ some old
    → (all : TxLookup) × (priced : TxPricedList) × (discard_old s (some old)
        ≡ some (record s { all = all; priced = priced }))
      × IsLookup all
      × ((k : ℕ) → Lookup.get all k ≡ (if old.hash == k then none else Lookup.get s.all k))
discard_old_form s old h there =
    let (all, gone, lookup, get) = delete-IsLookup s.all old h there in
    (all, PricedList.removed all s.priced 1, rw (gone, discard_old) refl, lookup, get)

-- What is in the lookup before a replacement: the old transaction under its hash.
abbrev pub IsOld : TxLookup → Option Transaction → Type 0
IsOld all none = Unit {0}
IsOld all (some old) = Lookup.get all old.hash ≡ some old

pub hash-distinct :
    (all : TxLookup) (x y : Transaction)
    → Lookup.get all x.hash ≡ some x
    → Lookup.get all y.hash ≡ some y
    → some x ≢ some y
    → (x.hash == y.hash) ≡ false
hash-distinct all x y ex ey n = elim (Bool-cases (x.hash == y.hash)) [
  | inr other ↦ other
  | inl same ↦
      let equal : x.hash ≡ y.hash = ground (arith, same) in
      absurd (n (sym ex ∙ (ap (Lookup.get all) equal ∙ ey)))
]

Fits-after :
    (all mid : TxLookup) (old tx : Transaction)
    → Lookup.get all old.hash ≡ some old
    → ((k : ℕ) → Lookup.get mid k ≡ (if old.hash == k then none else Lookup.get all k))
    → some old ≢ some tx
    → Fits all tx
    → Fits mid tx
Fits-after all mid old tx there get n (inl e) = inl (ground (arith, get tx.hash, e))
Fits-after all mid old tx there get n (inr e) =
    inr (ground (arith, get tx.hash, hash-distinct all old tx there e n, e))

Settled-after :
    (all mid all' : TxLookup) (old tx : Transaction)
    → Lookup.get all old.hash ≡ some old
    → ((k : ℕ) → Lookup.get mid k ≡ (if old.hash == k then none else Lookup.get all k))
    → Settled mid none tx all'
    → Settled all (some old) tx all'
Settled-after all mid all' old tx there get r = record {
  lookup = r.lookup;
  there = r.there;
  rest = λ x e n.
      r.rest x (ground (arith, get x.hash, hash-distinct all old x there e n, e)) (λ z. cc);
  fewer = λ k e n. r.fewer k (ground (arith, get k, e)) n;
}

-- A transaction takes the place of another in the lookup and the price list. Nothing else of the
-- pool changes.
pub replace-Settled :
    (s : TxPool) (old : Option Transaction) (tx : Transaction)
    → IsLookup s.all
    → IsOld s.all old
    → Fits s.all tx
    → old ≢ some tx
    → (u : TxPool) × (all : TxLookup) × (priced : TxPricedList) × (discard_old s old ≡ some u)
      × (index_new u tx ≡ record s { all = all; priced = priced })
      × Settled s.all old tx all
      × (Lookup.get s.all tx.hash ≡ none → Lookup.get u.all tx.hash ≡ none)
replace-Settled s none tx h o f n =
    let (all, priced, same, settled) = index_new-Settled s tx h f in
    (s, all, priced, refl, same, settled, λ e. e)
replace-Settled s (some old) tx h there f n =
    let (mid, cheaper, gone, lookup, get) = discard_old_form s old h there in
    let u : TxPool = record s { all = mid; priced = cheaper } in
    let (all, priced, same, settled) =
      index_new-Settled u tx lookup (Fits-after s.all mid old tx there get n f) in
    (
      u,
      all,
      priced,
      gone,
      same,
      Settled-after s.all mid all old tx there get settled,
      λ e. ground (arith, get tx.hash, e),
    )
