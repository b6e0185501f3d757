-- ===== src/TxPool/RemoveTx.antt =====
-- removeTx keeps the pool's invariant.
use benzene.Prelude.{
  ℕ, ◌≡◌, refl, sym, ap, ◌∙◌, inl, inr, Bool, true, false, Option, none, some, List, [], ◌∷◌, arith,
  Bool-cases, Option-cases, Dict, get?, has, has-none, has-get?, In, if◌then◌else◌,
}
use benzene.TxPool.Transaction.{Transaction}
use benzene.TxPool.TxList
use benzene.TxPool.TxList.{TxList}
use benzene.TxPool.Lookup
use benzene.TxPool.Lookup.{TxLookup, IsLookup}
use benzene.TxPool.PricedList
use benzene.TxPool.PricedList.{TxPricedList}
use benzene.TxPool.Noncer
use benzene.TxPool.Pool.{TxPool, from, enqueue_all, remove_queued, remove_listed, remove_tx}
use benzene.TxPool.Invariant.{NoNew, known_apart, entry, IsPool, delete-IsLookup}
use benzene.TxPool.Filter.{AreApart}
use benzene.TxPool.Remove.{Deleted, delete-IsDeleted}
use benzene.TxPool.Dropped.{
  stored, stored-entry, stored-Dropped, entry_of, no_entry, not_it, IsWithout, still_known,
  unlisted-Dropped, both-Dropped, queue_removed-IsPool,
}
use benzene.TxPool.Enqueue.{enqueue_tx-IsPool}

not_stored :
    (addr a n : ℕ) (l : TxList) (lists : Dict TxList)
    → addr ≡ a
    → get? n l.txs.items ≡ none
    → entry (stored addr l lists) a n ≡ none
not_stored addr a n l lists q gone = elim (Option-cases (entry (stored addr l lists) a n)) [
  | inl e ↦ e
  | inr (x, e) ↦ elim (stored-entry addr a n l x lists e) [
    | inl (same, there) ↦ absurd (cc)
    | inr (other, old) ↦ absurd (other q)
  ]
]

own_hash :
    (t : TxLookup) (hash : ℕ) (tx : Transaction)
    → IsLookup t
    → Lookup.get t hash ≡ some tx
    → tx.hash ≡ hash
unfolding Lookup.get
own_hash t hash tx h e = h.hashed hash tx e

module _ (sender : Transaction → Option ℕ) where
  -- enqueueTx of several transactions that are in the lookup, have different nonces, and are not
  -- pending.
  enqueue_all-IsPool :
      (now : ℕ) (s : TxPool) (txs : List Transaction)
      → IsPool sender s
      → AreApart txs
      → ((x : Transaction) → In x txs → Lookup.get s.all x.hash ≡ some x)
      → ((x : Transaction) → In x txs → entry s.pending (from sender x) x.nonce ≡ none)
      → (t : TxPool) × (enqueue_all sender now s txs ≡ some t) × IsPool sender t × NoNew s.all t.all
  unfolding enqueue_all
  enqueue_all-IsPool now s [] h a known free = (s, refl, h, λ k e. e)
  enqueue_all-IsPool now s (tx ∷ txs) h (away, a) known free =
      let (t, replaced, one, ok, same, rest, fewer) =
        enqueue_tx-IsPool sender now s tx h (inr (known tx (inl refl))) (free tx (inl refl)) in
      let (u, more, ok', none_new) =
        enqueue_all-IsPool now t txs ok a
          (λ x i.
            rest x (known x (inr i))
              (λ e. away x i (h.queue.place (from sender tx) tx.nonce x e).1))
          (λ x i. ap (λ z. entry z (from sender x) x.nonce) same ∙ free x (inr i)) in
      (
        u,
        rw (one, enqueue_all) more,
        ok',
        λ k e. none_new k (fewer k e (known_apart s.all tx.hash k tx (known tx (inl refl)) e)),
      )

  -- The transaction goes from the pending list of its sender, and the later ones with it.
  pending_removed-IsPool :
      (s : TxPool) (all : TxLookup) (priced : TxPricedList) (tx : Transaction) (l l' : TxList)
      (removed : Bool) (invalids : List Transaction)
      → IsPool sender s
      → IsWithout sender tx s.all all
      → get? (from sender tx) s.pending ≡ some l
      → Deleted true l tx l' removed invalids
      → removed ≡ true
      → IsPool sender
          (record s { all = all; priced = priced; pending = stored (from sender tx) l' s.pending })
  pending_removed-IsPool s all priced tx l l' removed invalids h w there d yes_removed =
      let p =
        stored-Dropped sender true s.all s.pending (from sender tx) tx l l' removed invalids
          h.pending there d in
      let free : entry s.queue (from sender tx) tx.nonce ≡ none =
        elim (h.apart (from sender tx) tx.nonce) [
          | inr e ↦ e
          | inl e ↦
              let gone : get? tx.nonce l.txs.items ≡ none =
                sym (entry_of (from sender tx) tx.nonce l s.pending there) ∙ e in
              absurd (ground (arith, d.found, yes_removed, has-none tx.nonce l.txs.items gone))
        ] in
      let q = unlisted-Dropped sender false s.all s.queue (from sender tx) tx h.queue free in
      both-Dropped sender s all priced (stored (from sender tx) l' s.pending) s.queue s.beats tx h w
        p q

  -- The later transactions go to the queue.
  demoted-IsPool :
      (now : ℕ) (s : TxPool) (all : TxLookup) (priced : TxPricedList) (tx : Transaction)
      (l : TxList)
      → IsPool sender s
      → IsWithout sender tx s.all all
      → get? (from sender tx) s.pending ≡ some l
      → (TxList.delete l tx).1 ≡ true
      → (t : TxPool) × (enqueue_all sender now
            (record s {
              all = all;
              priced = priced;
              pending = stored (from sender tx) (TxList.delete l tx).0 s.pending;
            })
            (TxList.delete l tx).2
          ≡ some t)
        × IsPool sender t
        × NoNew all t.all
  demoted-IsPool now s all priced tx l h w e gone =
      let d = delete-IsDeleted true l tx (h.pending.orderly (from sender tx) l e) in
      let listed : (x : Transaction)
          → In x (TxList.delete l tx).2
          → entry s.pending (from sender tx) x.nonce ≡ some x =
        λ x i. entry_of (from sender tx) x.nonce l s.pending e ∙ (d.later x i).0 in
      enqueue_all-IsPool now _ (TxList.delete l tx).2
        (pending_removed-IsPool s all priced tx l (TxList.delete l tx).0 _ _ h w e d gone) d.apart
        (λ x i.
          still_known sender s.all all tx x w
            (h.pending.known (from sender tx) x.nonce x (listed x i))
            (not_it sender true s.all s.pending (from sender tx) x.nonce tx x h.pending (listed x i)
              (inr (d.later x i).2)))
        (λ x i.
          not_stored (from sender tx) (from sender x) x.nonce (TxList.delete l tx).0 s.pending
            (sym (h.pending.place (from sender tx) x.nonce x (listed x i)).0) (d.later x i).1)

  -- removeTx past the lookup.
  remove_listed-IsPool :
      (now : ℕ) (s : TxPool) (all : TxLookup) (priced : TxPricedList) (tx : Transaction)
      → IsPool sender s
      → IsWithout sender tx s.all all
      → (t : TxPool) × (remove_listed sender now
            (record s { all = all; priced = priced })
            (from sender tx)
            tx
          ≡ some t)
        × IsPool sender t
        × NoNew all t.all
  unfolding remove_listed
  remove_listed-IsPool now s all priced tx h w =
      elim (Option-cases (get? (from sender tx) s.pending)) [
        | inl e ↦ (
          remove_queued sender (record s { all = all; priced = priced }) (from sender tx) tx,
          rw (e, remove_listed) refl,
          (queue_removed-IsPool sender s all priced tx h w
              (no_entry (from sender tx) tx.nonce s.pending e)).0,
          (queue_removed-IsPool sender s all priced tx h w
              (no_entry (from sender tx) tx.nonce s.pending e)).1,
        )
        | inr (l, e) ↦
            let d = delete-IsDeleted true l tx (h.pending.orderly (from sender tx) l e) in
            elim (Bool-cases (has tx.nonce l.txs.items)) [
              | inr absent ↦
                  let kept = d.found ∙ absent in
                  let free =
                    entry_of (from sender tx) tx.nonce l s.pending e
                    ∙ has-get? tx.nonce l.txs.items absent in
                  (
                    remove_queued sender (record s { all = all; priced = priced }) (from sender tx)
                        tx,
                    rw (e, kept, remove_listed) refl,
                    (queue_removed-IsPool sender s all priced tx h w free).0,
                    (queue_removed-IsPool sender s all priced tx h w free).1,
                  )
              | inl there ↦
                  let gone = d.found ∙ there in
                  let (u, same, ok, none_new) = demoted-IsPool now s all priced tx l h w e gone in
                  (
                    record u {
                      pending_nonces =
                          Noncer.set_if_lower u.pending_nonces (from sender tx) tx.nonce;
                    },
                    rw (e, gone, same, remove_listed) refl,
                    record {
                      lookup = ok.lookup;
                      pending = ok.pending;
                      queue = ok.queue;
                      apart = ok.apart;
                    },
                    none_new,
                  )
            ]
      ]

  -- removeTx never panics on a pool in order, keeps it in order, and puts no new hash into the
  -- lookup: whether it knows the hash or not, and whether the transaction is pending, queued or in
  -- no list.
  pub remove_tx-IsPool :
      (now : ℕ) (s : TxPool) (hash : ℕ) (outofbound : Bool)
      → IsPool sender s
      → (t : TxPool) × (remove_tx sender now s hash outofbound ≡ some t)
        × IsPool sender t
        × NoNew s.all t.all
  unfolding remove_tx
  remove_tx-IsPool now s hash outofbound h = elim (Option-cases (Lookup.get s.all hash)) [
    | inl unknown ↦ (s, rw (unknown, remove_tx) refl, h, λ k e. e)
    | inr (tx, e) ↦
        let own = own_hash s.all hash tx h.lookup e in
        let there = ap (Lookup.get s.all) own ∙ e in
        let (all, gone, lookup, get) = delete-IsLookup s.all tx h.lookup there in
        let gone' : Lookup.delete s.all hash ≡ some all =
          sym (ap (Lookup.delete s.all) own) ∙ gone in
        let priced = if outofbound then PricedList.removed all s.priced 1 else s.priced in
        let (t, same, ok, none_new) =
          remove_listed-IsPool now s all priced tx h (there, lookup, get) in
        (t, rw (e, gone', same, remove_tx) refl, ok, λ k f. none_new k (ground (arith, get k, f)))
  ]
