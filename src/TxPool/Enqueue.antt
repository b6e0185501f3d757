-- ===== src/TxPool/Enqueue.antt =====
-- enqueueTx, promoteTx and the replacement of a pending transaction keep the pool's invariant.
use benzene.Prelude.{
  ℕ, ◌≡◌, ◌≢◌, refl, sym, ap, ◌∙◌, inl, inr, Bool, true, false, Option, none, some, has, put,
  if◌then◌else◌,
}
use benzene.TxPool.Transaction.{Transaction}
use benzene.TxPool.TxList
use benzene.TxPool.TxList.{TxList, overwrite}
use benzene.TxPool.Lookup
use benzene.TxPool.Lookup.{TxLookup}
use benzene.TxPool.PricedList.{TxPricedList}
use benzene.TxPool.Replace.{add_lem}
use benzene.TxPool.Pool.{TxPool, from, discard_old, index_new, list_of, enqueue_tx}
use benzene.TxPool.Invariant.{entry, IsOrderly, IsPool, Fits, Settled, replace-Settled}
use benzene.TxPool.Filed.{
  list_of-entry, overwrite-IsOrderly, dearer, list_of-IsOrderly, Writes, written-IsFiled,
  untouched-IsFiled, written-apart, written, same_entry, same-IsFiled, IsOld-known,
}

module _ (sender : Transaction → Option ℕ) where
  -- The pool after a transaction is written to the queue, and nothing to the pending lists.
  queued-IsPool :
      (s t : TxPool) (l : TxList) (tx : Transaction)
      → IsPool sender s
      → IsOrderly false l
      → Writes sender s.queue tx l
      → entry s.pending (from sender tx) tx.nonce ≡ none
      → Settled s.all (entry s.queue (from sender tx) tx.nonce) tx t.all
      → t.pending ≡ s.pending
      → t.queue ≡ put (from sender tx) l s.queue
      → IsPool sender t
  queued-IsPool s t l tx h o w free r ep eq = record {
    lookup = r.lookup;
    pending =
        rw ep
          (untouched-IsFiled sender true s.all t.all s.queue s.pending tx h.queue h.pending free r);
    queue = rw eq (written-IsFiled sender false s.all t.all s.queue l tx h.queue o w r);
    apart = rw (ep, eq) (λ a n. written-apart sender s.pending s.queue l tx a n w h.apart free);
  }

  -- The queue has a list of the sender, which is as it was.
  kept-IsPool :
      (s : TxPool) (addr : ℕ)
      → IsPool sender s
      → IsPool sender (record s { queue = put addr (list_of false addr s.queue) s.queue })
  kept-IsPool s addr h = record {
    lookup = h.lookup;
    pending = h.pending;
    queue = same-IsFiled sender false addr s.all s.queue h.queue;
    apart = λ a n. elim (h.apart a n) [
      | inl e ↦ inl e
      | inr e ↦ inr (same_entry sender false addr a n s.queue ∙ e)
    ];
  }

  enqueue_kept :
      (now : ℕ) (s : TxPool) (tx : Transaction) (l : TxList)
      → TxList.add (list_of false (from sender tx) s.queue) tx s.price_bump ≡ (l, false, none)
      → enqueue_tx sender now s tx
        ≡ some (record s { queue = put (from sender tx) l s.queue }, none)
  unfolding enqueue_tx
  enqueue_kept now s tx l kept = rw (kept, enqueue_tx) refl

  -- The pool that enqueueTx leaves when it takes a transaction.
  abbrev enqueued : ℕ → TxPool → Transaction → TxList → TxLookup → TxPricedList → TxPool
  enqueued now s tx l all priced = record s {
    queue = put (from sender tx) l s.queue;
    all = all;
    priced = priced;
    beats = if has (from sender tx) s.beats then s.beats else put (from sender tx) now s.beats;
  }

  enqueue_added :
      (now : ℕ) (s u : TxPool) (tx : Transaction) (l : TxList) (old : Option Transaction)
      (all : TxLookup) (priced : TxPricedList)
      → TxList.add (list_of false (from sender tx) s.queue) tx s.price_bump ≡ (l, true, old)
      → discard_old (record s { queue = put (from sender tx) l s.queue }) old ≡ some u
      → index_new u tx
        ≡ record s { queue = put (from sender tx) l s.queue; all = all; priced = priced }
      → enqueue_tx sender now s tx
        ≡ some (enqueued now s tx l all priced, some (elim old [ none ↦ false | some x ↦ true ]))
  unfolding enqueue_tx
  enqueue_added now s u tx l old all priced added gone same =
      let e0 : (TxList.add (list_of false (from sender tx) s.queue) tx s.price_bump).0 ≡ l =
        ap (λ r. r.0) added in
      let e1 : (TxList.add (list_of false (from sender tx) s.queue) tx s.price_bump).1 ≡ true =
        ap (λ r. r.1) added in
      let e2 : (TxList.add (list_of false (from sender tx) s.queue) tx s.price_bump).2 ≡ old =
        ap (λ r. r.2) added in
      let put_there : TxPool = record s {
        queue =
            put (from sender tx)
              (TxList.add (list_of false (from sender tx) s.queue) tx s.price_bump).0 s.queue;
      } in
      let gone' : discard_old put_there old ≡ some u = rw e0 gone in
      rw (e1, e2, gone', same, e2, enqueue_tx) refl

  -- enqueueTx where the list takes the transaction.
  taken-IsPool :
      (now : ℕ) (s : TxPool) (tx : Transaction) (old : Option Transaction)
      → IsPool sender s
      → Fits s.all tx
      → entry s.pending (from sender tx) tx.nonce ≡ none
      → old ≢ some tx
      → entry s.queue (from sender tx) tx.nonce ≡ old
      → TxList.add (list_of false (from sender tx) s.queue) tx s.price_bump
        ≡ (overwrite (list_of false (from sender tx) s.queue) tx, true, old)
      → (t : TxPool) × (replaced : Option Bool) × (enqueue_tx sender now s tx ≡ some (t, replaced))
        × IsPool sender t
        × (t.pending ≡ s.pending)
        × ((x : Transaction)
            → Lookup.get s.all x.hash ≡ some x
            → entry s.queue (from sender tx) tx.nonce ≢ some x
            → Lookup.get t.all x.hash ≡ some x)
        × ((k : ℕ) → Lookup.get s.all k ≡ none → tx.hash ≢ k → Lookup.get t.all k ≡ none)
  taken-IsPool now s tx old h f free n e added =
      let l = list_of false (from sender tx) s.queue in
      let o = list_of-IsOrderly sender false (from sender tx) s.all s.queue h.queue in
      let s' : TxPool = record s { queue = put (from sender tx) (overwrite l tx) s.queue } in
      let (u, all, priced, gone, same, settled, fresh) =
        replace-Settled s' old tx h.lookup
          (IsOld-known sender false s.all s.queue (from sender tx) tx.nonce old h.queue e) f n in
      let placed : Settled s.all (entry s.queue (from sender tx) tx.nonce) tx all = rw e settled in
      (
        enqueued now s tx (overwrite l tx) all priced,
        some (elim old [ none ↦ false | some x ↦ true ]),
        enqueue_added now s u tx (overwrite l tx) old all priced added gone same,
        queued-IsPool s (enqueued now s tx (overwrite l tx) all priced) (overwrite l tx) tx h
            (overwrite-IsOrderly false l tx o) (written sender false s.queue tx) free placed refl
            refl,
        refl,
        placed.rest,
        placed.fewer,
      )

  pub enqueue_tx-IsPool :
      (now : ℕ) (s : TxPool) (tx : Transaction)
      → IsPool sender s
      → Fits s.all tx
      → entry s.pending (from sender tx) tx.nonce ≡ none
      → (t : TxPool) × (replaced : Option Bool) × (enqueue_tx sender now s tx ≡ some (t, replaced))
        × IsPool sender t
        × (t.pending ≡ s.pending)
        × ((x : Transaction)
            → Lookup.get s.all x.hash ≡ some x
            → entry s.queue (from sender tx) tx.nonce ≢ some x
            → Lookup.get t.all x.hash ≡ some x)
        × ((k : ℕ) → Lookup.get s.all k ≡ none → tx.hash ≢ k → Lookup.get t.all k ≡ none)
  enqueue_tx-IsPool now s tx h f free =
      let l = list_of false (from sender tx) s.queue in
      let same = list_of-entry false (from sender tx) tx.nonce s.queue in
      elim (add_lem l tx s.price_bump) [
        | inl (new, added, w) ↦ taken-IsPool now s tx none h f free (λ z. cc) (sym same ∙ new) added
        | inr (old, taken, inr (low, kept)) ↦ (
          record s { queue = put (from sender tx) l s.queue },
          none,
          enqueue_kept now s tx l kept,
          kept-IsPool s (from sender tx) h,
          refl,
          λ x e n. e,
          λ k e n. e,
        )
        | inr (old, taken, inl (high, bump, added, w)) ↦
            taken-IsPool now s tx (some old) h f free (dearer old tx high) (sym same ∙ taken) added
      ]
