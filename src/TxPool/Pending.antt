-- ===== src/TxPool/Pending.antt =====
-- promoteTx keeps the pool's invariant.
use benzene.Prelude.{
  ℕ, ◌+◌, ◌%◌, ◌^◌, ◌≡◌, refl, sym, ap, ◌∙◌, ◌⊎◌, inl, inr, true, false, Option, none, some, arith,
  put,
}
use benzene.TxPool.Transaction.{Transaction}
use benzene.TxPool.TxList
use benzene.TxPool.TxList.{TxList, overwrite}
use benzene.TxPool.Lookup.{TxLookup}
use benzene.TxPool.PricedList.{TxPricedList}
use benzene.TxPool.Noncer
use benzene.TxPool.Noncer.{TxNoncer}
use benzene.TxPool.Replace.{add_lem}
use benzene.TxPool.Pool.{TxPool, from, index_new, list_of, promote_tx}
use benzene.TxPool.Invariant.{entry, entry-put, IsOrderly, IsPool, Fits, Settled, replace-Settled}
use benzene.TxPool.Filed.{
  list_of-entry, overwrite-IsOrderly, list_of-IsOrderly, Writes, written-IsFiled, untouched-IsFiled,
  written-apart, written,
}

pool_inj : (s t : TxPool) → some s ≡ some t → s ≡ t
pool_inj s t e = cc

module _ (sender : Transaction → Option ℕ) where
  swap_cases : (p q : Type 0) → p ⊎ q → q ⊎ p
  swap_cases p q (inl x) = inr x
  swap_cases p q (inr x) = inl x

  -- The pool after a transaction is written to the pending lists, and nothing to the queue.
  pub pended-IsPool :
      (s t : TxPool) (l : TxList) (tx : Transaction)
      → IsPool sender s
      → IsOrderly true l
      → Writes sender s.pending tx l
      → entry s.queue (from sender tx) tx.nonce ≡ none
      → Settled s.all (entry s.pending (from sender tx) tx.nonce) tx t.all
      → t.queue ≡ s.queue
      → t.pending ≡ put (from sender tx) l s.pending
      → IsPool sender t
  pended-IsPool s t l tx h o w free r ep eq = record {
    lookup = r.lookup;
    pending = rw eq (written-IsFiled sender true s.all t.all s.pending l tx h.pending o w r);
    queue =
        rw ep (
          untouched-IsFiled sender false s.all t.all s.pending s.queue tx h.pending h.queue free r);
    apart =
        rw (ep, eq)
          (λ a n. swap_cases _ _ (
            written-apart sender s.queue s.pending l tx a n w (λ b m. swap_cases _ _ (h.apart b m))
              free));
  }

  -- The pool that promoteTx leaves when it takes a transaction.
  abbrev promoted : ℕ → TxPool → Transaction → TxList → TxLookup → TxPricedList → TxPool
  promoted now s tx l all priced = record s {
    pending = put (from sender tx) l s.pending;
    all = all;
    priced = priced;
    pending_nonces = Noncer.set s.pending_nonces (from sender tx) ((tx.nonce + 1) % 2 ^ 64);
    beats = put (from sender tx) now s.beats;
  }

  promote_added :
      (now : ℕ) (s : TxPool) (tx : Transaction) (l : TxList) (all : TxLookup)
      (priced : TxPricedList)
      → TxList.add (list_of true (from sender tx) s.pending) tx s.price_bump ≡ (l, true, none)
      → index_new (record s { pending = put (from sender tx) l s.pending }) tx
        ≡ record s { pending = put (from sender tx) l s.pending; all = all; priced = priced }
      → promote_tx sender now s (from sender tx) tx ≡ some (promoted now s tx l all priced, true)
  unfolding promote_tx
  promote_added now s tx l all priced took same =
      let e0 : (TxList.add (list_of true (from sender tx) s.pending) tx s.price_bump).0 ≡ l =
        ap (λ r. r.0) took in
      let e1 : (TxList.add (list_of true (from sender tx) s.pending) tx s.price_bump).1 ≡ true =
        ap (λ r. r.1) took in
      let e2 : (TxList.add (list_of true (from sender tx) s.pending) tx s.price_bump).2 ≡ none =
        ap (λ r. r.2) took in
      rw (e1, e2, e0, same, promote_tx) refl

  -- A transaction that the lookup has, and that neither list of its sender has under its nonce, is
  -- promoted: promoteTx does not panic, reports the promotion, keeps the pool in order and the
  -- queue as it is, and the transaction is pending.
  pub promote_tx-IsPool :
      (now : ℕ) (s : TxPool) (tx : Transaction)
      → IsPool sender s
      → Fits s.all tx
      → entry s.pending (from sender tx) tx.nonce ≡ none
      → entry s.queue (from sender tx) tx.nonce ≡ none
      → (t : TxPool) × (promote_tx sender now s (from sender tx) tx ≡ some (t, true))
        × IsPool sender t
        × (t.queue ≡ s.queue)
        × (entry t.pending (from sender tx) tx.nonce ≡ some tx)
  promote_tx-IsPool now s tx h f free queued =
      let l = list_of true (from sender tx) s.pending in
      let o = list_of-IsOrderly sender true (from sender tx) s.all s.pending h.pending in
      let same = list_of-entry true (from sender tx) tx.nonce s.pending in
      let s' : TxPool = record s { pending = put (from sender tx) (overwrite l tx) s.pending } in
      let (u, all, priced, gone, indexed, settled, fresh) =
        replace-Settled s' none tx h.lookup tt f (λ z. cc) in
      let w = written sender true s.pending tx in
      elim (add_lem l tx s.price_bump) [
        | inl (new, took, z) ↦ (
          promoted now s tx (overwrite l tx) all priced,
          promote_added now s tx (overwrite l tx) all priced took
              (ap (λ (z : TxPool). index_new z tx) (pool_inj s' u gone) ∙ indexed),
          pended-IsPool s (promoted now s tx (overwrite l tx) all priced) (overwrite l tx) tx h
              (overwrite-IsOrderly true l tx o) w queued (rw free settled) refl refl,
          refl,
          ground (
            arith,
            entry-put (from sender tx) (from sender tx) tx.nonce (overwrite l tx) s.pending,
            w tx.nonce,
          ),
        )
        | inr (old, taken, z) ↦ absurd (clash old (sym taken ∙ (same ∙ free)))
      ]
    where
      clash : (x : Transaction) → some x ≡ none → ⊥
      clash x e = cc
