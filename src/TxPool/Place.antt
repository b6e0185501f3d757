-- ===== src/TxPool/Place.antt =====
-- The end of add, past the room that it makes, keeps the pool's invariant.
use benzene.Prelude.{
  ℕ, ◌≡◌, ◌≢◌, refl, sym, ap, ◌∙◌, inl, inr, Bool, true, false, not, ◌&&◌, Option, none, some,
  arith, Option-cases, Bool-cases, Dict, has, has-get?, put,
}
use benzene.TxPool.Transaction.{Transaction}
use benzene.TxPool.TxList
use benzene.TxPool.TxList.{TxList, overwrite}
use benzene.TxPool.Lookup
use benzene.TxPool.Lookup.{TxLookup}
use benzene.TxPool.PricedList.{TxPricedList}
use benzene.TxPool.Replace.{add_lem}
use benzene.TxPool.Pool.{
  TxPool, replace_underpriced, from, discard_old, index_new, index_tx, list_of, enqueue_tx,
}
use benzene.TxPool.Admit.{Added, added, rejected, replace_pending, place}
use benzene.TxPool.Enqueue.{enqueue_tx-IsPool}
use benzene.TxPool.Pending.{pended-IsPool}
use benzene.TxPool.Invariant.{entry, IsPool, replace-Settled}
use benzene.TxPool.Filed.{
  list_of-entry, overwrite-IsOrderly, dearer, list_of-IsOrderly, written, same_entry, same-IsFiled,
  IsOld-known,
}

index_tx_fresh :
    (u : TxPool) (tx : Transaction)
    → Lookup.get u.all tx.hash ≡ none
    → index_new u tx ≡ index_tx u tx
index_tx_fresh u tx e = rw (e, index_new) refl

overlaps_entry :
    (lists : Dict TxList) (addr : ℕ) (tx : Transaction)
    → TxList.overlaps (list_of true addr lists) tx
      ≡ elim (entry lists addr tx.nonce) [ none ↦ false | some x ↦ true ]
unfolding TxList.overlaps
overlaps_entry lists addr tx = rw (list_of-entry true addr tx.nonce lists, TxList.overlaps) refl

-- Where there is no list, or a list that has nothing under a nonce, nothing overlaps.
no_overlap :
    (lists : Dict TxList) (addr : ℕ) (tx : Transaction)
    → (has addr lists && TxList.overlaps (list_of true addr lists) tx) ≡ false
    → entry lists addr tx.nonce ≡ none
no_overlap lists addr tx e = elim (Option-cases (entry lists addr tx.nonce)) [
  | inl f ↦ f
  | inr (old, f) ↦ elim (Bool-cases (has addr lists)) [
    | inl yes_list ↦ absurd (ground (arith, e, yes_list, overlaps_entry lists addr tx, f))
    | inr no_list ↦ rw (has-get? addr lists no_list, entry) refl
  ]
]

overlap :
    (lists : Dict TxList) (addr : ℕ) (tx : Transaction)
    → (has addr lists && TxList.overlaps (list_of true addr lists) tx) ≡ true
    → (old : Transaction) × (entry lists addr tx.nonce ≡ some old)
overlap lists addr tx e = elim (Option-cases (entry lists addr tx.nonce)) [
  | inr found ↦ found
  | inl f ↦ absurd (ground (arith, e, overlaps_entry lists addr tx, f))
]

module _ (sender : Transaction → Option ℕ) where
  -- The pending lists have a list of the sender, which is as it was.
  kept_pending-IsPool :
      (s : TxPool) (addr : ℕ)
      → IsPool sender s
      → IsPool sender (record s { pending = put addr (list_of true addr s.pending) s.pending })
  kept_pending-IsPool s addr h = record {
    lookup = h.lookup;
    pending = same-IsFiled sender true addr s.all s.pending h.pending;
    queue = h.queue;
    apart = λ a n. elim (h.apart a n) [
      | inl e ↦ inl (same_entry sender true addr a n s.pending ∙ e)
      | inr e ↦ inr e
    ];
  }

  replace_kept :
      (now : ℕ) (s : TxPool) (l : TxList) (tx : Transaction)
      → TxList.add l tx s.price_bump ≡ (l, false, none)
      → replace_pending sender now s l tx
        ≡ some
            (record s { pending = put (from sender tx) l s.pending }, rejected replace_underpriced)
  unfolding replace_pending
  replace_kept now s l tx kept = rw (kept, replace_pending) refl

  -- The pool that a replacement leaves.
  abbrev replaced : ℕ → TxPool → Transaction → TxList → TxLookup → TxPricedList → TxPool
  replaced now s tx l all priced = record s {
    pending = put (from sender tx) l s.pending;
    all = all;
    priced = priced;
    beats = put (from sender tx) now s.beats;
  }

  replace_added :
      (now : ℕ) (s u : TxPool) (tx : Transaction) (l l' : TxList) (old : Option Transaction)
      (all : TxLookup) (priced : TxPricedList)
      → TxList.add l tx s.price_bump ≡ (l', true, old)
      → discard_old (record s { pending = put (from sender tx) l' s.pending }) old ≡ some u
      → index_tx u tx
        ≡ record s { pending = put (from sender tx) l' s.pending; all = all; priced = priced }
      → replace_pending sender now s l tx
        ≡ some (replaced now s tx l' all priced, added (elim old [ none ↦ false | some x ↦ true ]))
  unfolding replace_pending
  replace_added now s u tx l l' old all priced took gone same =
      let e0 : (TxList.add l tx s.price_bump).0 ≡ l' = ap (λ r. r.0) took in
      let e1 : (TxList.add l tx s.price_bump).1 ≡ true = ap (λ r. r.1) took in
      let e2 : (TxList.add l tx s.price_bump).2 ≡ old = ap (λ r. r.2) took in
      let put_there : TxPool = record s {
        pending = put (from sender tx) (TxList.add l tx s.price_bump).0 s.pending;
      } in
      let gone' : discard_old put_there old ≡ some u = rw e0 gone in
      rw (e1, e2, gone', e2, replace_pending)
        (ap
          (λ (z : TxPool). some (
            record z { beats = put (from sender tx) now z.beats },
            added (elim old [ none ↦ false | some x ↦ true ]),
          ))
          same)

  -- The replacement where the list takes the transaction.
  taken_pending-IsPool :
      (now : ℕ) (s : TxPool) (tx : Transaction) (old : Option Transaction)
      → IsPool sender s
      → Lookup.get s.all tx.hash ≡ none
      → entry s.queue (from sender tx) tx.nonce ≡ none
      → old ≢ some tx
      → entry s.pending (from sender tx) tx.nonce ≡ old
      → TxList.add (list_of true (from sender tx) s.pending) tx s.price_bump
        ≡ (overwrite (list_of true (from sender tx) s.pending) tx, true, old)
      → (t : TxPool) × (r : Added) × (replace_pending sender now s
            (list_of true (from sender tx) s.pending)
            tx
          ≡ some (t, r))
        × IsPool sender t
  taken_pending-IsPool now s tx old h new free n e took =
      let l = list_of true (from sender tx) s.pending in
      let o = list_of-IsOrderly sender true (from sender tx) s.all s.pending h.pending in
      let s' : TxPool = record s { pending = put (from sender tx) (overwrite l tx) s.pending } in
      let (u, all, priced, gone, same, settled, fresh) =
        replace-Settled s' old tx h.lookup
          (IsOld-known sender true s.all s.pending (from sender tx) tx.nonce old h.pending e)
          (inl new) n in
      let indexed = sym (index_tx_fresh u tx (fresh new)) ∙ same in
      (
        replaced now s tx (overwrite l tx) all priced,
        added (elim old [ none ↦ false | some x ↦ true ]),
        replace_added now s u tx l (overwrite l tx) old all priced took gone indexed,
        pended-IsPool sender s (replaced now s tx (overwrite l tx) all priced) (overwrite l tx) tx h
            (overwrite-IsOrderly true l tx o) (written sender true s.pending tx) free (rw e settled)
            refl refl,
      )

  replace_pending-IsPool :
      (now : ℕ) (s : TxPool) (tx : Transaction)
      → IsPool sender s
      → Lookup.get s.all tx.hash ≡ none
      → entry s.queue (from sender tx) tx.nonce ≡ none
      → (t : TxPool) × (r : Added) × (replace_pending sender now s
            (list_of true (from sender tx) s.pending)
            tx
          ≡ some (t, r))
        × IsPool sender t
  replace_pending-IsPool now s tx h new free =
      let l = list_of true (from sender tx) s.pending in
      let same = list_of-entry true (from sender tx) tx.nonce s.pending in
      elim (add_lem l tx s.price_bump) [
        | inl (there, took, w) ↦
            taken_pending-IsPool now s tx none h new free (λ z. cc) (sym same ∙ there) took
        | inr (old, taken, inr (low, kept)) ↦ (
          record s { pending = put (from sender tx) l s.pending },
          rejected replace_underpriced,
          replace_kept now s l tx kept,
          kept_pending-IsPool s (from sender tx) h,
        )
        | inr (old, taken, inl (high, bump, took, w)) ↦
            taken_pending-IsPool now s tx (some old) h new free (dearer old tx high)
              (sym same ∙ taken) took
      ]

  located-IsPool :
      (s : TxPool) (locals : Lookup.AccountSet)
      → IsPool sender s
      → IsPool sender (record s { locals = locals })
  located-IsPool s locals h = record {
    lookup = h.lookup;
    pending = h.pending;
    queue = h.queue;
    apart = h.apart;
  }

  -- The end of place, once the transaction is queued or turned down.
  place_queued :
      (now : ℕ) (s t : TxPool) (tx : Transaction) (local : Bool) (replaced : Option Bool)
      → (has (from sender tx) s.pending
          && TxList.overlaps (list_of true (from sender tx) s.pending) tx)
        ≡ false
      → enqueue_tx sender now s tx ≡ some (t, replaced)
      → IsPool sender t
      → (t' : TxPool) × (r : Added) × (place sender now s tx local ≡ some (t', r))
        × IsPool sender t'
  unfolding place
  place_queued now s t tx local none free e h =
      (t, rejected replace_underpriced, rw (free, e, place) refl, h)
  place_queued now s t tx local (some b) free e h =
      elim (Bool-cases (local && not (Lookup.contains t.locals (from sender tx)))) [
        | inl yes_local ↦ (
          record t { locals = Lookup.add_account t.locals (from sender tx) },
          added b,
          rw (free, e, yes_local, place) refl,
          located-IsPool t (Lookup.add_account t.locals (from sender tx)) h,
        )
        | inr remote ↦ (t, added b, rw (free, e, remote, place) refl, h)
      ]

  queue_free :
      (s : TxPool) (addr n : ℕ) (old : Transaction)
      → IsPool sender s
      → entry s.pending addr n ≡ some old
      → entry s.queue addr n ≡ none
  queue_free s addr n old h e = elim (h.apart addr n) [ inl f ↦ absurd (cc) | inr f ↦ f ]

  -- A transaction that the lookup does not have finds its place in a pool in order: add does not
  -- panic past the room that it makes, whether the transaction replaces a pending one, is queued or
  -- is turned down, and it keeps the pool in order.
  pub place-IsPool :
      (now : ℕ) (s : TxPool) (tx : Transaction) (local : Bool)
      → IsPool sender s
      → Lookup.get s.all tx.hash ≡ none
      → (t : TxPool) × (r : Added) × (place sender now s tx local ≡ some (t, r)) × IsPool sender t
  unfolding place
  place-IsPool now s tx local h new =
      elim (Bool-cases (
        has (from sender tx) s.pending
        && TxList.overlaps (list_of true (from sender tx) s.pending) tx)) [
          | inl there ↦
              let (old, e) = overlap s.pending (from sender tx) tx there in
              let (t, r, same, ok) =
                replace_pending-IsPool now s tx h new
                  (queue_free s (from sender tx) tx.nonce old h e) in
              (t, r, rw (there, place) same, ok)
          | inr free ↦
              let (t, r, same, ok, kept, rest, fewer) =
                enqueue_tx-IsPool sender now s tx h (inl new)
                  (no_overlap s.pending (from sender tx) tx free) in
              place_queued now s t tx local r free same ok
        ]
