-- ===== src/TxPool/AddTx.antt =====
-- add of TxPool keeps the pool's invariant.
use benzene.Prelude.{
  ℕ, ◌+◌, ◌≤◌, ◌≡◌, refl, ◌⊎◌, inl, inr, Bool, true, false, not, ◌&&◌, Option, none, some, List, [],
  ◌∷◌, arith, Bool-cases, Option-cases, leb, if◌then◌else◌,
}
use benzene.Prelude.Int.{sub_ℕ}
use benzene.TxPool.Transaction.{Transaction}
use benzene.TxPool.Lookup
use benzene.TxPool.Lookup.{num_slots}
use benzene.TxPool.PricedList
use benzene.TxPool.PricedList.{TxPricedList}
use benzene.TxPool.Pool.{TxPool, already_known, underpriced, global_limit, validate_tx}
use benzene.TxPool.Admit.{Added, rejected, remove_all, make_room, add}
use benzene.TxPool.Invariant.{IsPool, NoNew}
use benzene.TxPool.RemoveTx.{remove_tx-IsPool}
use benzene.TxPool.Place.{place-IsPool}

module _ (sender : Transaction → Option ℕ) where
  remove_all-IsPool :
      (now : ℕ) (s : TxPool) (txs : List Transaction)
      → IsPool sender s
      → (t : TxPool) × (remove_all sender now s txs ≡ some t) × IsPool sender t × NoNew s.all t.all
  unfolding remove_all
  remove_all-IsPool now s [] h = (s, refl, h, λ k e. e)
  remove_all-IsPool now s (tx ∷ txs) h =
      let (t, one, ok, old) = remove_tx-IsPool sender now s tx.hash false h in
      let (u, more, ok', old') = remove_all-IsPool now t txs ok in
      (u, rw (one, remove_all) more, ok', λ k e. old' k (old k e))

  repriced-IsPool :
      (s : TxPool) (priced : TxPricedList)
      → IsPool sender s
      → IsPool sender (record s { priced = priced })
  repriced-IsPool s priced h = record {
    lookup = h.lookup;
    pending = h.pending;
    queue = h.queue;
    apart = h.apart;
  }

  -- The price list that add looks at in a full pool.
  abbrev pub checked_list : TxPool → Transaction → Bool → TxPricedList
  checked_list s tx local =
      if local then s.priced else (PricedList.underpriced sender s.all s.priced tx s.locals).0

  -- Discard panics in a full pool.
  abbrev pub IsOverfull : TxPool → Transaction → Bool → Type 0
  IsOverfull s tx local =
      (global_limit s ≤ Lookup.count s.all)
      × (PricedList.discard sender s.all (checked_list s tx local)
            (sub_ℕ (s.all.slots + num_slots tx) (global_limit s)) s.locals
          ≡ none)

  make_room-IsPool :
      (now : ℕ) (s : TxPool) (tx : Transaction) (local : Bool)
      → IsPool sender s
      → IsOverfull s tx local
        ⊎ ((t : TxPool) × (b : Bool) × (make_room sender now s tx local ≡ some (t, b))
            × IsPool sender t
            × NoNew s.all t.all)
  unfolding make_room
  make_room-IsPool now s tx local h =
      let checked = (PricedList.underpriced sender s.all s.priced tx s.locals).0 in
      let cheap = (PricedList.underpriced sender s.all s.priced tx s.locals).1 in
      elim (Bool-cases (leb (global_limit s) (Lookup.count s.all))) [
        | inr room ↦ inr (s, true, rw (room, make_room) refl, h, λ k e. e)
        | inl full ↦ elim (Bool-cases (not local && cheap)) [
          | inl poor ↦ inr (
            record s { priced = checked },
            false,
            rw (full, poor, make_room) refl,
            repriced-IsPool s checked h,
            λ k e. e,
          )
          | inr rich ↦
              elim (Option-cases (
                PricedList.discard sender s.all (checked_list s tx local)
                  (sub_ℕ (s.all.slots + num_slots tx) (global_limit s)) s.locals)) [
                    | inl panics ↦ inl (ground (arith, full), panics)
                    | inr ((left, drop), dropped) ↦
                        let (t, gone, ok, old) =
                          remove_all-IsPool now (record s { priced = left }) drop
                            (repriced-IsPool s left h) in
                        inr (t, true, rw (full, rich, dropped, gone, make_room) refl, ok, old)
                  ]
        ]
      ]

  -- add keeps a pool in order, whatever it says of the transaction. It panics at most where the
  -- pool is full and Discard of the price list panics.
  pub add-IsPool :
      (now : ℕ) (s : TxPool) (tx : Transaction) (local : Bool)
      → IsPool sender s
      → IsOverfull s tx local
        ⊎ ((t : TxPool) × (r : Added) × (add sender now s tx local ≡ some (t, r)) × IsPool sender t)
  unfolding add
  add-IsPool now s tx local h = elim (Option-cases (Lookup.get s.all tx.hash)) [
    | inr (x, known) ↦ inr (s, rejected already_known, rw (known, add) refl, h)
    | inl new ↦ elim (Option-cases (validate_tx sender s tx local)) [
      | inr (e, invalid) ↦ inr (s, rejected e, rw (new, invalid, add) refl, h)
      | inl valid ↦ elim (make_room-IsPool now s tx local h) [
        | inl panics ↦ inl panics
        | inr (u, false, made, ok, old) ↦
            inr (u, rejected underpriced, rw (new, valid, made, add) refl, ok)
        | inr (u, true, made, ok, old) ↦
            let (t, r, placed, ok') = place-IsPool sender now u tx local ok (old tx.hash new) in
            inr (t, r, rw (new, valid, made, add) placed, ok')
      ]
    ]
  ]
