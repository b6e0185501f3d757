-- ===== src/TxPool/Underpriced.antt =====
-- Underpriced of txPricedList: the heap of prices, and what is left at its front.
use benzene.Prelude.{
  ℕ, zero, suc, ◌+◌, ◌≤◌, ◌≡◌, refl, ◌↔◌, sym, ap, ◌∙◌, inl, inr, Bool, true, false, not, ◌&&◌,
  Option, some, List, arith, Bool-cases, Option-cases, length, get_elem?,
}
use Prim.Native.Nat.{Ordering}
use benzene.Prelude.Arrays.{get_elem?_bound, count}
use benzene.Prelude.Int.{ℤ, negsuc, ◌+ℤ◌}
use benzene.GoHeap.Order.{IsOrder, IsHeap}
use benzene.GoHeap.Ops.{Popped, pop-Popped, root_least}
use benzene.TxPool.Transaction.{Transaction, gas_price_cmp}
use benzene.TxPool.Lookup
use benzene.TxPool.Lookup.{TxLookup, AccountSet}
use benzene.TxPool.PricedList.{
  TxPricedList, price_less, is_stale, fewer_stales, clear_stales, underpriced,
}

pub price_less-IsOrder : IsOrder price_less
price_less-IsOrder = record { asym = λ x y e. ground arith; trans = λ x y z e h. ground arith }

-- A count of stale entries after so many are cleared.
abbrev pub lowered : ℤ → ℕ → ℤ
lowered stales zero = stales
lowered stales (suc n) = lowered (stales +ℤ negsuc 0) n

-- An entry that is in the lookup and passes a test.
abbrev pub is_live : TxLookup → (Transaction → Bool) → Transaction → Bool
is_live all p x = not (is_stale all x) && p x

-- What clearing leaves of a list: a heap whose first entry, if any, is in the lookup, with the entries
-- that are in the lookup as often as before, no other entry more often, and the count of stale
-- entries lower by as many as are gone.
pub record IsClear (all : TxLookup) (before after : TxPricedList) : Type 0 where
  pub heap : IsHeap price_less after.items
  pub front : (x : Transaction) → get_elem? after.items 0 ≡ some x → is_stale all x ≡ false
  pub live :
      (p : Transaction → Bool)
      → count (is_live all p) after.items ≡ count (is_live all p) before.items
  pub fewer : (p : Transaction → Bool) → count p after.items ≤ count p before.items
  pub gone :
      (n : ℕ) × (length before.items ≡ n + length after.items)
      × (after.stales ≡ lowered before.stales n)

same_head : (x y : Transaction) (o : Option Transaction) → o ≡ some x → o ≡ some y → x ≡ y
same_head x y o e f = cc

module _ (sender : Transaction → Option ℕ) where
  -- Nothing is cleared.
  uncleared :
      (all : TxLookup) (l : TxPricedList)
      → IsHeap price_less l.items
      → ((x : Transaction) → get_elem? l.items 0 ≡ some x → is_stale all x ≡ false)
      → IsClear all l l
  uncleared all l h front = record {
    heap = h;
    front = front;
    live = λ p. refl;
    fewer = λ p. omega arith;
    gone = (0, omega arith, refl);
  }

  -- One stale entry is off the front, and then others.
  cleared_more :
      (all : TxLookup) (l : TxPricedList) (x : Transaction) (rest : List Transaction)
      (after : TxPricedList)
      → Popped price_less price_less-IsOrder l.items x rest
      → is_stale all x ≡ true
      → IsClear all (record (fewer_stales l) { items = rest }) after
      → IsClear all l after
  cleared_more all l x rest after q stale c = record {
    heap = c.heap;
    front = c.front;
    live = λ p.
        let dead : is_live all p x ≡ false = ground (arith, stale) in
        let often = q.often (is_live all p) in
        let same : count (is_live all p) l.items ≡ count (is_live all p) rest =
          ground (arith, often, dead) in
        c.live p ∙ sym same;
    fewer = λ p. let often = q.often p in let less = c.fewer p in omega (arith, often, less);
    gone =
        let (n, long, lower) = c.gone in
        let one = q.long in (suc n, omega (arith, long, one), lower);
  }

  clear_stales-IsClear :
      (fuel : ℕ) (all : TxLookup) (l : TxPricedList)
      → IsHeap price_less l.items
      → length l.items ≤ fuel
      → IsClear all l (clear_stales sender fuel all l)
  unfolding clear_stales
  clear_stales-IsClear zero all l h b =
      uncleared all l h (λ x e. absurd (omega (arith, b, get_elem?_bound l.items 0 x e)))
  clear_stales-IsClear (suc fuel) all l h b = elim (Option-cases (get_elem? l.items 0)) [
    | inl e ↦ rw (e, clear_stales) (uncleared all l h (λ x f. absurd (cc)))
    | inr (head, e) ↦ elim (Bool-cases (is_stale all head)) [
      | inr live ↦
          rw (e, live, clear_stales)
            (uncleared all l h (λ x f. sym (ap (is_stale all) (same_head head x _ e f)) ∙ live))
      | inl stale ↦
          let (x, rest, took, q) =
            pop-Popped price_less price_less-IsOrder l.items h (get_elem?_bound l.items 0 head e) in
          let long = q.long in
          let same = ap (is_stale all) (same_head head x _ e q.first) in
          rw (e, stale, took, clear_stales)
            (cleared_more all l x rest _ q (sym same ∙ stale) (
              clear_stales-IsClear fuel all (record (fewer_stales l) { items = rest }) q.heap
                (omega (arith, long, b))))
    ]
  ]

  -- No entry is cheaper than the front.
  above_front :
      (tx head : Transaction) (l : TxPricedList) (i : ℕ) (x : Transaction)
      → IsHeap price_less l.items
      → get_elem? l.items 0 ≡ some head
      → get_elem? l.items i ≡ some x
      → tx.gas_price ≤ head.gas_price
      → tx.gas_price ≤ x.gas_price
  above_front tx head l i x h e f le =
      let least = root_least price_less price_less-IsOrder l.items i x head h f e in ground arith

  -- What Underpriced says of a list: no entry, of which there are some, is cheaper.
  abbrev pub IsDear : Transaction → TxPricedList → Type 0
  IsDear tx l =
      ((head : Transaction) × (get_elem? l.items 0 ≡ some head))
      × ((i : ℕ) (x : Transaction) → get_elem? l.items i ≡ some x → tx.gas_price ≤ x.gas_price)

  front-IsDear :
      (tx head : Transaction) (l : TxPricedList)
      → IsHeap price_less l.items
      → get_elem? l.items 0 ≡ some head
      → (elim (gas_price_cmp head tx) [ Ordering.lt ↦ false | _ ↦ true ]) ≡ true ↔ IsDear tx l
  front-IsDear tx head l h e = (
    λ b. ((head, e), λ i x f. above_front tx head l i x h e f (ground (arith, b))),
    λ (some_head, dear). let le = dear 0 head e in ground (arith, le),
  )

  -- On a heap of prices and a transaction of a remote account, Underpriced drops entries until the
  -- heap is empty or its front is in the lookup: only entries that are not in the lookup, each of which
  -- lowers the count of stale entries by one. It says true exactly if an entry is left and the
  -- transaction pays no more than any entry that is left.
  pub underpriced-IsDear :
      (all : TxLookup) (l : TxPricedList) (tx : Transaction) (local : AccountSet)
      → IsHeap price_less l.items
      → Lookup.contains_tx sender local tx ≡ false
      → IsClear all l (underpriced sender all l tx local).0
        × ((underpriced sender all l tx local).1 ≡ true
            ↔ IsDear tx (underpriced sender all l tx local).0)
  unfolding underpriced
  underpriced-IsDear all l tx local h remote =
      let left = clear_stales sender (length l.items) all l in
      let clear = clear_stales-IsClear (length l.items) all l h (omega arith) in
      elim (Option-cases (get_elem? left.items 0)) [
        | inl e ↦
            rw (remote, e, underpriced)
              (clear, ((λ b. absurd (cc)), λ ((head, f), dear). absurd (cc)))
        | inr (head, e) ↦
            rw (remote, e, underpriced) (clear, front-IsDear tx head left clear.heap e)
      ]
