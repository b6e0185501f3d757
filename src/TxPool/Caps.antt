-- ===== src/TxPool/Caps.antt =====
-- The cost and gas caps of a txList, which let Filter return at once.
use benzene.Prelude.{
  ℕ, ◌-◌, ◌^◌, ◌||◌, All, ap, ◌<◌, ◌≤◌, ◌≡◌, ◌∙◌, refl, sym, Bool, true, false, not, ◌&&◌, List, [],
  ◌∷◌, arith, Bool-cases, Option-cases, Dict, put, keep, values, select, ltb, leb, ◌==◌,
  if◌then◌else◌, inl, inr,
}
use benzene.TxPool.Transaction.{Transaction, cost}
use benzene.TxPool.SortedMap
use benzene.TxPool.SortedMap.{TxSortedMap}
use benzene.TxPool.TxList.{
  TxList, add, is_better, overwrite, exceeds, filter, filter_exceeding, lowest_nonce,
}

-- Every transaction costs at most `c` and has at most `g` gas.
abbrev pub AreUnder : ℕ → ℕ → Dict Transaction → Type 0
AreUnder c g [] = Unit {0}
AreUnder c g ((n, tx) ∷ m) = (cost tx ≤ c) × (tx.gas ≤ g) × AreUnder c g m

abbrev pub IsCapped : TxList → Type 0
IsCapped l = AreUnder l.costcap l.gascap l.txs.items

AreUnder-weaken :
    (c g c' g' : ℕ) (m : Dict Transaction) → c ≤ c' → g ≤ g' → AreUnder c g m → AreUnder c' g' m
AreUnder-weaken c g c' g' [] hc hg u = tt
AreUnder-weaken c g c' g' ((n, tx) ∷ m) hc hg (a, b, u) =
    (omega (arith, a), omega (arith, b), AreUnder-weaken c g c' g' m hc hg u)

AreUnder-put :
    (c g n : ℕ) (tx : Transaction) (m : Dict Transaction)
    → cost tx ≤ c
    → tx.gas ≤ g
    → AreUnder c g m
    → AreUnder c g (put n tx m)
AreUnder-put c g n tx [] h1 h2 u = (h1, h2, tt)
AreUnder-put c g n tx ((j, x) ∷ m) h1 h2 (a, b, u) = elim (Bool-cases (j == n)) [
  | inl here ↦ rw here (h1, h2, u)
  | inr there ↦ rw there (a, b, AreUnder-put c g n tx m h1 h2 u)
]

pub AreUnder-keep :
    (c g : ℕ) (p : ℕ → Transaction → Bool) (m : Dict Transaction)
    → AreUnder c g m
    → AreUnder c g (keep p m)
AreUnder-keep c g p [] u = tt
AreUnder-keep c g p ((j, x) ∷ m) (a, b, u) = elim (Bool-cases (p j x)) [
  | inl kept ↦ rw kept (a, b, AreUnder-keep c g p m u)
  | inr dropped ↦ rw dropped (AreUnder-keep c g p m u)
]

AreUnder-rest :
    (c g : ℕ) (m : Dict Transaction) → AreUnder c g (keep (λ n tx. not (exceeds c g tx)) m)
AreUnder-rest c g [] = tt
AreUnder-rest c g ((j, x) ∷ m) = elim (Bool-cases (exceeds c g x)) [
  | inl dear ↦ rw dear (AreUnder-rest c g m)
  | inr cheap ↦ rw cheap (ground arith, ground arith, AreUnder-rest c g m)
]

none_exceed :
    (c g : ℕ) (m : Dict Transaction) → AreUnder c g m → select (exceeds c g) (values m) ≡ []
none_exceed c g [] u = refl
none_exceed c g ((j, x) ∷ m) (a, b, u) =
    let small : exceeds c g x ≡ false = ground arith in rw small (none_exceed c g m u)

pub overwrite-IsCapped : (l : TxList) (tx : Transaction) → IsCapped l → IsCapped (overwrite l tx)
unfolding overwrite SortedMap.insert
overwrite-IsCapped l tx h =
    let c = if ltb l.costcap (cost tx) then cost tx else l.costcap in
    let g = if ltb l.gascap tx.gas then tx.gas else l.gascap in
    AreUnder-put c g tx.nonce tx l.txs.items (ground arith) (ground arith)
      (AreUnder-weaken l.costcap l.gascap c g l.txs.items (ground arith) (ground arith) h)

-- Add keeps the caps above what the list has.
add-IsCapped :
    (l : TxList) (tx : Transaction) (price_bump : ℕ) → IsCapped l → IsCapped (add l tx price_bump).0
unfolding add
add-IsCapped l tx price_bump h = elim (Option-cases (SortedMap.get l.txs tx.nonce)) [
  | inl free ↦ rw (free, add) (overwrite-IsCapped l tx h)
  | inr (old, taken) ↦ elim (Bool-cases (is_better old tx price_bump)) [
    | inl kept ↦ rw (taken, kept, add) h
    | inr replaced ↦ rw (taken, replaced, add) (overwrite-IsCapped l tx h)
  ]
]

is_empty-nil : (xs : List Transaction) → SortedMap.is_empty xs ≡ true → xs ≡ []
is_empty-nil [] e = refl
is_empty-nil (x ∷ xs) e = cc

-- What SortedMap.filter and filter_items leave and return.
pub filter_items_of :
    (m : TxSortedMap) (f : Transaction → Bool)
    → ((SortedMap.filter m f).0.items ≡ keep (λ n tx. not (f tx)) m.items)
      × ((SortedMap.filter m f).1 ≡ select f (values m.items))
unfolding SortedMap.filter SortedMap.filter_items SortedMap.reheap
filter_items_of m f = elim (Bool-cases (SortedMap.is_empty (select f (values m.items)))) [
  | inl nothing ↦ (rw nothing refl, refl)
  | inr something ↦ (rw something refl, refl)
]

-- Does one of some transactions have a lower nonce?
abbrev pub any_below : List Transaction → ℕ → Bool
any_below [] n = false
any_below (tx ∷ txs) n = ltb tx.nonce n || any_below txs n

lowest_lem :
    (lowest n : ℕ) (txs : List Transaction)
    → ltb (lowest_nonce lowest txs) n ≡ (ltb lowest n || any_below txs n)
unfolding lowest_nonce
lowest_lem lowest n [] = ground arith
lowest_lem lowest n (tx ∷ txs) =
    let ih = lowest_lem (if ltb tx.nonce lowest then tx.nonce else lowest) n txs in
    ground (arith, ih)

-- Every nonce is a number of 64 bits.
abbrev pub AreWords : Dict Transaction → Type 0
AreWords m = All (λ tx. tx.nonce < 2 ^ 64) (values m)

-- What is overtaken in a strict list: a transaction behind one that is removed.
abbrev pub overtaken : Bool → List Transaction → Transaction → Bool
overtaken strict removed tx = strict && any_below removed tx.nonce

module _ (e o : Transaction → Bool) where
  -- What exceeds goes, and what is overtaken with it, in two steps or in one.
  keep_twice :
      (q : Transaction → Bool) (m : Dict Transaction)
      → All (λ tx. q tx ≡ o tx) (values m)
      → (keep (λ n tx. not (q tx)) (keep (λ n tx. not (e tx)) m)
          ≡ keep (λ n tx. not (e tx) && not (o tx)) m)
        × (select q (values (keep (λ n tx. not (e tx)) m))
            ≡ select (λ tx. not (e tx) && o tx) (values m))
  keep_twice q [] h = (refl, refl)
  keep_twice q ((j, x) ∷ m) (same, h) =
      let (ih, ih') = keep_twice q m h in
      elim (Bool-cases (e x)) [
        | inl dear ↦ (rw (dear, ih) refl, rw (dear, ih') refl)
        | inr cheap ↦ elim (Bool-cases (o x)) [
          | inl gone ↦
              let out : q x ≡ true = same ∙ gone in
              (rw (cheap, gone, out, ih) refl, rw (cheap, gone, out, ih') refl)
          | inr stays ↦
              let in_place : q x ≡ false = same ∙ stays in
              (rw (cheap, stays, in_place, ih) refl, rw (cheap, stays, in_place, ih') refl)
        ]
      ]

  -- Nothing is overtaken.
  keep_once :
      (m : Dict Transaction)
      → ((tx : Transaction) → o tx ≡ false)
      → (keep (λ n tx. not (e tx)) m ≡ keep (λ n tx. not (e tx) && not (o tx)) m)
        × ([] ≡ select (λ tx. not (e tx) && o tx) (values m))
  keep_once [] h = (refl, refl)
  keep_once ((j, x) ∷ m) h =
      let (ih, ih') = keep_once m h in
      let stays = h x in
      elim (Bool-cases (e x)) [
        | inl dear ↦ (rw (dear, ← ih) refl, rw (dear, ← ih') refl)
        | inr cheap ↦ (rw (cheap, stays, ← ih) refl, rw (cheap, stays, ← ih') refl)
      ]

keep_under :
    (c g : ℕ) (m : Dict Transaction) → AreUnder c g m → keep (λ n tx. not (exceeds c g tx)) m ≡ m
keep_under c g [] u = refl
keep_under c g ((j, x) ∷ m) (a, b, u) =
    let small : exceeds c g x ≡ false = ground arith in rw (small, keep_under c g m u) refl

-- The lowest nonce that is removed tells what is overtaken.
lowest_overtaken :
    (removed : List Transaction) (m : Dict Transaction)
    → AreWords m
    → All
        (λ tx. ltb (lowest_nonce (2 ^ 64 - 1) removed) tx.nonce ≡ overtaken true removed tx)
        (values m)
lowest_overtaken removed [] w = tt
lowest_overtaken removed ((j, x) ∷ m) (word, w) =
    let low : ltb (2 ^ 64 - 1) x.nonce ≡ false = ground (arith, word) in
    (lowest_lem (2 ^ 64 - 1) x.nonce removed ∙ rw low refl, lowest_overtaken removed m w)

-- What Filter leaves and returns. What exceeds the limits is removed; of the rest what is overtaken
-- is returned as invalid, and the others stay, under the limits and the caps.
abbrev pub Filtered : TxList → ℕ → ℕ → TxList × List Transaction × List Transaction → Type 0
Filtered l c g (l', removed, invalids) =
    IsCapped l'
    × AreUnder c g l'.txs.items
    × (removed ≡ select (exceeds c g) (values l.txs.items))
    × (l'.txs.items
        ≡ keep (λ n tx. not (exceeds c g tx) && not (overtaken l.strict removed tx)) l.txs.items)
    × (invalids
        ≡ select (λ tx. not (exceeds c g tx) && overtaken l.strict removed tx) (values l.txs.items))

none_overtaken : (strict : Bool) (tx : Transaction) → overtaken strict [] tx ≡ false
none_overtaken true tx = refl
none_overtaken false tx = refl

exceeding-Filtered :
    (l : TxList) (c g : ℕ)
    → AreWords l.txs.items
    → l.costcap ≡ c
    → l.gascap ≡ g
    → Filtered l c g (filter_exceeding l c g)
unfolding filter_exceeding SortedMap.filter_items SortedMap.reheap
exceeding-Filtered l c g w ec eg =
    let (items, removed) = filter_items_of l.txs (exceeds c g) in
    let gone = (SortedMap.filter l.txs (exceeds c g)).1 in
    let left : AreUnder c g (SortedMap.filter l.txs (exceeds c g)).0.items =
      rw items (AreUnder-rest c g l.txs.items) in
    let capped : AreUnder l.costcap l.gascap (SortedMap.filter l.txs (exceeds c g)).0.items =
      rw (ec, eg) left in
    elim (Bool-cases (SortedMap.is_empty gone)) [
      | inl nothing ↦
          let none_gone = is_empty-nil gone nothing in
          let once =
            keep_once (exceeds c g) (overtaken l.strict []) l.txs.items (none_overtaken l.strict) in
          rw (nothing, filter_exceeding)
            (capped, left, sym none_gone ∙ removed, items ∙ once.0, once.1)
      | inr something ↦ elim (Bool-cases l.strict) [
        | inr loose ↦
            let once = keep_once (exceeds c g) (overtaken false gone) l.txs.items (λ tx. refl) in
            rw (something, loose, filter_exceeding) (capped, left, removed, items ∙ once.0, once.1)
        | inl strict ↦
            let twice =
              keep_twice (exceeds c g) (overtaken true gone)
                (λ tx. ltb (lowest_nonce (2 ^ 64 - 1) gone) tx.nonce) l.txs.items
                (lowest_overtaken gone l.txs.items w) in
            rw (something, strict, filter_exceeding)
              (
                AreUnder-keep l.costcap l.gascap _ _ capped,
                AreUnder-keep c g _ _ left,
                removed,
                ap (keep (λ n tx. not (ltb (lowest_nonce (2 ^ 64 - 1) gone) tx.nonce))) items
                    ∙ twice.0,
                ap (λ x. select (λ tx. ltb (lowest_nonce (2 ^ 64 - 1) gone) tx.nonce) (values x))
                      items
                    ∙ twice.1,
              )
      ]
    ]

-- In a list whose caps hold and whose nonces have 64 bits, Filter removes exactly the transactions
-- whose cost or gas exceeds the limits, also where it returns at once. In a strict list the others
-- with a nonce above one that is removed are returned as invalid; a list that is not strict has none.
-- All other transactions stay, and no more, under the limits and the list's caps.
pub filter-Filtered :
    (l : TxList) (cost_limit gas_limit : ℕ)
    → IsCapped l
    → AreWords l.txs.items
    → Filtered l cost_limit gas_limit (filter l cost_limit gas_limit)
unfolding filter
filter-Filtered l c g h w = elim (Bool-cases (leb l.costcap c && leb l.gascap g)) [
  | inl short ↦
      let under =
        AreUnder-weaken l.costcap l.gascap c g l.txs.items (ground arith) (ground arith) h in
      let once =
        keep_once (exceeds c g) (overtaken l.strict []) l.txs.items (none_overtaken l.strict) in
      rw (short, filter)
        (
          h,
          under,
          sym (none_exceed c g l.txs.items under),
          sym (keep_under c g l.txs.items under) ∙ once.0,
          once.1,
        )
  | inr long ↦
      rw (long, filter) (exceeding-Filtered (record l { costcap = c; gascap = g }) c g w refl refl)
]
