-- ===== src/GoHeap/Round.antt =====
-- One round of `down`, which mends the first n elements of a heap with one element that may be too large for its place.
use native.Mathlib.Decide.{ℕ_discrete}
use benzene.Prelude.{
  ℕ, ◌+◌, ◌*◌, ◌≤◌, ◌<◌, ◌≡◌, ◌≢◌, inl, inr, Bool, true, false, ◌&&◌, some, List, arith, length,
  get_elem?, Bool-cases, ltb, ◌==◌, if◌then◌else◌, subst,
}
use benzene.Prelude.Arrays.{swap, get_elem?-swap, get_elem?_total}
use benzene.GoHeap.{less_at, child}
use benzene.GoHeap.Order.{IsOrder, less_at_lem, parent, Hole, Above}

module _ {A : Type 0} (less : A → A → Bool) (o : IsOrder less) where
  -- The child that `down` looks at is a child, and not larger than the other one.
  pub record IsChild (n : ℕ) (a : List A) (i j : ℕ) : Type 0 where
    pub within : j < n
    pub positive : 0 < j
    pub under : parent j ≡ i
    pub least :
        (c : ℕ) (x y : A)
        → 0 < c
        → c < n
        → parent c ≡ i
        → get_elem? a c ≡ some x
        → get_elem? a j ≡ some y
        → less x y ≡ false

  pub irreflexive : (x : A) → less x x ≡ false
  irreflexive x = elim (Bool-cases (less x x)) [ inl e ↦ o.asym x x e | inr e ↦ e ]

  pub child-IsChild :
      (n : ℕ) (a : List A) (i : ℕ) → 2 * i + 1 < n → n ≤ length a → IsChild n a i (child less a n i)
  unfolding child
  child-IsChild n a i h l =
      elim (Bool-cases (ltb (2 * i + 1 + 1) n && less_at less a (2 * i + 1 + 1) (2 * i + 1))) [
        | inl right ↦
            let inside : 2 * i + 1 + 1 < n = ground arith in
            let (v, ev) = get_elem?_total a (2 * i + 1 + 1) (omega arith) in
            let (w, ew) = get_elem?_total a (2 * i + 1) (omega arith) in
            let smaller : less v w ≡ true =
              ground (arith, less_at_lem less a (2 * i + 1 + 1) (2 * i + 1) v w ev ew) in
            rw (right, child)
              (record {
                within = inside;
                positive = omega arith;
                under = omega arith;
                least = λ c x y p q u ex ey. elim (ℕ_discrete c (2 * i + 1 + 1)) [
                  | yes same ↦
                      let e : x ≡ y = ground arith in
                      subst (λ z. less x z ≡ false) e (irreflexive x)
                  | no other ↦
                      let e : c ≡ 2 * i + 1 = omega arith in
                      let ex' : w ≡ x = ground arith in
                      let ey' : v ≡ y = ground arith in
                      subst (λ z. less z y ≡ false) ex'
                        (subst (λ z. less w z ≡ false) ey' (o.asym v w smaller))
                ];
              })
        | inr left ↦
            rw (left, child)
              (record {
                within = h;
                positive = omega arith;
                under = omega arith;
                least = λ c x y p q u ex ey. elim (ℕ_discrete c (2 * i + 1)) [
                  | yes same ↦
                      let e : x ≡ y = ground arith in
                      subst (λ z. less x z ≡ false) e (irreflexive x)
                  | no other ↦
                      let e : c ≡ 2 * i + 1 + 1 = omega arith in
                      let ex' : get_elem? a (2 * i + 1 + 1) ≡ some x = rw e at ex in
                      ground (arith, less_at_lem less a (2 * i + 1 + 1) (2 * i + 1) x y ex' ey)
                ];
              })
      ]

  module _ (lo n : ℕ) (a : List A) (i j : ℕ) (v w : A) (kid : IsChild n a i j)
      (ev : get_elem? a i ≡ some v) (ew : get_elem? a j ≡ some w) (larger : less w v ≡ true)
      (hole : Hole less lo n a i) (start : lo ≤ i) where
    at :
        (c : ℕ)
        → get_elem? (swap a i j) c
          ≡ (if j == c then some v else if i == c then some w else get_elem? a c)
    at = get_elem?-swap a i j v w ev ew

    -- The element that has come down is in order with the one above it.
    pub sunk-Above : Above less lo (swap a i j) j
    sunk-Above x y p l ex ey =
        let under = kid.under in
        let ex' : v ≡ x = ground (arith, at j) in
        let ey' : w ≡ y = ground (arith, at (parent j)) in
        subst (λ z. less z y ≡ false) ex' (subst (λ z. less v z ≡ false) ey' (o.asym w v larger))

    sunk_bridged :
        (c : ℕ) (x y : A)
        → 0 < c
        → c < n
        → parent c ≡ j
        → 0 < j
        → lo ≤ parent j
        → get_elem? (swap a i j) c ≡ some x
        → get_elem? (swap a i j) (parent j) ≡ some y
        → less x y ≡ false
    sunk_bridged c x y p q e r l ex ey =
        let under = kid.under in
        let ey' : w ≡ y = ground (arith, at (parent j)) in
        let ex' : get_elem? a c ≡ some x = ground (arith, at c) in
        let ew' : get_elem? a (parent c) ≡ some w = rw e ew in
        subst (λ z. less x z ≡ false) ey'
          (hole.edges c x w p q (omega arith) (omega arith) (omega arith) ex' ew')

    sunk_edges :
        (c : ℕ) (x y : A)
        → 0 < c
        → c < n
        → lo ≤ parent c
        → c ≢ j
        → parent c ≢ j
        → get_elem? (swap a i j) c ≡ some x
        → get_elem? (swap a i j) (parent c) ≡ some y
        → less x y ≡ false
    sunk_edges c x y p q l n1 n2 ex ey = elim (ℕ_discrete (parent c) i) [
      | yes under ↦
          let ex' : get_elem? a c ≡ some x = ground (arith, at c) in
          let ey' : w ≡ y = ground (arith, at (parent c)) in
          subst (λ z. less x z ≡ false) ey' (kid.least c x w p q under ex' ew)
      | no apart ↦ elim (ℕ_discrete c i) [
        | yes here ↦
            let ex' : w ≡ x = ground (arith, at c) in
            let ey' : get_elem? a (parent i) ≡ some y = ground (arith, at (parent c)) in
            subst (λ z. less z y ≡ false) ex'
              (hole.bridged j w y kid.positive kid.within kid.under (omega arith) (rw here at l) ew
                ey')
        | no other ↦
            let ex' : get_elem? a c ≡ some x = ground (arith, at c) in
            let ey' : get_elem? a (parent c) ≡ some y = ground (arith, at (parent c)) in
            hole.edges c x y p q l other apart ex' ey'
      ]
    ]

    pub sunk : Hole less lo n (swap a i j) j
    sunk = record { edges = sunk_edges; bridged = sunk_bridged }
