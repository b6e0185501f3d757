-- ===== src/GoHeap/Up.antt =====
-- `up` mends a heap with one element that may be too small for its place.
use native.Mathlib.Decide.{ℕ_discrete}
use benzene.Prelude.{
  ℕ, zero, suc, ◌+◌, ◌≤◌, ◌<◌, ◌≡◌, ◌≢◌, refl, inl, inr, Bool, true, false, some, List, arith,
  length, get_elem?, Bool-cases, ◌==◌, if◌then◌else◌, subst, ◌∙◌,
}
use benzene.Prelude.Arrays.{swap, get_elem?-swap, get_elem?_total}
use benzene.GoHeap.{up_loop, up}
use benzene.GoHeap.Order.{
  IsOrder, less_at_lem, parent, Same, Same-refl, Same-trans, Same-swap, IsHeapFrom, Hole, Above,
  Below,
}

module _ {A : Type 0} (less : A → A → Bool) (o : IsOrder less) where
  module _ (n : ℕ) (a : List A) (i : ℕ) (v w : A) (positive : 0 < i) (ev : get_elem? a i ≡ some v)
      (ew : get_elem? a (parent i) ≡ some w) (smaller : less v w ≡ true) (hole : Hole less 0 n a i)
      (below : Below less n a i) (within : i < n) where
    at :
        (c : ℕ)
        → get_elem? (swap a (parent i) i) c
          ≡ (if i == c then some w else if parent i == c then some v else get_elem? a c)
    at = get_elem?-swap a (parent i) i w v ew ev

    -- What is known of the element above the parent.
    above_parent :
        (z : A) → 0 < parent i → get_elem? a (parent (parent i)) ≡ some z → less w z ≡ false
    above_parent z p e =
        hole.edges (parent i) w z p (omega arith) (omega arith) (omega arith) (omega arith) ew e

    raised_bridged :
        (c : ℕ) (x y : A)
        → 0 < c
        → c < n
        → parent c ≡ parent i
        → 0 < parent i
        → get_elem? (swap a (parent i) i) c ≡ some x
        → get_elem? (swap a (parent i) i) (parent (parent i)) ≡ some y
        → less x y ≡ false
    raised_bridged c x y p q e r ex ey =
        let old_y : get_elem? a (parent (parent i)) ≡ some y =
          ground (arith, at (parent (parent i))) in
        let top = above_parent y r old_y in
        elim (ℕ_discrete c i) [
          | yes here ↦
              let same : w ≡ x = ground (arith, at c) in subst (λ z. less z y ≡ false) same top
          | no other ↦
              let old_x : get_elem? a c ≡ some x = ground (arith, at c) in
              let old_w : get_elem? a (parent c) ≡ some w = rw e ew in
              let low = hole.edges c x w p q (omega arith) other (omega arith) old_x old_w in
              o.trans y w x top low
        ]

    raised-Below : Below less n (swap a (parent i) i) (parent i)
    raised-Below c x y p q e ex ey =
        let new_y : v ≡ y = ground (arith, at (parent i)) in
        let low = o.asym v w smaller in
        elim (ℕ_discrete c i) [
          | yes here ↦
              let same : w ≡ x = ground (arith, at c) in
              subst (λ z. less z y ≡ false) same (subst (λ z. less w z ≡ false) new_y low)
          | no other ↦
              let old_x : get_elem? a c ≡ some x = ground (arith, at c) in
              let old_w : get_elem? a (parent c) ≡ some w = rw e ew in
              let under = hole.edges c x w p q (omega arith) other (omega arith) old_x old_w in
              subst (λ z. less x z ≡ false) new_y (o.trans v w x low under)
        ]

    raised_edges :
        (c : ℕ) (x y : A)
        → 0 < c
        → c < n
        → c ≢ parent i
        → parent c ≢ parent i
        → get_elem? (swap a (parent i) i) c ≡ some x
        → get_elem? (swap a (parent i) i) (parent c) ≡ some y
        → less x y ≡ false
    raised_edges c x y p q e r ex ey =
        ground (arith, at c, at (parent c), hole.edges c x y, hole.bridged c x y, below c x y)

    raised : Hole less 0 n (swap a (parent i) i) (parent i)
    raised = record {
      edges = λ c x y p q l e r ex ey. raised_edges c x y p q e r ex ey;
      bridged = λ c x y p q e r l ex ey. raised_bridged c x y p q e r ex ey;
    }

  -- Where nothing is above the moving element, or it is not less, the heap is in order.
  settled :
      (n : ℕ) (a : List A) (i : ℕ)
      → Hole less 0 n a i
      → Below less n a i
      → Above less 0 a i
      → IsHeapFrom less 0 n a
  settled n a i hole below above c x y p q l ex ey = elim (ℕ_discrete c i) [
    | yes here ↦ above x y (omega arith) (omega arith) (rw here at ex) (rw here at ey)
    | no other ↦ elim (ℕ_discrete (parent c) i) [
      | yes child ↦ below c x y p q child ex (rw child at ey)
      | no apart ↦ hole.edges c x y p q l other apart ex ey
    ]
  ]

  -- The first n elements are in order, and the others are as they were.
  pub record Raised (n : ℕ) (a b : List A) : Type 0 where
    pub heap : IsHeapFrom less 0 n b
    pub same : Same b a
    pub outside : (c : ℕ) → n ≤ c → get_elem? b c ≡ get_elem? a c

  stays : (n : ℕ) (a : List A) → IsHeapFrom less 0 n a → Raised n a a
  stays n a h = record { heap = h; same = Same-refl a; outside = λ c l. refl }

  up_loop_heap :
      (fuel n : ℕ) (a : List A) (i : ℕ)
      → i < fuel
      → i < n
      → n ≤ length a
      → Hole less 0 n a i
      → Below less n a i
      → Raised n a (up_loop less fuel a i)
  unfolding up_loop
  up_loop_heap zero n a i f q l hole below = absurd (omega arith)
  up_loop_heap (suc fuel) n a i f q l hole below = elim (Bool-cases (parent i == i)) [
    | inl root ↦
        rw root (stays n a (settled n a i hole below (λ x y p le ex ey. absurd (ground arith))))
    | inr inner ↦
        let positive : 0 < i = ground arith in
        let (v, ev) = get_elem?_total a i (omega arith) in
        let (w, ew) = get_elem?_total a (parent i) (omega arith) in
        let test = less_at_lem less a i (parent i) v w ev ew in
        elim (Bool-cases (less v w)) [
          | inl smaller ↦
              let same = Same-swap a (parent i) i (omega arith) (omega arith) in
              let r =
                up_loop_heap fuel n (swap a (parent i) i) (parent i) (omega arith) (omega arith)
                  (omega (arith, same.long)) (raised n a i v w positive ev ew smaller hole below q)
                  (raised-Below n a i v w positive ev ew smaller hole below q) in
              rw (inner, test, smaller)
                (record {
                  heap = r.heap;
                  same = Same-trans r.same same;
                  outside = λ c le.
                      r.outside c le ∙ ground (arith, get_elem?-swap a (parent i) i w v ew ev c);
                })
          | inr larger ↦
              rw (inner, test, larger)
                (stays n a (settled n a i hole below (λ x y p le ex ey. ground arith)))
        ]
  ]

  -- `up` from a place under which all is in order, in the first n elements.
  pub up-Raised :
      (n : ℕ) (a : List A) (i : ℕ)
      → i < n
      → n ≤ length a
      → Hole less 0 n a i
      → Below less n a i
      → Raised n a (up less a i)
  unfolding up
  up-Raised n a i q l hole below = up_loop_heap (i + 1) n a i (omega arith) q l hole below
