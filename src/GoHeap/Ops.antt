-- ===== src/GoHeap/Ops.antt =====
-- heap.Push, heap.Pop and heap.Remove.
use native.Mathlib.Decide.{ℕ_discrete}
use benzene.Prelude.{
  ℕ, zero, suc, ◌+◌, ◌-◌, ◌≤◌, ◌<◌, ◌≡◌, refl, inl, inr, Bool, true, false, some, List, [], ◌∷◌,
  ◌++◌, arith, length, get_elem?, Bool-cases, ltb, ◌==◌, subst, sym, ◌∙◌, length-append,
}
use benzene.Prelude.Arrays.{
  swap, take, count, unit_if, get_elem?-swap, get_elem?_bound, get_elem?_total, get_elem?-append,
  get_elem?-take, length-take, count-take,
}
use benzene.GoHeap.{down, push, cut, pop, remove_swap, remove_at}
use benzene.GoHeap.Order.{
  IsOrder, parent, Same, Same-refl, Same-trans, Same-swap, IsHeapFrom, IsHeap, Hole,
}
use benzene.GoHeap.Up.{up-Raised}
use benzene.GoHeap.Round.{irreflexive}
use benzene.GoHeap.Down.{fallen, fallen_lem, Sunk-IsHeapFrom}

module _ {A : Type 0} (less : A → A → Bool) (o : IsOrder less) where
  -- heap.Push adds one element to a heap.
  pub push-IsHeap :
      (a : List A) (v : A)
      → IsHeap less a
      → IsHeap less (push less a v) × Same (push less a v) (a ++ v ∷ [])
  unfolding push
  push-IsHeap a v h =
      let at = get_elem?-append a v in
      let long = length-append a (v ∷ []) in
      let r =
        up-Raised less o (length (a ++ v ∷ [])) (a ++ v ∷ []) (length a) (omega arith) (omega arith)
          (record {
            edges = λ c x y p q l n1 n2 ex ey.
                h c x y p (omega arith) (omega arith) (ground (arith, at c))
                  (ground (arith, at (parent c)));
            bridged = λ c x y p q u r l ex ey. absurd (omega arith);
          })
          (λ c x y p q u ex ey. absurd (omega arith)) in
      (subst (λ n. IsHeapFrom less 0 n (push less a v)) (sym r.same.long) r.heap, r.same)

  root_least_below :
      (fuel : ℕ) (a : List A) (i : ℕ) (x y : A)
      → i < fuel
      → IsHeap less a
      → get_elem? a i ≡ some x
      → get_elem? a 0 ≡ some y
      → less x y ≡ false
  root_least_below zero a i x y f h ex ey = absurd (omega arith)
  root_least_below (suc fuel) a i x y f h ex ey = elim (ℕ_discrete i 0) [
    | yes root ↦
        let e : x ≡ y = ground arith in subst (λ z. less x z ≡ false) e (irreflexive less o x)
    | no inner ↦
        let bound = get_elem?_bound a i x ex in
        let (z, ez) = get_elem?_total a (parent i) (omega arith) in
        o.trans y z x (root_least_below fuel a (parent i) z y (omega arith) h ez ey)
          (h i x z (omega arith) bound (omega arith) ex ez)
  ]

  -- No element of a heap is less than its first.
  pub root_least :
      (a : List A) (i : ℕ) (x y : A)
      → IsHeap less a
      → get_elem? a i ≡ some x
      → get_elem? a 0 ≡ some y
      → less x y ≡ false
  root_least a i x y h ex ey = root_least_below (suc i) a i x y (omega arith) h ex ey

  -- What heap.Pop does to a heap that is not empty.
  pub record Popped (a : List A) (x : A) (b : List A) : Type 0 where
    pub first : get_elem? a 0 ≡ some x
    pub heap : IsHeap less b
    pub long : length a ≡ suc (length b)
    pub often : (p : A → Bool) → count p a ≡ unit_if (p x) + count p b

  -- The slice without its last element.
  take-IsHeap : (n : ℕ) (d : List A) → n ≤ length d → IsHeapFrom less 0 n d → IsHeap less (take n d)
  take-IsHeap n d l h c x y p q le ex ey =
      let long = length-take n d l in
      h c x y p (omega arith) le (sym (get_elem?-take n d c (omega arith)) ∙ ex)
        (sym (get_elem?-take n d (parent c) (omega arith)) ∙ ey)

  cut_lem :
      (n : ℕ) (d : List A) (x : A)
      → length d ≡ suc n
      → get_elem? d n ≡ some x
      → cut less d ≡ some (x, take n d)
  unfolding cut
  cut_lem n d x l e =
      let last : length d - 1 ≡ n = omega arith in
      let e' : get_elem? d (length d - 1) ≡ some x = rw last e in rw (e', cut) (rw last refl)

  pub pop-Popped :
      (a : List A)
      → IsHeap less a
      → 0 < length a
      → (x : A) × (b : List A) × (pop less a ≡ some (x, b)) × Popped a x b
  unfolding pop down
  pop-Popped a h some_elements =
      let n = length a - 1 in
      let (x, ex) = get_elem?_total a 0 some_elements in
      let (z, ez) = get_elem?_total a n (omega arith) in
      let at = get_elem?-swap a 0 n x z ex ez in
      let a' = swap a 0 n in
      let same = Same-swap a 0 n some_elements (omega arith) in
      let l' : length a' ≡ length a = same.long in
      let hole : Hole less 0 n a' 0 = record {
        edges = λ c u v p q l n1 n2 eu ev.
            h c u v p (omega arith) (omega arith) (ground (arith, at c))
              (ground (arith, at (parent c)));
        bridged = λ c u v p q e r l eu ev. absurd (omega arith);
      } in
      let s = fallen_lem less o 0 n a' 0 (omega arith) (omega arith) (omega arith) hole in
      let heap = Sunk-IsHeapFrom less o 0 n a' 0 _ hole (λ u v p l eu ev. absurd (omega arith)) s in
      let d = (fallen less o n a' 0).0 in
      let same' = Same-trans s.same same in
      let long : length d ≡ suc n = omega (arith, same'.long) in
      let last : get_elem? d n ≡ some x = s.outside n (omega arith) ∙ ground (arith, at n) in
      (
        x,
        take n d,
        cut_lem n d x long last,
        record {
          first = ex;
          heap = take-IsHeap n d (omega arith) heap;
          long = omega (arith, length-take n d (omega arith));
          often = λ p. omega (arith, same'.often p, count-take p n d x long last);
        },
      )

  -- After the swap of Remove, the first n elements have a hole at `i`.
  removed-Hole :
      (a : List A) (n i : ℕ) (x z : A)
      → IsHeap less a
      → length a ≡ suc n
      → i < n
      → get_elem? a i ≡ some x
      → get_elem? a n ≡ some z
      → Hole less 0 n (swap a i n) i
  removed-Hole a n i x z h l q ex ez =
      let at = get_elem?-swap a i n x z ex ez in
      record {
        edges = λ c u v p r le n1 n2 eu ev.
            h c u v p (omega arith) le (ground (arith, at c)) (ground (arith, at (parent c)));
        bridged = λ c u v p r e pos le eu ev.
            let eu' : get_elem? a c ≡ some u = ground (arith, at c) in
            let ev' : get_elem? a (parent i) ≡ some v = ground (arith, at (parent i)) in
            let ex' : get_elem? a (parent c) ≡ some x = rw e ex in
            o.trans v x u (h i x v pos (omega arith) le ex ev')
              (h c u x p (omega arith) (omega arith) eu' ex');
      }

  -- What the swap and the two sifts of Remove leave: the removed element last, the others in order.
  pub record Removed (n : ℕ) (a : List A) (x : A) (d : List A) : Type 0 where
    pub heap : IsHeapFrom less 0 n d
    pub same : Same d a
    pub last : get_elem? d n ≡ some x

  remove_swap-Removed :
      (a : List A) (n i : ℕ) (x : A)
      → IsHeap less a
      → length a ≡ suc n
      → i ≤ n
      → get_elem? a i ≡ some x
      → Removed n a x (remove_swap less a i n)
  unfolding remove_swap down
  remove_swap-Removed a n i x h l q ex = elim (Bool-cases (n == i)) [
    | inl here ↦
        let e : i ≡ n = ground arith in
        rw (here, remove_swap)
          (record {
            heap = λ c u v p r le eu ev. h c u v p (omega arith) le eu ev;
            same = Same-refl a;
            last = rw e at ex;
          })
    | inr other ↦
        let inside : i < n = ground arith in
        let (z, ez) = get_elem?_total a n (omega arith) in
        let at = get_elem?-swap a i n x z ex ez in
        let a' = swap a i n in
        let same = Same-swap a i n (omega arith) (omega arith) in
        let long = same.long in
        let hole = removed-Hole a n i x z h l inside ex ez in
        let s = fallen_lem less o 0 n a' i (omega arith) (omega arith) (omega arith) hole in
        let last : get_elem? a' n ≡ some x = ground (arith, at n) in
        elim s.ended [
          | inl (moved, heap) ↦
              let test : ltb i (fallen less o n a' i).1 ≡ true = ground arith in
              rw (other, test, remove_swap)
                (record {
                  heap = heap;
                  same = Same-trans s.same same;
                  last = s.outside n (omega arith) ∙ last;
                })
          | inr (still, kept, below) ↦
              let test : ltb i (fallen less o n a' i).1 ≡ false = ground arith in
              let r = up-Raised less o n a' i inside (omega arith) hole below in
              rw (other, test, kept, remove_swap)
                (record {
                  heap = r.heap;
                  same = Same-trans r.same same;
                  last = r.outside n (omega arith) ∙ last;
                })
        ]
  ]

  -- heap.Remove takes exactly the element at the index out of a heap.
  pub remove_at-IsHeap :
      (a : List A) (i : ℕ) (x : A)
      → IsHeap less a
      → get_elem? a i ≡ some x
      → IsHeap less (remove_at less a i)
        × (length a ≡ suc (length (remove_at less a i)))
        × ((p : A → Bool) → count p a ≡ unit_if (p x) + count p (remove_at less a i))
  unfolding remove_at
  remove_at-IsHeap a i x h ex =
      let n = length a - 1 in
      let bound = get_elem?_bound a i x ex in
      let r = remove_swap-Removed a n i x h (omega arith) (omega arith) ex in
      let d = remove_swap less a i n in
      let same = r.same in
      let long = same.long in
      (
        take-IsHeap n d (omega arith) r.heap,
        omega (arith, length-take n d (omega arith)),
        λ p. omega (arith, same.often p, count-take p n d x (omega arith) r.last),
      )
