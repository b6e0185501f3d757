-- ===== src/GoHeap/Down.antt =====
-- `down` mends the first n elements of a heap with one element that may be too large for its place.
use native.Mathlib.Decide.{ℕ_discrete}
use benzene.Prelude.{
  ℕ, zero, suc, ◌+◌, ◌*◌, ◌/◌, ◌≤◌, ◌<◌, ◌≡◌, refl, ◌⊎◌, inl, inr, Bool, false, List, arith, length,
  get_elem?, Bool-cases, leb, subst, sym, ◌∙◌,
}
use benzene.Prelude.Arrays.{swap, get_elem?-swap, get_elem?_total}
use benzene.GoHeap.{child, down_loop, down, init_loop, init}
use benzene.GoHeap.Order.{
  IsOrder, less_at_lem, parent, Same, Same-refl, Same-trans, Same-swap, IsHeapFrom, IsHeap, Hole,
  Above, Below,
}
use benzene.GoHeap.Round.{IsChild, child-IsChild, sunk, sunk-Above}

module _ {A : Type 0} (less : A → A → Bool) (o : IsOrder less) where
  -- What `down` comes to: the element sank and all is in order, or it stayed and nothing below it
  -- is less.
  pub record Sunk (lo n : ℕ) (a : List A) (i : ℕ) (r : List A × ℕ) : Type 0 where
    pub same : Same r.0 a
    pub outside : (c : ℕ) → n ≤ c → get_elem? r.0 c ≡ get_elem? a c
    pub later : i ≤ r.1
    pub ended : ((i < r.1) × IsHeapFrom less lo n r.0) ⊎ ((r.1 ≡ i) × (r.0 ≡ a) × Below less n a i)

  pub settled :
      (lo n : ℕ) (a : List A) (i : ℕ)
      → Hole less lo n a i
      → Above less lo a i
      → Below less n a i
      → IsHeapFrom less lo n a
  settled lo n a i hole above below c x y p q l ex ey = elim (ℕ_discrete c i) [
    | yes here ↦ above x y (omega arith) (rw here at l) (rw here at ex) (rw here at ey)
    | no other ↦ elim (ℕ_discrete (parent c) i) [
      | yes child ↦ below c x y p q child ex (rw child at ey)
      | no apart ↦ hole.edges c x y p q l other apart ex ey
    ]
  ]

  stays : (lo n : ℕ) (a : List A) (i : ℕ) → Below less n a i → Sunk lo n a i (a, i)
  stays lo n a i below = record {
    same = Same-refl a;
    outside = λ c l. refl;
    later = omega arith;
    ended = inr (refl, refl, below);
  }

  -- In order, if the moving element was in order with the one above it.
  pub Sunk-IsHeapFrom :
      (lo n : ℕ) (a : List A) (i : ℕ) (r : List A × ℕ)
      → Hole less lo n a i
      → Above less lo a i
      → Sunk lo n a i r
      → IsHeapFrom less lo n r.0
  Sunk-IsHeapFrom lo n a i r hole above s = elim s.ended [
    | inl (moved, heap) ↦ heap
    | inr (still, e, below) ↦
        subst (IsHeapFrom less lo n) (sym e) (settled lo n a i hole above below)
  ]

  down_loop_lem :
      (lo fuel n : ℕ) (a : List A) (i : ℕ)
      → n ≤ fuel + i
      → n ≤ length a
      → lo ≤ i
      → i < length a
      → Hole less lo n a i
      → Sunk lo n a i (down_loop less fuel a n i)
  unfolding down_loop
  down_loop_lem lo zero n a i f l start q hole =
      stays lo n a i (λ c x y p r u ex ey. absurd (omega arith))
  down_loop_lem lo (suc fuel) n a i f l start q hole = elim (Bool-cases (leb n (2 * i + 1))) [
    | inl leaf ↦ rw leaf (stays lo n a i (λ c x y p r u ex ey. absurd (ground arith)))
    | inr inner ↦
        let j = child less a n i in
        let kid : IsChild less o n a i j = child-IsChild less o n a i (ground arith) l in
        let within = kid.within in
        let under = kid.under in
        let (v, ev) = get_elem?_total a i q in
        let (w, ew) = get_elem?_total a j (omega arith) in
        let test = less_at_lem less a j i w v ew ev in
        elim (Bool-cases (less w v)) [
          | inr fits ↦
              rw (inner, test, fits)
                (stays lo n a i (λ c x y p r u ex ey.
                  let e : v ≡ y = ground arith in
                  subst (λ z. less x z ≡ false) e
                    (o.trans v w x fits (kid.least c x w p r u ex ew))))
          | inl larger ↦
              let same = Same-swap a i j q (omega arith) in
              let long = same.long in
              let hole' = sunk less o lo n a i j v w kid ev ew larger hole start in
              let above' = sunk-Above less o lo n a i j v w kid ev ew larger hole start in
              let s =
                down_loop_lem lo fuel n (swap a i j) j (omega (arith, kid.positive)) (omega arith)
                  (omega (arith, kid.positive)) (omega arith) hole' in
              rw (inner, test, larger)
                (record {
                  same = Same-trans s.same same;
                  outside =
                      λ c le. s.outside c le ∙ ground (arith, get_elem?-swap a i j v w ev ew c);
                  later = omega (arith, s.later, kid.positive);
                  ended = inl (
                    omega (arith, s.later, kid.positive),
                    Sunk-IsHeapFrom lo n (swap a i j) j _ hole' above' s,
                  );
                })
        ]
  ]

  -- `down` from the index `i` on the first n elements.
  abbrev pub fallen : ℕ → List A → ℕ → List A × ℕ
  fallen n a i = down_loop less n a n i

  pub fallen_lem :
      (lo n : ℕ) (a : List A) (i : ℕ)
      → n ≤ length a
      → lo ≤ i
      → i < length a
      → Hole less lo n a i
      → Sunk lo n a i (fallen n a i)
  fallen_lem lo n a i l start q hole = down_loop_lem lo n n a i (omega arith) l start q hole

  -- Init orders any slice: the round for `i` extends the order from `i + 1` to `i`.
  init_loop_lem :
      (i : ℕ) (a : List A)
      → 2 * i ≤ length a
      → IsHeapFrom less i (length a) a
      → IsHeap less (init_loop less i a) × Same (init_loop less i a) a
  unfolding init_loop down
  init_loop_lem zero a l h = (h, Same-refl a)
  init_loop_lem (suc i) a l h =
      let hole : Hole less i (length a) a i = record {
        edges = λ c x y p q le n1 n2 ex ey. h c x y p q (omega arith) ex ey;
        bridged = λ c x y p q u pos le ex ey. absurd (omega arith);
      } in
      let s = fallen_lem i (length a) a i (omega arith) (omega arith) (omega arith) hole in
      let heap =
        Sunk-IsHeapFrom i (length a) a i _ hole (λ x y p le ex ey. absurd (omega arith)) s in
      let same = s.same in
      let long = same.long in
      let (heap', same') =
        init_loop_lem i (fallen (length a) a i).0 (omega arith)
          (subst (λ n. IsHeapFrom less i n (fallen (length a) a i).0) (sym long) heap) in
      (heap', Same-trans same' same)

  -- Init makes a heap of the elements of any slice.
  pub init-IsHeap : (a : List A) → IsHeap less (init less a) × Same (init less a) a
  unfolding init
  init-IsHeap a =
      init_loop_lem (length a / 2) a (omega arith) (λ c x y p q le ex ey. absurd (omega arith))
