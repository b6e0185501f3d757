-- ===== src/Prelude/Arrays.antt =====
-- Slices: reads, writes and swaps at an index, and the number of elements with a property.
use Prim.Native.Nat.{ℕ, zero, suc, ◌+◌, ◌<◌, ◌≤◌}
use mathlib.Core.Path.{◌≡◌, refl, ap}
use mathlib.Core.Bool.{Bool, true, false}
use mathlib.Core.List.{List, [], ◌∷◌, ◌++◌}
use mathlib.Core.Option.{none, some}
use native.Mathlib.Omega.{arith}
use benzene.Prelude.Tests.{◌==◌, if◌then◌else◌}
use benzene.Prelude.Lists.{length, get_elem?}

abbrev pub unit_if : Bool → ℕ
unit_if true = 1
unit_if false = 0

module _ {A : Type 0} where
  abbrev pub set : List A → ℕ → A → List A
  set [] i v = []
  set (x ∷ xs) zero v = v ∷ xs
  set (x ∷ xs) (suc i) v = x ∷ set xs i v

  abbrev pub take : ℕ → List A → List A
  take zero xs = []
  take (suc n) [] = []
  take (suc n) (x ∷ xs) = x ∷ take n xs

  abbrev pub drop : ℕ → List A → List A
  drop zero xs = xs
  drop (suc n) [] = []
  drop (suc n) (x ∷ xs) = drop n xs

  -- h[i], h[j] = h[j], h[i], within the bounds.
  unfoldable pub swap : List A → ℕ → ℕ → List A
  swap a i j = elim (get_elem? a i) [
    | none ↦ a
    | some x ↦ elim (get_elem? a j) [ none ↦ a | some y ↦ set (set a i y) j x ]
  ]

  -- How many elements have a property.
  abbrev pub count : (A → Bool) → List A → ℕ
  count p [] = 0
  count p (x ∷ xs) = unit_if (p x) + count p xs

  pub get_elem?_total : (a : List A) (i : ℕ) → i < length a → (x : A) × (get_elem? a i ≡ some x)
  get_elem?_total [] i h = absurd (omega arith)
  get_elem?_total (x ∷ a) zero h = (x, refl)
  get_elem?_total (x ∷ a) (suc i) h = get_elem?_total a i (omega arith)

  pub get_elem?_bound : (a : List A) (i : ℕ) (x : A) → get_elem? a i ≡ some x → i < length a
  get_elem?_bound [] i x e = absurd (cc)
  get_elem?_bound (y ∷ a) zero x e = omega arith
  get_elem?_bound (y ∷ a) (suc i) x e = omega (arith, get_elem?_bound a i x e)

  -- A write keeps the length.
  pub length-set : (i : ℕ) (written : A) (a : List A) → length a ≡ length (set a i written)
  length-set i written [] = refl
  length-set zero written (x ∷ rest) = refl
  length-set (suc i) written (x ∷ rest) = omega (arith, length-set i written rest)

  pub get_elem?-set :
      (a : List A) (i j : ℕ) (v : A)
      → i < length a
      → get_elem? (set a i v) j ≡ (if i == j then some v else get_elem? a j)
  get_elem?-set [] i j v h = absurd (omega arith)
  get_elem?-set (x ∷ a) zero zero v h = refl
  get_elem?-set (x ∷ a) zero (suc j) v h = ground arith
  get_elem?-set (x ∷ a) (suc i) zero v h = ground arith
  get_elem?-set (x ∷ a) (suc i) (suc j) v h = ground (arith, get_elem?-set a i j v)

  count-set :
      (p : A → Bool) (a : List A) (i : ℕ) (x v : A)
      → get_elem? a i ≡ some x
      → count p (set a i v) + unit_if (p x) ≡ count p a + unit_if (p v)
  count-set p [] i x v e = absurd (cc)
  count-set p (y ∷ a) zero x v e = let same : y ≡ x = cc in rw same (omega arith)
  count-set p (y ∷ a) (suc i) x v e = omega (arith, count-set p a i x v e)

  module _ (a : List A) (i j : ℕ) (x y : A) (ex : get_elem? a i ≡ some x)
      (ey : get_elem? a j ≡ some y) where
    pub swap_lem : swap a i j ≡ set (set a i y) j x
    unfolding swap
    swap_lem = rw (ex, ey, swap)

    pub length-swap : length (swap a i j) ≡ length a
    length-swap = rw (swap_lem, ← length-set j x (set a i y), ← length-set i y a)

    pub get_elem?-swap :
        (c : ℕ)
        → get_elem? (swap a i j) c
          ≡ (if j == c then some x else if i == c then some y else get_elem? a c)
    get_elem?-swap c =
        let bi = get_elem?_bound a i x ex in
        let bj = get_elem?_bound a j y ey in
        rw (
          swap_lem,
          get_elem?-set (set a i y) j c x (rw (← length-set i y a) bj),
          get_elem?-set a i c y bi,
        )

    pub count-swap : (p : A → Bool) → count p (swap a i j) ≡ count p a
    count-swap p =
        let bi = get_elem?_bound a i x ex in
        let mid : get_elem? (set a i y) j ≡ some y = rw (get_elem?-set a i j y bi) (ground arith) in
        rw swap_lem (omega (arith, count-set p (set a i y) j y x mid, count-set p a i x y ex))

  pub count-append : (p : A → Bool) (a b : List A) → count p (a ++ b) ≡ count p a + count p b
  count-append p [] b = omega arith
  count-append p (x ∷ a) b = omega (arith, count-append p a b)

  pub get_elem?-append :
      (a : List A) (v : A) (i : ℕ)
      → get_elem? (a ++ v ∷ []) i ≡ (if i == length a then some v else get_elem? a i)
  get_elem?-append [] v zero = ground arith
  get_elem?-append [] v (suc i) = ground arith
  get_elem?-append (x ∷ a) v zero = ground arith
  get_elem?-append (x ∷ a) v (suc i) = ground (arith, get_elem?-append a v i)

  pub length-take : (n : ℕ) (a : List A) → n ≤ length a → length (take n a) ≡ n
  length-take zero a h = refl
  length-take (suc n) [] h = absurd (omega arith)
  length-take (suc n) (x ∷ a) h = ap suc (length-take n a (omega arith))

  pub get_elem?-take : (n : ℕ) (a : List A) (i : ℕ) → i < n → get_elem? (take n a) i ≡ get_elem? a i
  get_elem?-take zero a i h = absurd (omega arith)
  get_elem?-take (suc n) [] i h = refl
  get_elem?-take (suc n) (x ∷ a) zero h = refl
  get_elem?-take (suc n) (x ∷ a) (suc i) h = get_elem?-take n a i (omega arith)

  -- The last element is what the others leave.
  pub count-take :
      (p : A → Bool) (n : ℕ) (a : List A) (x : A)
      → length a ≡ suc n
      → get_elem? a n ≡ some x
      → count p (take n a) + unit_if (p x) ≡ count p a
  count-take p n [] x l e = absurd (omega arith)
  count-take p zero (y ∷ []) x l e = let same : y ≡ x = cc in rw same (omega arith)
  count-take p zero (y ∷ z ∷ a) x l e = absurd (omega arith)
  count-take p (suc n) (y ∷ a) x l e = omega (arith, count-take p n a x (omega arith) e)
