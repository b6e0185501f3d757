-- ===== src/GoHeap/Order.antt =====
-- The heap order, with a hole where an element moves.
use benzene.Prelude.{
  ℕ, ◌-◌, ◌/◌, ◌≤◌, ◌<◌, ◌≡◌, ◌≢◌, refl, Bool, true, false, some, List, arith, length, get_elem?,
}
use benzene.GoHeap.{less_at}
use benzene.Prelude.Arrays.{swap, get_elem?_total, count, length-swap, count-swap}

-- What sorting wants of Less: it is asymmetric, and "not less" is transitive.
pub record IsOrder {A : Type 0} (less : A → A → Bool) : Type 0 where
  pub asym : (x y : A) → less x y ≡ true → less y x ≡ false
  pub trans : (x y z : A) → less y x ≡ false → less z y ≡ false → less z x ≡ false

abbrev pub parent : ℕ → ℕ
parent c = (c - 1) / 2

-- Two slices of one length with the same elements, as often.
pub record Same {A : Type 0} (a b : List A) : Type 0 where
  pub long : length a ≡ length b
  pub often : (p : A → Bool) → count p a ≡ count p b

pub Same-refl : {A : Type 0} (a : List A) → Same a a
Same-refl a = record { long = refl; often = λ p. refl }

pub Same-trans : {A : Type 0} {a b c : List A} → Same a b → Same b c → Same a c
Same-trans s t = record {
  long = omega (arith, s.long, t.long);
  often = λ p. omega (arith, s.often p, t.often p);
}

pub Same-swap :
    {A : Type 0} (a : List A) (i j : ℕ) → i < length a → j < length a → Same (swap a i j) a
Same-swap a i j hi hj =
    let (x, ex) = get_elem?_total a i hi in
    let (y, ey) = get_elem?_total a j hj in
    record { long = length-swap a i j x y ex ey; often = count-swap a i j x y ex ey }

module _ {A : Type 0} (less : A → A → Bool) where
  -- In the first n elements, every element whose parent is at `lo` or later is not less than it.
  abbrev pub IsHeapFrom : ℕ → ℕ → List A → Type 0
  IsHeapFrom lo n a =
      (c : ℕ) (x y : A)
      → 0 < c
      → c < n
      → lo ≤ parent c
      → get_elem? a c ≡ some x
      → get_elem? a (parent c) ≡ some y
      → less x y ≡ false

  abbrev pub IsHeap : List A → Type 0
  IsHeap a = IsHeapFrom 0 (length a) a

  -- The edges that do not touch `i` are in order, and so are those from its parent to its
  -- children.
  pub record Hole (lo n : ℕ) (a : List A) (i : ℕ) : Type 0 where
    pub edges :
        (c : ℕ) (x y : A)
        → 0 < c
        → c < n
        → lo ≤ parent c
        → c ≢ i
        → parent c ≢ i
        → get_elem? a c ≡ some x
        → get_elem? a (parent c) ≡ some y
        → less x y ≡ false
    pub bridged :
        (c : ℕ) (x y : A)
        → 0 < c
        → c < n
        → parent c ≡ i
        → 0 < i
        → lo ≤ parent i
        → get_elem? a c ≡ some x
        → get_elem? a (parent i) ≡ some y
        → less x y ≡ false

  pub less_at_lem :
      (a : List A) (i j : ℕ) (x y : A)
      → get_elem? a i ≡ some x
      → get_elem? a j ≡ some y
      → less_at less a i j ≡ less x y
  less_at_lem a i j x y ex ey = rw (ex, ey, less_at)

  -- The edge above `i` is in order.
  abbrev pub Above : ℕ → List A → ℕ → Type 0
  Above lo a i =
      (x y : A)
      → 0 < i
      → lo ≤ parent i
      → get_elem? a i ≡ some x
      → get_elem? a (parent i) ≡ some y
      → less x y ≡ false

  -- The edges below `i` are in order.
  abbrev pub Below : ℕ → List A → ℕ → Type 0
  Below n a i =
      (c : ℕ) (x y : A)
      → 0 < c
      → c < n
      → parent c ≡ i
      → get_elem? a c ≡ some x
      → get_elem? a i ≡ some y
      → less x y ≡ false
