-- ===== src/GoHeap.antt =====
-- Go's container/heap, which core/tx_list.go runs on its nonce and price heaps. The two heaps'
-- Len, Less, Swap, Push and Pop are the length, `less`, a swap, an append and a cut of a slice.
-- Indices stay below twice the length, so that `int` does not overflow.
pub mod Order
pub mod Up
pub mod Round
pub mod Down
pub mod Ops
use benzene.Prelude.{
  ℕ, zero, suc, ◌+◌, ◌-◌, ◌*◌, ◌/◌, ◌<◌, ◌≡◌, Bool, true, false, ◌&&◌, Option, none, some, List, [],
  ◌∷◌, ◌++◌, arith, length, get_elem?, ltb, leb, ◌==◌, not, if◌then◌else◌,
}
use benzene.Prelude.Arrays.{swap, take}

module _ {A : Type 0} (less : A → A → Bool) where
  -- h.Less(i, j), within the bounds.
  abbrev pub less_at : List A → ℕ → ℕ → Bool
  less_at h i j = elim (get_elem? h i) [
    | none ↦ false
    | some x ↦ elim (get_elem? h j) [ none ↦ false | some y ↦ less x y ]
  ]

  -- The loop of `up`. Each round at least halves the index, so that its value is fuel enough.
  unfoldable pub up_loop : ℕ → List A → ℕ → List A
  up_loop zero h j = h
  up_loop (suc fuel) h j =
      let i = (j - 1) / 2 in
      let rest = up_loop fuel (swap h i j) i in
      if i == j then h else if less_at h j i then rest else h

  unfoldable pub up : List A → ℕ → List A
  unfolding up_loop
  up h j = up_loop (j + 1) h j

  -- The smaller child; the left one is j1, and must be below n.
  unfoldable pub child : List A → ℕ → ℕ → ℕ
  child h n i = let j1 = 2 * i + 1 in if ltb (j1 + 1) n && less_at h (j1 + 1) j1 then j1 + 1 else j1

  -- The loop of `down` on the first n elements, and the index at which it ends.
  unfoldable pub down_loop : ℕ → List A → ℕ → ℕ → List A × ℕ
  unfolding child
  down_loop zero h n i = (h, i)
  down_loop (suc fuel) h n i =
      let j = child h n i in
      let rest = down_loop fuel (swap h i j) n j in
      if leb n (2 * i + 1) then (h, i) else if less_at h j i then rest else (h, i)

  -- Each round more than doubles the index, which stays below n.
  unfoldable pub down : List A → ℕ → ℕ → List A × Bool
  unfolding down_loop
  down h i0 n = let (h', i) = down_loop n h n i0 in (h', ltb i0 i)

  -- for i := n/2 - 1; i >= 0; i--: `i` counts the rounds left.
  unfoldable pub init_loop : ℕ → List A → List A
  unfolding down
  init_loop zero h = h
  init_loop (suc i) h = init_loop i (down h i (length h)).0

  unfoldable pub init : List A → List A
  unfolding init_loop
  init h = init_loop (length h / 2) h

  unfoldable pub push : List A → A → List A
  unfolding up
  push h x = up (h ++ x ∷ []) (length h)

  -- The heap's own Pop: the last element, and the slice without it.
  unfoldable pub cut : List A → Option (A × List A)
  cut h = elim (get_elem? h (length h - 1)) [
    | none ↦ none
    | some x ↦ some (x, take (length h - 1) h)
  ]

  -- `none` is the panic on an empty heap.
  unfoldable pub pop : List A → Option (A × List A)
  unfolding cut down
  pop h = let n = length h - 1 in cut (down (swap h 0 n) 0 n).0

  unfoldable pub remove_swap : List A → ℕ → ℕ → List A
  unfolding down up
  remove_swap h i n =
      if n == i then h else let (h', moved) = down (swap h i n) i n in if moved then h' else up h' i

  -- heap.Remove at an index within the bounds; what it returns is not used.
  unfoldable pub remove_at : List A → ℕ → List A
  unfolding remove_swap
  remove_at h i = let n = length h - 1 in take n (remove_swap h i n)
