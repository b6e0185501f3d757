-- ===== src/Quorum/Committee.antt =====
-- The order of the committee: UpdateParticipants, IndexOf, NthNext and NthNextHmy.
use benzene.Prelude.{
  ℕ, zero, suc, ◌+◌, ◌-◌, ◌%◌, ◌≤◌, ◌<◌, ◌≡◌, ◌≢◌, refl, inr, Bool, true, false, Option, none, some,
  List, [], ◌∷◌, ◌||◌, arith, Dict, get?, put, get?-put, length, get_elem?, In, Distinct, ltb, ◌==◌,
  if◌then◌else◌,
}
use benzene.Prelude.Int.{ℤ, pos, negsuc, ◌+ℤ◌, sub_ℕ, rem}
use benzene.Quorum.{CIdentities, index_keys, update_participants, index_of, participants_count}

-- A Go call that returns, or panics.
pub data Run (A : Type 0) : Type 0 where
  returns : A → Run A
  panics : Run A

-- IndexOf, with Go's -1.
unfoldable pub position : Option ℕ → ℤ
position none = negsuc 0
position (some i) = pos i

unfoldable pub element : List ℕ → ℤ → Run ℕ
element ks (pos i) = elim (get_elem? ks i) [ none ↦ panics | some k ↦ returns k ]
element ks (negsuc i) = panics

unfoldable pub is_found : Option ℕ → Bool
is_found none = false
is_found (some i) = true

-- The sanity check of numNodes.
unfoldable pub clamp_nodes : ℤ → ℕ → ℕ
clamp_nodes (negsuc n) len = len
clamp_nodes (pos n) len = if n == 0 || ltb len n then len else n

-- The common body of NthNext and NthNextHmy. A remainder by zero panics.
unfoldable pub nth_next_among : CIdentities → ℤ → ℕ → ℤ → Run (Bool × ℕ)
nth_next_among s num_nodes key next =
    let idx = index_of s key in
    let n = clamp_nodes num_nodes (length s.public_keys) in
    if n == 0 then panics else elim (element s.public_keys (rem (position idx +ℤ next) n)) [
      | panics ↦ panics
      | returns k ↦ returns (is_found idx, k)
    ]

unfoldable pub nth_next : CIdentities → ℕ → ℤ → Run (Bool × ℕ)
nth_next s key next = nth_next_among s (pos (participants_count s)) key next

-- `harmony_nodes` is NumHarmonyOperatedNodesPerShard of the sharding instance.
unfoldable pub nth_next_hmy : CIdentities → ℤ → ℕ → ℤ → Run (Bool × ℕ)
nth_next_hmy s harmony_nodes key next = nth_next_among s harmony_nodes key next

get?-index_keys_none :
    (i : ℕ) (ks : List ℕ) (m : Dict ℕ) (k : ℕ) → ¬ In k ks → get? k (index_keys i ks m) ≡ get? k m
unfolding index_keys
get?-index_keys_none i [] m k n = refl
get?-index_keys_none i (x ∷ ks) m k n =
    ground (arith, get?-index_keys_none (suc i) ks (put x i m) k, get?-put x k i m)

get_elem?-In : (ks : List ℕ) (j k : ℕ) → get_elem? ks j ≡ some k → In k ks
get_elem?-In [] j k e = cc
get_elem?-In (x ∷ ks) zero k e = ground arith
get_elem?-In (x ∷ ks) (suc j) k e = inr (get_elem?-In ks j k e)

get?-index_keys :
    (i : ℕ) (ks : List ℕ) (m : Dict ℕ) (j k : ℕ)
    → Distinct ks
    → get_elem? ks j ≡ some k
    → get? k (index_keys i ks m) ≡ some (i + j)
unfolding index_keys
get?-index_keys i [] m j k d e = cc
get?-index_keys i (x ∷ ks) m zero k d e =
    ground (arith, get?-index_keys_none (suc i) ks (put x i m) x d.0, get?-put x k i m)
get?-index_keys i (x ∷ ks) m (suc j) k d e =
    ground (arith, get?-index_keys (suc i) ks (put x i m) j k d.1 e)

-- After UpdateParticipants with distinct keys, IndexOf gives each key its position, and -1 to a
-- key that is not among them.
pub index_of-update_participants :
    (s : CIdentities) (ks : List ℕ) (k : ℕ)
    → Distinct ks
    → ((j : ℕ) → get_elem? ks j ≡ some k → index_of (update_participants s ks) k ≡ some j)
      × ((¬ In k ks) → index_of (update_participants s ks) k ≡ none)
unfolding index_of update_participants
index_of-update_participants s ks k d =
    (λ j e. ground (arith, get?-index_keys 0 ks [] j k d e), λ n. get?-index_keys_none 0 ks [] k n)

get_elem?_total : (ks : List ℕ) (i : ℕ) → i < length ks → (k : ℕ) × (get_elem? ks i ≡ some k)
get_elem?_total [] i h = absurd (omega arith)
get_elem?_total (x ∷ ks) zero h = (x, refl)
get_elem?_total (x ∷ ks) (suc i) h = get_elem?_total ks i (omega arith)

clamp_nodes_self : (n : ℕ) → clamp_nodes (pos n) n ≡ n
unfolding clamp_nodes
clamp_nodes_self n = ground arith

-- The sanity check leaves a count between one and the size of the committee.
clamp_nodes_bounds : (z : ℤ) (n : ℕ) → 0 < n → (0 < clamp_nodes z n) × (clamp_nodes z n ≤ n)
unfolding clamp_nodes
clamp_nodes_bounds (negsuc m) n h = ground arith
clamp_nodes_bounds (pos m) n h = ground arith

rem_forward : (i d n : ℕ) → rem (pos i +ℤ pos d) n ≡ pos ((i + d) % n)
unfolding rem ◌+ℤ◌
rem_forward i d n = ground arith

rem_backward : (i d n : ℕ) → i ≤ d → rem (pos i +ℤ negsuc d) n ≡ sub_ℕ 0 ((suc d - i) % n)
unfolding rem ◌+ℤ◌
rem_backward i d n h = ground arith

element-some : (ks : List ℕ) (i k : ℕ) → get_elem? ks i ≡ some k → element ks (pos i) ≡ returns k
unfolding element
element-some ks i k e = rw (e, element)

element_negative : (ks : List ℕ) (m : ℕ) → 0 < m → element ks (sub_ℕ 0 m) ≡ panics
unfolding element
element_negative ks m h = ground arith

module _ (s : CIdentities) (key i : ℕ) (found : index_of s key ≡ some i)
    (some_keys : 0 < length s.public_keys) where
  -- For a member at position `i` and a step forward, NthNextHmy returns a member, the one that
  -- many places on, round the first so many members that the instance names: all of them if it
  -- names none or too many.
  nth_next_hmy-forward :
      (z : ℤ) (d : ℕ)
      → (k : ℕ) × (get_elem? s.public_keys ((i + d) % clamp_nodes z (length s.public_keys))
          ≡ some k)
        × (nth_next_hmy s z key (pos d) ≡ returns (true, k))
  unfolding nth_next_hmy nth_next_among position is_found
  nth_next_hmy-forward z d =
      let ks = s.public_keys in
      let (low, high) = clamp_nodes_bounds z (length ks) some_keys in
      let n = clamp_nodes z (length ks) in
      let (k, e) = get_elem?_total ks ((i + d) % n) (grind arith) in
      (
        k,
        e,
        ground (
          arith,
          found,
          rem_forward i d (clamp_nodes z (length s.public_keys)),
          element-some s.public_keys ((i + d) % clamp_nodes z (length s.public_keys)) k e,
        ),
      )

  -- For a member at position `i` and a step forward, NthNext returns the member that many places
  -- on, round the committee.
  nth_next-forward :
      (d : ℕ)
      → (k : ℕ) × (get_elem? s.public_keys ((i + d) % length s.public_keys) ≡ some k)
        × (nth_next s key (pos d) ≡ returns (true, k))
  unfolding nth_next nth_next_hmy participants_count
  nth_next-forward d =
      let (k, e, r) = nth_next_hmy-forward (pos (length s.public_keys)) d in
      (k, rw (clamp_nodes_self (length s.public_keys)) at e, r)

  -- A step of `d + 1` back that leaves the front of the committee panics, unless it comes out at a
  -- multiple of the committee's size: the remainder is negative then.
  pub nth_next-backward :
      (d : ℕ) → i ≤ d → (suc d - i) % length s.public_keys ≢ 0 → nth_next s key (negsuc d) ≡ panics
  unfolding nth_next nth_next_among participants_count position
  nth_next-backward d back off = ground (
    arith,
    found,
    clamp_nodes_self (length s.public_keys),
    rem_backward i d (length s.public_keys) back,
    element_negative s.public_keys ((suc d - i) % length s.public_keys) (omega arith),
  )
