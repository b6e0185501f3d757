-- ===== src/Prelude/Maps.antt =====
-- Go's maps with number keys, as association lists. The order of the list stands for the order in
-- which `range` visits the map: Go leaves it open, and the theorems hold for every list.
use Prim.Native.Nat.{ℕ, suc}
use mathlib.Core.Path.{◌≡◌, refl}
use mathlib.Core.Bool.{Bool, true, false}
use mathlib.Core.Logic.{◌↔◌, inl, inr}
use mathlib.Core.List.{List, [], ◌∷◌}
use mathlib.Core.Option.{Option, none, some}
use native.Mathlib.Omega.{arith}
use benzene.Prelude.Tests.{◌==◌, if◌then◌else◌, Bool-cases}
use benzene.Prelude.Lists.{length, In, Distinct}

abbrev pub Dict : Type 0 → Type 0
Dict V = List (ℕ × V)

module _ {V : Type 0} where
  -- m[k], with `none` for a missing key.
  abbrev pub get? : ℕ → Dict V → Option V
  get? k [] = none
  get? k ((j, v) ∷ m) = if j == k then some v else get? k m

  abbrev pub has : ℕ → Dict V → Bool
  has k [] = false
  has k ((j, v) ∷ m) = if j == k then true else has k m

  -- m[k] = v
  abbrev pub put : ℕ → V → Dict V → Dict V
  put k v [] = (k, v) ∷ []
  put k v ((j, w) ∷ m) = if j == k then (k, v) ∷ m else (j, w) ∷ put k v m

  -- delete(m, k)
  abbrev pub remove : ℕ → Dict V → Dict V
  remove k [] = []
  remove k ((j, w) ∷ m) = if j == k then remove k m else (j, w) ∷ remove k m

  abbrev pub keys : Dict V → List ℕ
  keys [] = []
  keys ((k, v) ∷ m) = k ∷ keys m

  abbrev pub values : Dict V → List V
  values [] = []
  values ((k, v) ∷ m) = v ∷ values m

  -- Each key stands once: what every Go map satisfies.
  abbrev pub IsMap : Dict V → Type 0
  IsMap [] = Unit {0}
  IsMap ((k, v) ∷ m) = (get? k m ≡ none) × IsMap m

  -- The entries at which a test of the key and the value holds.
  abbrev pub keep : (ℕ → V → Bool) → Dict V → Dict V
  keep p [] = []
  keep p ((k, v) ∷ m) = if p k v then (k, v) ∷ keep p m else keep p m

  pub length-values : (m : Dict V) → length (values m) ≡ length m
  length-values [] = refl
  length-values ((k, v) ∷ m) = omega (arith, length-values m)

  pub get?-put :
      (k j : ℕ) (v : V) (m : Dict V) → get? j (put k v m) ≡ (if k == j then some v else get? j m)
  get?-put k j v [] = refl
  get?-put k j v ((i, w) ∷ m) = ground (arith, get?-put k j v m)

  pub get?-remove :
      (k j : ℕ) (m : Dict V) → get? j (remove k m) ≡ (if k == j then none else get? j m)
  get?-remove k j [] = ground arith
  get?-remove k j ((i, w) ∷ m) = ground (arith, get?-remove k j m)

  pub has-get? : (k : ℕ) (m : Dict V) → has k m ≡ false → get? k m ≡ none
  has-get? k [] h = refl
  has-get? k ((j, v) ∷ m) h = ground (arith, has-get? k m)

  pub has-none : (k : ℕ) (m : Dict V) → get? k m ≡ none → has k m ≡ false
  has-none k [] h = refl
  has-none k ((j, v) ∷ m) h = ground (arith, has-none k m)

  pub remove_absent : (k : ℕ) (m : Dict V) → get? k m ≡ none → remove k m ≡ m
  remove_absent k [] e = refl
  remove_absent k ((j, v) ∷ m) e = ground (arith, remove_absent k m)

  pub put-IsMap : (k : ℕ) (v : V) (m : Dict V) → IsMap m → IsMap (put k v m)
  put-IsMap k v [] h = (refl, tt)
  put-IsMap k v ((j, w) ∷ m) h = ground (arith, put-IsMap k v m h.1, get?-put k j v m)

  pub remove-IsMap : (k : ℕ) (m : Dict V) → IsMap m → IsMap (remove k m)
  remove-IsMap k [] h = tt
  remove-IsMap k ((j, w) ∷ m) h = ground (arith, remove-IsMap k m h.1, get?-remove k j m)

  pub length-put :
      (k : ℕ) (v : V) (m : Dict V)
      → length (put k v m) ≡ (if has k m then length m else suc (length m))
  length-put k v [] = refl
  length-put k v ((j, w) ∷ m) = ground (arith, length-put k v m)

  pub get?-keep-none :
      (p : ℕ → V → Bool) (k : ℕ) (m : Dict V) → get? k m ≡ none → get? k (keep p m) ≡ none
  get?-keep-none p k [] h = refl
  get?-keep-none p k ((j, w) ∷ m) h = ground (arith, get?-keep-none p k m)

  pub keep-IsMap : (p : ℕ → V → Bool) (m : Dict V) → IsMap m → IsMap (keep p m)
  keep-IsMap p [] h = tt
  keep-IsMap p ((j, w) ∷ m) h = ground (arith, keep-IsMap p m h.1, get?-keep-none p j m h.0)

  -- What is kept at a key: the old value, if it passes the test.
  pub get?-keep-some :
      (p : ℕ → V → Bool) (k : ℕ) (v : V) (m : Dict V)
      → get? k m ≡ some v
      → p k v ≡ true
      → get? k (keep p m) ≡ some v
  get?-keep-some p k v [] h t = h
  get?-keep-some p k v ((j, w) ∷ m) h t = ground (arith, get?-keep-some p k v m)

  pub get?-keep_drop :
      (p : ℕ → V → Bool) (k : ℕ) (v : V) (m : Dict V)
      → IsMap m
      → get? k m ≡ some v
      → p k v ≡ false
      → get? k (keep p m) ≡ none
  get?-keep_drop p k v [] u h t = refl
  get?-keep_drop p k v ((j, w) ∷ m) u h t =
      ground (arith, get?-keep_drop p k v m u.1, get?-keep-none p k m)

  pub get?-In-keys : (k : ℕ) (v : V) (m : Dict V) → get? k m ≡ some v → In k (keys m)
  get?-In-keys k v [] h = cc
  get?-In-keys k v ((j, w) ∷ m) h = ground (arith, get?-In-keys k v m)

  pub In-keys-get? : (k : ℕ) (m : Dict V) → In k (keys m) → (v : V) × (get? k m ≡ some v)
  In-keys-get? k [] h = absurd h
  In-keys-get? k ((j, w) ∷ m) (inl e) = (w, ground arith)
  In-keys-get? k ((j, w) ∷ m) (inr i) = elim (Bool-cases (j == k)) [
    | inl same ↦ (w, rw same)
    | inr other ↦ let (v, e) = In-keys-get? k m i in (v, rw other e)
  ]

  pub IsMap-Distinct : (m : Dict V) → IsMap m → Distinct (keys m)
  IsMap-Distinct [] h = tt
  IsMap-Distinct ((k, v) ∷ m) h =
      (λ i. let (w, e) = In-keys-get? k m i in ground arith, IsMap-Distinct m h.1)

  pub length-keys : (m : Dict V) → length (keys m) ≡ length m
  length-keys [] = refl
  length-keys ((k, v) ∷ m) = omega (arith, length-keys m)

  pub get?-In-values : (k : ℕ) (v : V) (m : Dict V) → get? k m ≡ some v → In v (values m)
  get?-In-values k v [] h = cc
  get?-In-values k v ((j, w) ∷ m) h = ground (arith, get?-In-values k v m)

  pub In-values-get? :
      (v : V) (m : Dict V) → IsMap m → In v (values m) → (k : ℕ) × (get? k m ≡ some v)
  In-values-get? v [] u h = absurd h
  In-values-get? v ((j, w) ∷ m) u (inl e) = (j, ground arith)
  In-values-get? v ((j, w) ∷ m) u (inr i) =
      let (k, e) = In-values-get? v m u.1 i in
      (
        k,
        elim (Bool-cases (j == k)) [ inl same ↦ absurd (clash k same e) | inr other ↦ rw other e ],
      )
    where
      clash : (k : ℕ) → (j == k) ≡ true → get? k m ≡ some v → ⊥
      clash k same e = let eq : j ≡ k = ground arith in cc

  pub get?-keep_inv :
      (p : ℕ → V → Bool) (k : ℕ) (v : V) (m : Dict V)
      → IsMap m
      → get? k (keep p m) ≡ some v
      → (get? k m ≡ some v) × (p k v ≡ true)
  get?-keep_inv p k v [] u e = absurd (cc)
  get?-keep_inv p k v ((j, w) ∷ m) u e =
      ground (arith, get?-keep_inv p k v m u.1, get?-keep-none p j m u.0)

-- Every value is filed under the key that it has by itself.
module _ {V : Type 0} (key : V → ℕ) where
  abbrev pub IsKeyed : Dict V → Type 0
  IsKeyed m = (k : ℕ) (v : V) → get? k m ≡ some v → key v ≡ k

  pub put-IsKeyed : (v : V) (m : Dict V) → IsKeyed m → IsKeyed (put (key v) v m)
  put-IsKeyed v m h k w e = ground (arith, h k w, get?-put (key v) k v m)

  pub remove-IsKeyed : (j : ℕ) (m : Dict V) → IsKeyed m → IsKeyed (remove j m)
  remove-IsKeyed j m h k w e = ground (arith, h k w, get?-remove j k m)

  pub keep-IsKeyed : (p : ℕ → V → Bool) (m : Dict V) → IsMap m → IsKeyed m → IsKeyed (keep p m)
  keep-IsKeyed p m u h k w e = h k w (get?-keep_inv p k w m u e).0

  -- The values of a keyed map are those that are found under their own key.
  pub In-values_iff :
      (v : V) (m : Dict V) → IsMap m → IsKeyed m → In v (values m) ↔ (get? (key v) m ≡ some v)
  In-values_iff v m u h = (
    λ i. let (k, e) = In-values-get? v m u i in rw (h k v e) e,
    λ e. get?-In-values (key v) v m e,
  )
