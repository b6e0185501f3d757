-- ===== src/Quorum/Keys.antt =====
-- The two loops of submitVote over the keys of a vote.
use benzene.Prelude.{
  ℕ, ◌+◌, ◌≡◌, refl, sym, ◌↔◌, inl, inr, true, false, none, some, List, [], ◌∷◌, arith, get?, put,
  IsMap, put-IsMap, get?-put, length-put, has-none, length, All, In, Distinct, Bool-cases,
  if◌then◌else◌,
}
use benzene.Quorum.{Phase, Ballot, Round, CIdentities, read_ballot, contains, check_keys, put_all}

-- No key of the vote has a ballot yet, and none stands twice in it.
abbrev pub IsFresh : CIdentities → Phase → List ℕ → Type 0
IsFresh s p ks = All (λ k. read_ballot s p k ≡ none) ks × Distinct ks

pub contains-In : (k : ℕ) (xs : List ℕ) → (contains k xs ≡ true) ↔ In k xs
unfolding contains
contains-In k [] = (λ h. cc, λ h. absurd h)
contains-In k (x ∷ xs) =
    (λ h. ground (arith, contains-In k xs), λ h. ground (arith, contains-In k xs))

pub contains-not_In : (k : ℕ) (xs : List ℕ) → ¬ In k xs → contains k xs ≡ false
contains-not_In k xs h = elim (Bool-cases (contains k xs)) [
  | inl e ↦ absurd (h ((contains-In k xs).0 e))
  | inr e ↦ e
]

-- What the first loop has established of the keys that are left.
abbrev pub Unseen : List ℕ → List ℕ → Type 0
Unseen seen ks = All (λ k. ¬ In k seen) ks

Unseen-cons : (k : ℕ) (seen ks : List ℕ) → Unseen seen ks → ¬ In k ks → Unseen (k ∷ seen) ks
Unseen-cons k seen [] h n = tt
Unseen-cons k seen (x ∷ ks) h n = (λ i. ground arith, Unseen-cons k seen ks h.1 (λ i. n (inr i)))

Unseen-tail : (k : ℕ) (seen ks : List ℕ) → Unseen (k ∷ seen) ks → Unseen seen ks × (¬ In k ks)
Unseen-tail k seen [] h = (tt, λ i. i)
Unseen-tail k seen (x ∷ ks) h =
    let (a, b) = Unseen-tail k seen ks h.1 in
    ((λ i. h.0 (inr i), a), elim [ inl e ↦ h.0 (inl (sym e)) | inr i ↦ b i ])

pub check_keys-fresh :
    (s : CIdentities) (p : Phase) (seen ks : List ℕ)
    → Unseen seen ks
    → IsFresh s p ks
    → check_keys s p seen ks ≡ none
unfolding check_keys
check_keys-fresh s p seen [] u f = refl
check_keys-fresh s p seen (k ∷ ks) u f =
    rw (contains-not_In k seen u.0, f.0.0)
      (check_keys-fresh s p (k ∷ seen) ks (Unseen-cons k seen ks u.1 f.1.0) (f.0.1, f.1.1))

check_keys_step :
    (s : CIdentities) (p : Phase) (seen : List ℕ) (k : ℕ) (ks : List ℕ)
    → check_keys s p seen (k ∷ ks) ≡ none
    → (contains k seen ≡ false) × (read_ballot s p k ≡ none) × (check_keys s p (k ∷ seen) ks ≡ none)
unfolding check_keys
check_keys_step s p seen k ks e = ground arith

pub not_In-contains : (k : ℕ) (xs : List ℕ) → contains k xs ≡ false → ¬ In k xs
not_In-contains k xs e i = ground (arith, (contains-In k xs).1 i)

pub check_keys-none :
    (s : CIdentities) (p : Phase) (seen ks : List ℕ)
    → check_keys s p seen ks ≡ none
    → Unseen seen ks × IsFresh s p ks
check_keys-none s p seen [] e = (tt, (tt, tt))
check_keys-none s p seen (k ∷ ks) e =
    let (new, unread, rest) = check_keys_step s p seen k ks e in
    let (unseen, fresh) = check_keys-none s p (k ∷ seen) ks rest in
    let (u, apart) = Unseen-tail k seen ks unseen in
    ((not_In-contains k seen new, u), ((unread, fresh.0), (apart, fresh.1)))

pub get?-put_all :
    (j : ℕ) (ks : List ℕ) (b : Ballot) (r : Round)
    → get? j (put_all ks b r) ≡ (if contains j ks then some b else get? j r)
unfolding put_all contains
get?-put_all j [] b r = refl
get?-put_all j (k ∷ ks) b r = ground (arith, get?-put_all j ks b (put k b r), get?-put k j b r)

pub put_all-IsMap : (ks : List ℕ) (b : Ballot) (r : Round) → IsMap r → IsMap (put_all ks b r)
unfolding put_all
put_all-IsMap [] b r h = h
put_all-IsMap (k ∷ ks) b r h = put_all-IsMap ks b (put k b r) (put-IsMap k b r h)

put-apart :
    (k : ℕ) (b : Ballot) (r : Round) (ks : List ℕ)
    → ¬ In k ks
    → All (λ j. get? j r ≡ none) ks
    → All (λ j. get? j (put k b r) ≡ none) ks
put-apart k b r [] n h = tt
put-apart k b r (j ∷ ks) n h =
    (ground (arith, get?-put k j b r), put-apart k b r ks (λ i. n (inr i)) h.1)

pub length-put_all :
    (ks : List ℕ) (b : Ballot) (r : Round)
    → All (λ k. get? k r ≡ none) ks
    → Distinct ks
    → length (put_all ks b r) ≡ length r + length ks
unfolding put_all
length-put_all [] b r h d = omega arith
length-put_all (k ∷ ks) b r h d = ground (
  arith,
  length-put_all ks b (put k b r) (put-apart k b r ks d.0 h.1) d.1,
  length-put k b r,
  has-none k r h.0,
)
