-- ===== src/MultiBls.antt =====
-- multibls/multibls.go: the private keys of a node. A key is here its public key's bytes, which is
-- all that Dedup reads of it, and the secret.
use benzene.Prelude.{
  ℕ, ◌≡◌, refl, inl, inr, Bool, true, false, List, [], ◌∷◌, arith, Bool-cases, Dict, has, put, ◌==◌,
  if◌then◌else◌,
}

pub record PrivateKey : Type 0 where
  pub pub_bytes : ℕ
  pub secret : ℕ

-- The loop of Dedup, with the keys seen so far.
unfoldable pub dedup_loop : Dict (Unit {0}) → List PrivateKey → List PrivateKey
dedup_loop seen [] = []
dedup_loop seen (k ∷ ks) =
    let skip = dedup_loop seen ks in
    let take = k ∷ dedup_loop (put k.pub_bytes tt seen) ks in
    if has k.pub_bytes seen then skip else take

unfoldable pub dedup : List PrivateKey → List PrivateKey
unfolding dedup_loop
dedup ks = dedup_loop [] ks

abbrev pub bytes_of : PrivateKey → ℕ
bytes_of k = k.pub_bytes

-- Is there a key with these bytes?
abbrev pub holds : ℕ → List PrivateKey → Bool
holds b [] = false
holds b (k ∷ ks) = if k.pub_bytes == b then true else holds b ks

abbrev pub AreUnique : List PrivateKey → Type 0
AreUnique [] = Unit {0}
AreUnique (k ∷ ks) = (holds k.pub_bytes ks ≡ false) × AreUnique ks

has-put : (b c : ℕ) (m : Dict (Unit {0})) → has c (put b tt m) ≡ (if b == c then true else has c m)
has-put b c [] = refl
has-put b c ((j, x) ∷ m) = ground (arith, has-put b c m)

holds-dedup_loop :
    (b : ℕ) (seen : Dict (Unit {0})) (ks : List PrivateKey)
    → holds b (dedup_loop seen ks) ≡ (if has b seen then false else holds b ks)
unfolding dedup_loop
holds-dedup_loop b seen [] = ground arith
holds-dedup_loop b seen (k ∷ ks) = elim (Bool-cases (has k.pub_bytes seen)) [
  | inl old ↦ rw old (ground (arith, holds-dedup_loop b seen ks, old))
  | inr new ↦
      let rest = holds-dedup_loop b (put k.pub_bytes tt seen) ks in
      let grown = has-put k.pub_bytes b seen in rw new (ground (arith, rest, grown, new))
]

dedup_loop-AreUnique :
    (seen : Dict (Unit {0})) (ks : List PrivateKey) → AreUnique (dedup_loop seen ks)
unfolding dedup_loop
dedup_loop-AreUnique seen [] = tt
dedup_loop-AreUnique seen (k ∷ ks) = elim (Bool-cases (has k.pub_bytes seen)) [
  | inl old ↦ rw old (dedup_loop-AreUnique seen ks)
  | inr new ↦
      let seen' = put k.pub_bytes tt seen in
      let rest = holds-dedup_loop k.pub_bytes seen' ks in
      let grown = has-put k.pub_bytes k.pub_bytes seen in
      rw new (ground (arith, rest, grown), dedup_loop-AreUnique seen' ks)
]

-- Dedup returns no two keys with the same public key, and a key for every public key that it was
-- given, and for no other.
dedup-AreUnique :
    (ks : List PrivateKey) → AreUnique (dedup ks) × ((b : ℕ) → holds b (dedup ks) ≡ holds b ks)
unfolding dedup
dedup-AreUnique ks = (dedup_loop-AreUnique [] ks, λ b. holds-dedup_loop b [] ks)
