-- ===== src/Bytes.antt =====
-- internal/utils/bytes.go: the bits of a byte slice, counted by a table of half bytes.
use native.Mathlib.Decide.{ℕ_discrete}
use benzene.Prelude.{
  Bool-cases, inl, inr, if◌then◌else◌, ℕ, zero, suc, ◌+◌, ◌*◌, ◌/◌, ◌%◌, ◌≤◌, ◌<◌, ◌≡◌, refl, none,
  some, List, [], ◌∷◌, arith, length, get_elem?, All, ==_iff, ◌==◌,
}

abbrev half_byte_lookup : List ℕ
half_byte_lookup = 0 ∷ 1 ∷ 1 ∷ 2 ∷ 1 ∷ 2 ∷ 2 ∷ 3 ∷ 1 ∷ 2 ∷ 2 ∷ 3 ∷ 2 ∷ 3 ∷ 3 ∷ 4 ∷ []

-- The index is below 16, so that the array access does not panic.
abbrev table : ℕ → ℕ
table i = elim (get_elem? half_byte_lookup i) [ none ↦ 0 | some n ↦ n ]

-- by & 0x0F and by >> 4
unfoldable pub count_one_bits_in_byte : ℕ → ℕ
count_one_bits_in_byte b = table (b % 16) + table (b / 16)

-- A nil slice counts as an empty one.
unfoldable pub count_one_bits : List ℕ → ℕ
unfolding count_one_bits_in_byte
count_one_bits [] = 0
count_one_bits (b ∷ bs) = count_one_bits_in_byte b + count_one_bits bs

-- The binary digits of a number, and their sum.
abbrev pub ones : ℕ → ℕ → ℕ
ones zero x = 0
ones (suc w) x = x % 2 + ones w (x / 2)

abbrev pub total_ones : List ℕ → ℕ
total_ones [] = 0
total_ones (b ∷ bs) = ones 8 b + total_ones bs

-- How many bytes below a bound the table counts wrongly.
miscounted : ℕ → ℕ
miscounted zero = 0
miscounted (suc byte) =
    (if count_one_bits_in_byte byte == ones 8 byte then 0 else 1) + miscounted byte

none_miscounted : miscounted 256 ≡ 0
unfolding miscounted count_one_bits_in_byte
none_miscounted = refl

ones-count_one_bits_in_byte :
    (bound byte : ℕ)
    → byte < bound
    → miscounted bound ≡ 0
    → count_one_bits_in_byte byte ≡ ones 8 byte
unfolding miscounted
ones-count_one_bits_in_byte zero byte below right = absurd (omega arith)
ones-count_one_bits_in_byte (suc last) byte below right =
    elim (Bool-cases (count_one_bits_in_byte last == ones 8 last)) [
      | inr wrong ↦ absurd (ground (arith, wrong, right))
      | inl correct ↦ elim (ℕ_discrete byte last) [
        | yes same ↦ rw same ((==_iff _ _).0 correct)
        | no other ↦
            ones-count_one_bits_in_byte last byte (omega arith) (ground (arith, correct, right))
      ]
    ]

-- CountOneBits is the number of binary ones of the bytes, and at most eight for each byte.
pub count_one_bits-total_ones :
    (bs : List ℕ)
    → All (λ b. b < 256) bs
    → (count_one_bits bs ≡ total_ones bs) × (count_one_bits bs ≤ 8 * length bs)
unfolding count_one_bits
count_one_bits-total_ones [] h = (refl, omega arith)
count_one_bits-total_ones (b ∷ bs) h =
    let (same, bound) = count_one_bits-total_ones bs h.1 in
    let here = ones-count_one_bits_in_byte 256 b h.0 none_miscounted in (omega arith, omega arith)
