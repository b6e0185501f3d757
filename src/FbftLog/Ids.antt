-- ===== src/FbftLog/Ids.antt =====
-- The id of a message.
use benzene.Prelude.{ℕ, ◌+◌, ◌*◌, ◌^◌, ◌<◌, ◌≡◌, sym, ◌∙◌, [], ◌∷◌, arith}
use benzene.FbftLog.{FbftMessage, id, id_sender}

-- The fields fit the arrays that they are copied into.
pub record Fits (m : FbftMessage) (k : ℕ) : Type 0 where
  pub from_one : m.sender_pubkeys ≡ k ∷ []
  pub type_fits : m.message_type < 2 ^ 32
  pub view_fits : m.view_id < 2 ^ 64
  pub hash_fits : m.block_hash < 2 ^ 256

mixed_radix :
    (a b c d a' b' c' d' : ℕ)
    → a < 2 ^ 32
    → a' < 2 ^ 32
    → b < 2 ^ 64
    → b' < 2 ^ 64
    → c < 2 ^ 256
    → c' < 2 ^ 256
    → a + 2 ^ 32 * (b + 2 ^ 64 * (c + 2 ^ 256 * d))
      ≡ a' + 2 ^ 32 * (b' + 2 ^ 64 * (c' + 2 ^ 256 * d'))
    → (a ≡ a') × (b ≡ b') × (c ≡ c') × (d ≡ d')
mixed_radix a b c d a' b' c' d' p p' q q' r r' e = omega arith

id_sender_one : (m : FbftMessage) (k : ℕ) → m.sender_pubkeys ≡ k ∷ [] → id_sender m ≡ k
unfolding id_sender
id_sender_one m k e = ground arith

id_one :
    (m : FbftMessage) (k : ℕ)
    → Fits m k
    → id m ≡ m.message_type + 2 ^ 32 * (m.view_id + 2 ^ 64 * (m.block_hash + 2 ^ 256 * k))
unfolding id
id_one m k f = rw (id_sender_one m k f.from_one) (omega (arith, f.type_fits))

-- Two messages with one sender each that have the same id have the same type, view, block hash
-- and sender. (The block number is no part of the id.)
pub id_unique :
    (m n : FbftMessage) (k l : ℕ)
    → Fits m k
    → Fits n l
    → id m ≡ id n
    → (m.message_type ≡ n.message_type)
      × (m.view_id ≡ n.view_id)
      × (m.block_hash ≡ n.block_hash)
      × (k ≡ l)
id_unique m n k l f g e =
    mixed_radix m.message_type m.view_id m.block_hash k n.message_type n.view_id n.block_hash l
      f.type_fits g.type_fits f.view_fits g.view_fits f.hash_fits g.hash_fits
      (sym (id_one m k f) ∙ e ∙ id_one n l g)
