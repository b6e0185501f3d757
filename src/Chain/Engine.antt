-- ===== src/Chain/Engine.antt =====
-- The engine of internal/chain/sharding.go and the validator of core/block_validator.go, which the
-- node runs with. Neither refuses anything.
use benzene.Prelude.{ℕ, zero, suc, ◌≡◌, refl, Option, none, List, [], ◌∷◌}
use benzene.Chain.Rawdb.{Header, Block}
use benzene.Chain.Head.{InsertError}
use benzene.Chain.Write.{Services}

-- verifyHeader, with the headers before it.
unfoldable pub verify_header : Header → List Header → Option InsertError
verify_header h parents = none

-- The result at an index; the channel has none behind the last header.
unfoldable pub verify_from : List Header → List Block → ℕ → Option InsertError
unfolding verify_header
verify_from parents [] i = none
verify_from parents (b ∷ bs) zero = verify_header b.header parents
verify_from parents (b ∷ bs) (suc i) = verify_from (b.header ∷ parents) bs i

-- ValidateBody
unfoldable pub validate_body : Block → Option InsertError
validate_body b = none

-- ValidateState
unfoldable pub validate_state : Block → Option InsertError
validate_state b = none

-- The services with this engine and this validator.
unfoldable pub with_engine : {Q : Type 0} → Services Q → Services Q
unfolding verify_from validate_body validate_state
with_engine lib = record lib {
  verify_headers = λ s bs seals i. verify_from [] bs i;
  validate_body = validate_body;
  validate_state = validate_state;
}

pub verify_from-none :
    (parents : List Header) (bs : List Block) (i : ℕ) → verify_from parents bs i ≡ none
unfolding verify_from verify_header
verify_from-none parents [] i = refl
verify_from-none parents (b ∷ bs) zero = refl
verify_from-none parents (b ∷ bs) (suc i) = verify_from-none (b.header ∷ parents) bs i
