-- ===== src/TxPool/NoncerRuns.antt =====
-- txNoncer of core/tx_noncer.go under any calls: it answers as a map of nonces that starts as the
-- state database's.
use benzene.Prelude.{
  ℕ, ◌≡◌, refl, ap, ◌∙◌, none, some, List, [], ◌∷◌, arith, get?, put, get?-put, ltb, ◌==◌,
  if◌then◌else◌, Option-cases, inl, inr,
}
use benzene.TxPool.Noncer.{TxNoncer, new_tx_noncer, load, get, set, set_if_lower}

pub data Call : Type 0 where
  gets : ℕ → Call
  sets lowers : ℕ → ℕ → Call

-- What the reads of some calls return.
abbrev pub run : TxNoncer → List Call → List ℕ
run t [] = []
run t (gets addr ∷ calls) = (get t addr).1 ∷ run (get t addr).0 calls
run t (sets addr nonce ∷ calls) = run (set t addr nonce) calls
run t (lowers addr nonce ∷ calls) = run (set_if_lower t addr nonce) calls

-- The map of nonces after one of them is written.
abbrev pub write : (ℕ → ℕ) → ℕ → ℕ → ℕ → ℕ
write nonces addr nonce other = if addr == other then nonce else nonces other

-- What they return on a map that has a nonce for every address.
abbrev pub run_map : (ℕ → ℕ) → List Call → List ℕ
run_map nonces [] = []
run_map nonces (gets addr ∷ calls) = nonces addr ∷ run_map nonces calls
run_map nonces (sets addr nonce ∷ calls) = run_map (write nonces addr nonce) calls
run_map nonces (lowers addr nonce ∷ calls) =
    run_map (write nonces addr (if ltb nonce (nonces addr) then nonce else nonces addr)) calls

-- The nonce of an address, whether it is filled in already or not.
view : TxNoncer → ℕ → ℕ
view t addr = elim (get? addr t.nonces) [ some n ↦ n | none ↦ t.fallback addr ]

Represents : TxNoncer → (ℕ → ℕ) → Type 0
Represents t nonces = (addr : ℕ) → view t addr ≡ nonces addr

new-Represents : (statedb : ℕ → ℕ) → Represents (new_tx_noncer statedb) statedb
unfolding Represents view new_tx_noncer
new-Represents statedb addr = refl

get_value : (t : TxNoncer) (addr : ℕ) → (get t addr).1 ≡ view t addr
unfolding get load view
get_value t addr = elim (Option-cases (get? addr t.nonces)) [
  | inl e ↦ ground (arith, e)
  | inr (n, e) ↦ ground (arith, e)
]

get_view : (t : TxNoncer) (addr other : ℕ) → view (get t addr).0 other ≡ view t other
unfolding get load view
get_view t addr other = elim (Option-cases (get? addr t.nonces)) [
  | inl e ↦ ground (arith, e, get?-put addr other (t.fallback addr) t.nonces)
  | inr (n, e) ↦ ground (arith, e)
]

set_view :
    (t : TxNoncer) (addr nonce other : ℕ)
    → view (set t addr nonce) other ≡ (if addr == other then nonce else view t other)
unfolding set view
set_view t addr nonce other = ground (arith, get?-put addr other nonce t.nonces)

lower_view :
    (t : TxNoncer) (addr nonce other : ℕ)
    → view (set_if_lower t addr nonce) other ≡ (
        if addr == other
        then (if ltb nonce (view t addr) then nonce else view t addr)
        else view t other)
unfolding set_if_lower load view
lower_view t addr nonce other = elim (Option-cases (get? addr t.nonces)) [
  | inl e ↦ ground (
    arith,
    e,
    get?-put addr other (t.fallback addr) t.nonces,
    get?-put addr other nonce (put addr (t.fallback addr) t.nonces),
  )
  | inr (n, e) ↦ ground (arith, e, get?-put addr other nonce t.nonces)
]

run-run_map :
    (calls : List Call) (t : TxNoncer) (nonces : ℕ → ℕ)
    → Represents t nonces
    → run t calls ≡ run_map nonces calls
unfolding Represents
run-run_map [] t nonces r = refl
run-run_map (gets addr ∷ calls) t nonces r =
    let rest = run-run_map calls (get t addr).0 nonces (λ other. get_view t addr other ∙ r other) in
    rw (get_value t addr ∙ r addr, rest) refl
run-run_map (sets addr nonce ∷ calls) t nonces r =
    run-run_map calls (set t addr nonce) (write nonces addr nonce) (λ other.
      set_view t addr nonce other ∙ ap (λ n. if addr == other then nonce else n) (r other))
run-run_map (lowers addr nonce ∷ calls) t nonces r =
    run-run_map calls (set_if_lower t addr nonce) _
      (λ other. lower_view t addr nonce other ∙ rw (r addr, r other) refl)

-- After any calls, every read of a new txNoncer returns what it returns of a map that starts as the
-- state database's, of which a write changes one nonce, SetIfLower takes the lower of two, and a read
-- changes nothing: the operations refine such a map.
pub noncer_refines :
    (statedb : ℕ → ℕ) (calls : List Call)
    → run (new_tx_noncer statedb) calls ≡ run_map statedb calls
noncer_refines statedb calls =
    run-run_map calls (new_tx_noncer statedb) statedb (new-Represents statedb)
