-- ===== src/TxPool/Lookup.antt =====
-- txLookup and accountSet of core/tx_pool.go. The sender of a transaction is recovered by the
-- signer's elliptic curve library: a parameter, `none` where it fails.
use benzene.Prelude.{
  ℕ, ◌+◌, ◌-◌, ◌*◌, ◌/◌, ◌≡◌, refl, Bool, false, Option, none, some, List, [], ◌∷◌, arith, Dict,
  get?, has, put, remove, keys, length, IsMap, get?-remove, put-IsMap, remove-IsMap, remove_absent,
  IsKeyed, put-IsKeyed, remove-IsKeyed, ◌==◌, if◌then◌else◌,
}
use benzene.TxPool.Transaction.{Transaction}

abbrev pub tx_slot_size : ℕ
tx_slot_size = 32 * 1024

-- Size is a float64 of a whole number, and `int` rounds down.
abbrev pub num_slots : Transaction → ℕ
num_slots tx = (tx.size + tx_slot_size - 1) / tx_slot_size

pub record TxLookup : Type 0 where
  pub all : Dict Transaction
  pub slots : ℕ

unfoldable pub new_tx_lookup : TxLookup
new_tx_lookup = record { all = []; slots = 0 }

unfoldable pub get : TxLookup → ℕ → Option Transaction
get t hash = get? hash t.all

unfoldable pub count : TxLookup → ℕ
count t = length t.all

unfoldable pub add : TxLookup → Transaction → TxLookup
add t tx = record { all = put tx.hash tx t.all; slots = t.slots + num_slots tx }

-- `none` is the panic of numSlots on nil: a hash that is not there must not be removed.
unfoldable pub delete : TxLookup → ℕ → Option TxLookup
delete t hash = elim (get? hash t.all) [
  | none ↦ none
  | some tx ↦ some (record { all = remove hash t.all; slots = t.slots - num_slots tx })
]

pub record AccountSet : Type 0 where
  pub accounts : Dict (Unit {0})
  pub cache : Option (List ℕ)

unfoldable pub contains : AccountSet → ℕ → Bool
contains s addr = has addr s.accounts

unfoldable pub is_empty : AccountSet → Bool
is_empty s = length s.accounts == 0

unfoldable pub add_account : AccountSet → ℕ → AccountSet
add_account s addr = record { accounts = put addr tt s.accounts; cache = none }

unfoldable pub add_accounts : AccountSet → List ℕ → AccountSet
unfolding add_account
add_accounts s [] = s
add_accounts s (a ∷ as') = add_accounts (add_account s a) as'

unfoldable pub new_account_set : List ℕ → AccountSet
unfolding add_accounts
new_account_set addrs = add_accounts (record { accounts = []; cache = none }) addrs

unfoldable pub flatten : AccountSet → AccountSet × List ℕ
flatten s = elim s.cache [
  | some c ↦ (s, c)
  | none ↦ (record s { cache = some (keys s.accounts) }, keys s.accounts)
]

unfoldable pub put_accounts : List ℕ → Dict (Unit {0}) → Dict (Unit {0})
put_accounts [] m = m
put_accounts (a ∷ rest) m = put_accounts rest (put a tt m)

unfoldable pub merge : AccountSet → AccountSet → AccountSet
unfolding put_accounts
merge s other = record { accounts = put_accounts (keys other.accounts) s.accounts; cache = none }

module _ (sender : Transaction → Option ℕ) where
  unfoldable pub contains_tx : AccountSet → Transaction → Bool
  unfolding contains
  contains_tx s tx = elim (sender tx) [ some addr ↦ contains s addr | none ↦ false ]

  unfoldable pub add_tx : AccountSet → Transaction → AccountSet
  unfolding add_account
  add_tx s tx = elim (sender tx) [ some addr ↦ add_account s addr | none ↦ s ]

abbrev pub hash_of : Transaction → ℕ
hash_of tx = tx.hash

abbrev pub total_slots : Dict Transaction → ℕ
total_slots [] = 0
total_slots ((h, tx) ∷ m) = num_slots tx + total_slots m

-- Transactions are filed under their hashes, and the slots are the sum of theirs.
pub record IsLookup (t : TxLookup) : Type 0 where
  pub keyed : IsMap t.all
  pub hashed : IsKeyed hash_of t.all
  pub summed : t.slots ≡ total_slots t.all

total_slots-put :
    (h : ℕ) (tx : Transaction) (m : Dict Transaction)
    → get? h m ≡ none
    → total_slots (put h tx m) ≡ total_slots m + num_slots tx
total_slots-put h tx [] e = omega arith
total_slots-put h tx ((j, x) ∷ m) e = ground (arith, total_slots-put h tx m)

total_slots-remove :
    (h : ℕ) (tx : Transaction) (m : Dict Transaction)
    → IsMap m
    → get? h m ≡ some tx
    → total_slots (remove h m) + num_slots tx ≡ total_slots m
total_slots-remove h tx [] u e = absurd (cc)
total_slots-remove h tx ((j, x) ∷ m) u e =
    ground (arith, total_slots-remove h tx m u.1, remove_absent j m u.0)

-- Adding a transaction that is not there, and removing one that is, keep the lookup in order: its
-- slots stay the sum of its transactions' slots. Removing takes out that hash and no other, and
-- removing an unknown hash panics.
pub IsLookup-keeps :
    (t : TxLookup) (tx : Transaction) (hash other : ℕ)
    → IsLookup t
    → (get t tx.hash ≡ none → IsLookup (add t tx))
      × (get t hash ≡ none → delete t hash ≡ none)
      × ((old : Transaction)
          → get t hash ≡ some old
          → (u : TxLookup) × (delete t hash ≡ some u)
            × IsLookup u
            × (get u other ≡ (if hash == other then none else get t other)))
unfolding get add delete
IsLookup-keeps t tx hash other h = (
  λ e. record {
    keyed = put-IsMap tx.hash tx t.all h.keyed;
    hashed = put-IsKeyed hash_of tx t.all h.hashed;
    summed = omega (arith, h.summed, total_slots-put tx.hash tx t.all e);
  },
  λ e. rw (e, delete),
  λ old e. (
    record { all = remove hash t.all; slots = t.slots - num_slots old },
    rw (e, delete) refl,
    record {
      keyed = remove-IsMap hash t.all h.keyed;
      hashed = remove-IsKeyed hash_of hash t.all h.hashed;
      summed = omega (arith, h.summed, total_slots-remove hash old t.all h.keyed e);
    },
    get?-remove hash other t.all,
  ),
)
