-- ===== src/FbftLog/Queries.antt =====
-- What the queries of the log find.
use benzene.Prelude.{
  ℕ, ◌≡◌, ◌≢◌, refl, ap, ◌↔◌, ◌⊎◌, inl, inr, Bool, true, false, some, List, [], ◌∷◌, arith, get?,
  get?-put, values, length, In, In-select, select-In, In-values_iff, Bool-cases, ◌==◌, leb,
}
use benzene.FbftLog.{
  FbftMessage, FbftLog, id, verify, announce, add_verified_message, add_not_verified_message,
  find_messages, is_type_seq_view_hash, is_type_seq_view, get_messages_by_type_seq_view_hash,
  get_messages_by_type_seq_view, has_matching_view_announce,
}
use benzene.FbftLog.Entries.{IsLog, id-verify, step, step-IsLog, adds_verified, adds_not_verified}

-- The log has this message.
abbrev pub Stored : FbftLog → FbftMessage → Type 0
Stored log m = get? (id m) log.messages ≡ some m

pub find_messages_iff :
    (p : FbftMessage → Bool) (log : FbftLog) (m : FbftMessage)
    → IsLog log
    → In m (find_messages p log) ↔ (Stored log m × (p m ≡ true))
find_messages_iff p log m h =
    let at = In-values_iff id m log.messages h.message_map h.message_keys in
    (
      λ i. let (v, t) = In-select p m (values log.messages) i in (at.0 v, t),
      λ (s, t). select-In p m (values log.messages) (at.1 s) t,
    )

-- GetMessagesByTypeSeqViewHash returns exactly the verified messages of the log with that type,
-- block number, view and block hash.
pub get_messages_by_type_seq_view_hash_iff :
    (log : FbftLog) (typ num view hash : ℕ) (m : FbftMessage)
    → IsLog log
    → In m (get_messages_by_type_seq_view_hash log typ num view hash) ↔ (
        Stored log m
        × (m.message_type ≡ typ)
        × (m.block_num ≡ num)
        × (m.view_id ≡ view)
        × (m.block_hash ≡ hash)
        × (m.verified ≡ true))
unfolding get_messages_by_type_seq_view_hash
get_messages_by_type_seq_view_hash_iff log typ num view hash m h =
    let (out, into) = find_messages_iff (is_type_seq_view_hash typ num view hash) log m h in
    (λ i. let (s, t) = out i in ground arith, λ (s, a, b, c, d, v). into (s, ground arith))

-- GetMessagesByTypeSeqView compares the view of verified messages only: it returns exactly the
-- messages of the log with that type and block number that have that view or are not verified.
pub get_messages_by_type_seq_view_iff :
    (log : FbftLog) (typ num view : ℕ) (m : FbftMessage)
    → IsLog log
    → In m (get_messages_by_type_seq_view log typ num view) ↔ (
        Stored log m
        × (m.message_type ≡ typ)
        × (m.block_num ≡ num)
        × ((m.view_id ≡ view) ⊎ (m.verified ≡ false)))
unfolding get_messages_by_type_seq_view
get_messages_by_type_seq_view_iff log typ num view m h =
    let (out, into) = find_messages_iff (is_type_seq_view typ num view) log m h in
    (λ i. let (s, t) = out i in ground arith, λ (s, a, b, c). into (s, ground arith))

nonempty : {A : Type 0} (xs : List A) → leb 1 (length xs) ≡ true → (a : A) × In a xs
nonempty [] e = absurd (ground arith)
nonempty (x ∷ xs) e = (x, inl refl)

In-nonempty : {A : Type 0} (a : A) (xs : List A) → In a xs → leb 1 (length xs) ≡ true
In-nonempty a [] i = absurd i
In-nonempty a (x ∷ xs) i = ground arith

Stored-added :
    (log : FbftLog) (m : FbftMessage) → Stored (add_verified_message log m) (verify true m)
unfolding add_verified_message
Stored-added log m =
    rw id-verify (ground (arith, get?-put (id m) (id m) (verify true m) log.messages))

Stored-other :
    (log : FbftLog) (m n : FbftMessage)
    → n.verified ≡ true
    → Stored (add_not_verified_message log m) n
    → (id n ≢ id m) × Stored log n
unfolding add_not_verified_message
Stored-other log m n v s =
    let at = get?-put (id m) (id n) (verify false m) log.messages in
    elim (Bool-cases (id m == id n)) [
      | inl same ↦
          let e : verify false m ≡ n = ground arith in
          absurd (ground (arith, ap (λ (x : FbftMessage). x.verified) e))
      | inr other ↦ (λ e. ground arith, ground arith)
    ]

add_not-IsLog :
    (log : FbftLog) (m : FbftMessage) → IsLog log → IsLog (add_not_verified_message log m)
unfolding step
add_not-IsLog log m h = step-IsLog log (adds_not_verified m) h

add-IsLog : (log : FbftLog) (m : FbftMessage) → IsLog log → IsLog (add_verified_message log m)
unfolding step
add-IsLog log m h = step-IsLog log (adds_verified m) h

-- An announce message that is added as verified is found by HasMatchingViewAnnounce, whatever was
-- in the log.
add_verified_message-has_matching_view_announce :
    (log : FbftLog) (m : FbftMessage)
    → IsLog log
    → m.message_type ≡ announce
    → has_matching_view_announce (add_verified_message log m) m.block_num m.view_id m.block_hash
      ≡ true
unfolding has_matching_view_announce
add_verified_message-has_matching_view_announce log m h typ = In-nonempty (verify true m) _ (
    (get_messages_by_type_seq_view_hash_iff (add_verified_message log m) announce m.block_num
        m.view_id m.block_hash (verify true m) (add-IsLog log m h)).1
      (Stored-added log m, typ, refl, refl, refl, refl))

-- Adding a message as not verified takes away any verified message with the same id: what the
-- query for verified messages returns afterwards it returned before, and it has another id.
add_not_verified_message-hides :
    (log : FbftLog) (m n : FbftMessage) (typ num view hash : ℕ)
    → IsLog log
    → In n (get_messages_by_type_seq_view_hash (add_not_verified_message log m) typ num view hash)
    → (id n ≢ id m) × In n (get_messages_by_type_seq_view_hash log typ num view hash)
add_not_verified_message-hides log m n typ num view hash h i =
    let (s, a, b, c, d, v) =
      (get_messages_by_type_seq_view_hash_iff (add_not_verified_message log m) typ num view hash n
          (add_not-IsLog log m h)).0
        i in
    let (other, old) = Stored-other log m n v s in
    (
      other,
      (get_messages_by_type_seq_view_hash_iff log typ num view hash n h).1 (old, a, b, c, d, v),
    )
