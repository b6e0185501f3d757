-- ===== src/Timeout.antt =====
-- internal/utils/timer.go: a timeout. The time is a number of nanoseconds, an argument of the
-- methods that read the clock; the clock does not go back.
use benzene.Prelude.{
  ℕ, ◌-◌, ◌≡◌, ◌∙◌, refl, inl, inr, Bool, true, false, List, [], ◌∷◌, ◌++◌, Bool-cases, ltb,
  if◌then◌else◌,
}

pub data TimeoutState : Type 0 where
  active inactive expired : TimeoutState

pub record Timeout : Type 0 where
  pub state : TimeoutState
  pub d : ℕ
  pub start_time : ℕ

unfoldable pub new_timeout : ℕ → ℕ → Timeout
new_timeout now d = record { state = inactive; d = d; start_time = now }

unfoldable pub start : ℕ → Timeout → Timeout
start now t = record t { state = active; start_time = now }

unfoldable pub stop : ℕ → Timeout → Timeout
stop now t = record t { state = inactive; start_time = now }

abbrev pub is_expired : TimeoutState → Bool
is_expired expired = true
is_expired _ = false

abbrev pub is_active_state : TimeoutState → Bool
is_active_state active = true
is_active_state _ = false

unfoldable pub check_expire : ℕ → Timeout → Timeout × Bool
check_expire now t =
    let t' : Timeout =
      if is_active_state t.state
      then (if ltb t.d (now - t.start_time) then record t { state = expired } else t)
      else t in
    (t', is_expired t'.state)

unfoldable pub set_duration : ℕ → Timeout → Timeout
set_duration nd t = record t { d = nd }

unfoldable pub is_active : Timeout → Bool
is_active t = is_active_state t.state

-- The checks of a timeout at some times.
unfoldable pub check_all : List ℕ → Timeout → Timeout
check_all [] t = t
check_all (now ∷ times) t = check_all times (check_expire now t).0

abbrev pub any_late : ℕ → ℕ → List ℕ → Bool
any_late began d [] = false
any_late began d (now ∷ times) = if ltb d (now - began) then true else any_late began d times

rests : (now : ℕ) (t : Timeout) → is_active_state t.state ≡ false → (check_expire now t).0 ≡ t
unfolding check_expire
rests now t idle = rw idle refl

expired_stays :
    (times : List ℕ) (t : Timeout) → t.state ≡ expired → (check_all times t).state ≡ expired
unfolding check_all
expired_stays [] t e = e
expired_stays (now ∷ times) t e =
    let idle : is_active_state t.state ≡ false = rw e refl in
    rw (rests now t idle, check_all) (expired_stays times t e)

expires :
    (now : ℕ) (t : Timeout)
    → is_active_state t.state ≡ true
    → ltb t.d (now - t.start_time) ≡ true
    → (check_expire now t).0 ≡ record t { state = expired }
unfolding check_expire
expires now t live late = rw (live, late) refl

lives : (now : ℕ) (t : Timeout) → ltb t.d (now - t.start_time) ≡ false → (check_expire now t).0 ≡ t
unfolding check_expire
lives now t early = elim (Bool-cases (is_active_state t.state)) [
  | inl live ↦ rw (live, early) refl
  | inr idle ↦ rw idle refl
]

checked :
    (times : List ℕ) (t : Timeout)
    → t.state ≡ active
    → is_expired (check_all times t).state ≡ any_late t.start_time t.d times
unfolding check_all
checked [] t e = rw e refl
checked (now ∷ times) t e =
    let live : is_active_state t.state ≡ true = rw e refl in
    elim (Bool-cases (ltb t.d (now - t.start_time))) [
      | inl late ↦
          let ends : is_expired (check_all times (record t { state = expired })).state ≡ true =
            rw (expired_stays times (record t { state = expired }) refl) refl in
          rw (expires now t live late, late, check_all) ends
      | inr early ↦ rw (lives now t early, early, check_all) (checked times t e)
    ]

last_check :
    (later : ℕ) (times : List ℕ) (t : Timeout)
    → (check_expire later (check_all times t)).1
      ≡ is_expired (check_all (times ++ later ∷ []) t).state
unfolding check_all check_expire
last_check later [] t = refl
last_check later (now ∷ times) t = last_check later times (check_expire now t).0

-- A timeout that is started and then checked at some times is expired at the last of them exactly
-- if one of them is later than the start by more than its duration.
pub check_all-start :
    (now later : ℕ) (times : List ℕ) (t : Timeout)
    → (check_expire later (check_all times (start now t))).1
      ≡ any_late now t.d (times ++ later ∷ [])
unfolding start
check_all-start now later times t =
    last_check later times (start now t) ∙ checked (times ++ later ∷ []) (start now t) refl
