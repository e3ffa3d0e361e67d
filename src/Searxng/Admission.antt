-- ===== src/Searxng/Admission.antt =====
-- searxng/engines/_x402_admission.py: at most one paid attempt at a time, and three seconds between starts.
-- Times are readings of the monotonic clock in microseconds. A token is a number that `uuid4` draws.
pub mod Threads
pub mod Waiting
use private_onyx_app.Common.{
  ok, codes, runtime_error, raise, ◌&&◌, ◌||◌, leb, min, not, true, ltb, ◌-◌, ◌+◌, ◌==◌, Result,
  some, if◌then◌else◌, ◌*◌, false, Bool, ℕ, none, Option,
}

pub record Admission : Type 0 where
  pub token : Option ℕ
  pub active : Bool
  -- none before the first start
  pub last_start : Option ℕ

unfoldable pub new_admission : Admission
new_admission = record { token = none; active = false; last_start = none }

abbrev pub spacing : ℕ
spacing = 3 * 1000000

unfoldable pub is_cooling : ℕ → Option ℕ → Bool
is_cooling now none = false
is_cooling now (some start) = ltb now (start + spacing)

abbrev pub is_set : Option ℕ → Bool
is_set none = false
is_set (some t) = true

-- The reservation, with the token that is drawn if it is granted.
unfoldable pub reserve : Bool → ℕ → ℕ → Admission → Option ℕ × Admission
unfolding is_cooling
reserve available now drawn s =
    if not available || s.active || is_set s.token || is_cooling now s.last_start
    then (none, s)
    else (some drawn, record s { token = some drawn })

unfoldable pub is_token : Option ℕ → Option ℕ → Bool
is_token none held = false
is_token (some t) none = false
is_token (some t) (some u) = t == u

-- The admission, and whether those who wait were notified.
unfoldable pub release : Option ℕ → Admission → Admission × Bool
unfolding is_token
release token s = if is_token token s.token then (record s { token = none }, true) else (s, false)

-- Entering and leaving the context of `ownership`.
unfoldable pub own : Option ℕ → Admission → Result Admission
unfolding is_token
own token s =
    if not (is_token token s.token) || s.active
    then raise runtime_error (codes "invalid_api_reservation")
    else ok (record s { token = none; active = true })

unfoldable pub disown : Admission → Admission
disown s = record s { active = false }

unfoldable pub record_start : ℕ → Admission → Result Admission
record_start now s =
    if not s.active
    then raise runtime_error (codes "api_attempt_not_owned")
    else ok (record s { last_start = some now })

-- What a round of `wait` sees: `available` twice, and the clock before, in and after `reserve`.
pub record Seen : Type 0 where
  pub available : Bool
  pub still_available : Bool
  pub entered : ℕ
  pub reserved : ℕ
  pub computed : ℕ

-- What a round of `wait` comes to: the wait of `sleep` is without limit where there is none.
pub data Round : Type 0 where
  expired : Round
  granted : ℕ → Round
  sleep : Option ℕ → Round

unfoldable pub cooling_left : ℕ → Option ℕ → Option ℕ
cooling_left now none = none
cooling_left now (some start) =
    if ltb now (start + spacing) then some (start + spacing - now) else none

-- How long the last start still cools, where nothing else is in the way.
unfoldable pub cooling : ℕ → Admission → Option ℕ
unfolding cooling_left
cooling now s = if s.active || is_set s.token then none else cooling_left now s.last_start

unfoldable pub shorter : Option ℕ → Option ℕ → Option ℕ
shorter none remaining = remaining
shorter (some d) none = some d
shorter (some d) (some r) = some (min d r)

unfoldable pub is_over : ℕ → Option ℕ → Bool
is_over now none = false
is_over now (some deadline) = leb deadline now

unfoldable pub remaining : ℕ → Option ℕ → Option ℕ
remaining now none = none
remaining now (some deadline) = some (deadline - now)

unfoldable pub after_reserve : Option ℕ → Seen → Option ℕ × Admission → Round × Admission
unfolding cooling shorter remaining
after_reserve deadline seen (some token, s) = (granted token, s)
after_reserve deadline seen (none, s) =
    (sleep (shorter (cooling seen.computed s) (remaining seen.entered deadline)), s)

unfoldable pub wait_round : Option ℕ → ℕ → Seen → Admission → Round × Admission
unfolding reserve after_reserve is_over
wait_round deadline drawn seen s =
    if not seen.available || is_over seen.entered deadline
    then (expired, s)
    else after_reserve deadline seen (reserve seen.still_available seen.reserved drawn s)
