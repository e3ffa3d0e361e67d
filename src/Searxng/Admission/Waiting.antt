-- ===== src/Searxng/Admission/Waiting.antt =====
-- What a round of `wait` sleeps for.
use private_onyx_app.Searxng.Admission.{
  Round, is_over, remaining, cooling_left, sleep, is_set, Seen, after_reserve, reserve, wait_round,
  cooling, shorter, Admission,
}
use private_onyx_app.Common.{
  min, arith, ◌-◌, or_false, not, ◌∙◌, sym, if-elim, ◌≤◌, ◌+◌, ◌<◌, ◌||◌, ◌≡◌, Option, ℕ, none,
  some, true, false, refl,
}

-- A sleep without limit has someone who will notify, and one with a limit ends when a reservation is granted.
pub data Justified (s : Admission) (now : ℕ) : Option ℕ → Type 0 where
  someone : (s.active || is_set s.token) ≡ true → Justified s now none
  cools :
      (d : ℕ)
      → 0 < d
      → ((drawn : ℕ) → (reserve true (now + d) drawn s).0 ≡ some drawn)
      → Justified s now (some d)

sleep_inv :
    (l m : Option ℕ) (s t : Admission)
    → ◌≡◌ {A = Round × Admission} (sleep l, s) (sleep m, t)
    → (l ≡ m) × (s ≡ t)
sleep_inv l m s t e = (cc e, cc e)

after_reserve-sleep :
    (deadline : Option ℕ) (seen : Seen) (r : Option ℕ × Admission) (limit : Option ℕ)
    (s' : Admission)
    → after_reserve deadline seen r ≡ (sleep limit, s')
    → (r.0 ≡ none)
      × (r.1 ≡ s')
      × (limit ≡ shorter (cooling seen.computed r.1) (remaining seen.entered deadline))
unfolding after_reserve
after_reserve-sleep deadline seen (none, s) limit s' e =
    let (same, kept) = sleep_inv _ _ s s' e in (refl, kept, sym same)
after_reserve-sleep deadline seen (some t, s) limit s' e = absurd (cc e)

wait_round-sleep :
    (deadline : Option ℕ) (drawn : ℕ) (seen : Seen) (s s' : Admission) (limit : Option ℕ)
    → wait_round deadline drawn seen s ≡ (sleep limit, s')
    → (is_over seen.entered deadline ≡ false)
      × (after_reserve deadline seen (reserve seen.still_available seen.reserved drawn s)
          ≡ (sleep limit, s'))
unfolding wait_round
wait_round-sleep deadline drawn seen s s' limit =
    if-elim
      (λ r.
        r ≡ (sleep limit, s')
        → (is_over seen.entered deadline ≡ false)
          × (after_reserve deadline seen (reserve seen.still_available seen.reserved drawn s)
              ≡ (sleep limit, s')))
      (not seen.available || is_over seen.entered deadline) (λ e h. absurd (cc h))
      (λ e h. ((or_false _ _ e).1, h))

left-positive : (now : ℕ) (start : Option ℕ) (d : ℕ) → cooling_left now start ≡ some d → 0 < d
unfolding cooling_left
left-positive now none d h = absurd (cc h)
left-positive now (some t) d h = ground (arith, h)

cooling-positive : (now : ℕ) (s : Admission) (d : ℕ) → cooling now s ≡ some d → 0 < d
unfolding cooling
cooling-positive now s d =
    if-elim (λ o. o ≡ some d → 0 < d) (s.active || is_set s.token) (λ e h. absurd (cc h))
      (λ e h. left-positive now s.last_start d h)

shorter-bounded :
    (o : Option ℕ) (r : ℕ)
    → ((d : ℕ) → o ≡ some d → 0 < d)
    → 0 < r
    → (d : ℕ) × (shorter o (some r) ≡ some d) × (0 < d) × (d ≤ r)
unfolding shorter
shorter-bounded none r h h' = (r, refl, h', omega arith)
shorter-bounded (some d) r h h' = (min d r, refl, omega (arith, h d refl, h'), omega arith)

-- With a deadline, a round that sleeps does so for a positive time, which is no longer than what remained
-- of the deadline at the clock reading that the round began with.
pub wait_round-bounded :
    (deadline drawn : ℕ) (seen : Seen) (s s' : Admission) (limit : Option ℕ)
    → wait_round (some deadline) drawn seen s ≡ (sleep limit, s')
    → (d : ℕ) × (limit ≡ some d) × (0 < d) × (seen.entered + d ≤ deadline)
unfolding remaining is_over
wait_round-bounded deadline drawn seen s s' limit e =
    let (over, e') = wait_round-sleep (some deadline) drawn seen s s' limit e in
    let (_, _, limits) =
      after_reserve-sleep (some deadline) seen (reserve seen.still_available seen.reserved drawn s)
        limit s' e' in
    let (d, is_d, positive, short) =
      shorter-bounded _ (deadline - seen.entered)
        (cooling-positive seen.computed (reserve seen.still_available seen.reserved drawn s).1)
        (ground (arith, over)) in
    (d, limits ∙ is_d, positive, ground (arith, short, over))
