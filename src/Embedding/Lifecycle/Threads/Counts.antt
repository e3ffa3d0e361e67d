-- ===== src/Embedding/Lifecycle/Threads/Counts.antt =====
-- How many threads are at a point, before and after one of them acts.
use private_onyx_app.Common.{
  total-set, total, ℕ, ◌+◌, ◌≡◌, refl, Bool, true, false, List, [], ◌∷◌, some, sym, arith, map,
  get_elem?, set,
}
use private_onyx_app.Embedding.Lifecycle.Threads.{
  Thread, outside, asleep, starting, serving, reaping, closing, terminating, wake, wake_if,
}

abbrev pub Weight : Type 0
Weight = Thread → ℕ

abbrev pub serves : Weight
serves serving = 1
serves _ = 0

abbrev pub starts : Weight
starts starting = 1
starts _ = 0

abbrev pub reaps : Weight
reaps (reaping p) = 1
reaps _ = 0

abbrev pub sleeps : Weight
sleeps asleep = 1
sleeps _ = 0

abbrev pub closes : Weight
closes closing = 1
closes _ = 0

abbrev pub terminates : Weight
terminates (terminating child) = 1
terminates _ = 0

wake-keeps : (w : Weight) → w asleep ≡ w outside → (t : Thread) → w (wake t) ≡ w t
wake-keeps w e asleep = sym e
wake-keeps w e _ = refl

-- Waking the sleepers changes no count that weighs them as those outside.
total-wake :
    (w : Weight) (ts : List Thread) → w asleep ≡ w outside → total w (map wake ts) ≡ total w ts
unfolding total
total-wake w [] e = refl
total-wake w (t ∷ ts) e = omega (arith, wake-keeps w e t, total-wake w ts e)

pub total-moved :
    (w : Weight) (ts : List Thread) (i : ℕ) (t u : Thread) (notified : Bool)
    → w asleep ≡ w outside
    → get_elem? ts i ≡ some t
    → total w (wake_if notified (set ts i u)) + w t ≡ total w ts + w u
total-moved w ts i t u false e h = total-set w ts i t u h
total-moved w ts i t u true e h = omega (arith, total-set w ts i t u h, total-wake w (set ts i u) e)

pub sleeps-wake : (ts : List Thread) → total sleeps (map wake ts) ≡ 0
unfolding total
sleeps-wake [] = refl
sleeps-wake (t ∷ ts) = omega (arith, awake t, sleeps-wake ts)
  where
    awake : (t : Thread) → sleeps (wake t) ≡ 0
    awake asleep = refl
    awake _ = refl

-- The threads at the six points, before and after a step.
pub record Census : Type 0 where
  pub serving : ℕ
  pub starting : ℕ
  pub reaping : ℕ
  pub asleep : ℕ
  pub closing : ℕ
  pub terminating : ℕ

abbrev pub census : List Thread → Census
census ts = record {
  serving = total serves ts;
  starting = total starts ts;
  reaping = total reaps ts;
  asleep = total sleeps ts;
  closing = total closes ts;
  terminating = total terminates ts;
}

-- One thread moved from `t` to `u`; then all that slept were woken if `notified`.
pub record Moved (t u : Thread) (notified : Bool) (n n' : Census) : Type 0 where
  pub serving : n'.serving + serves t ≡ n.serving + serves u
  pub starting : n'.starting + starts t ≡ n.starting + starts u
  pub reaping : n'.reaping + reaps t ≡ n.reaping + reaps u
  pub asleep : notified ≡ false → n'.asleep + sleeps t ≡ n.asleep + sleeps u
  pub woken : notified ≡ true → n'.asleep ≡ 0
  pub closing : n'.closing + closes t ≡ n.closing + closes u
  pub terminating : n'.terminating + terminates t ≡ n.terminating + terminates u

pub Moved-set :
    (ts : List Thread) (i : ℕ) (t u : Thread) (notified : Bool)
    → get_elem? ts i ≡ some t
    → Moved t u notified (census ts) (census (wake_if notified (set ts i u)))
Moved-set ts i t u notified h = record {
  serving = total-moved serves ts i t u notified refl h;
  starting = total-moved starts ts i t u notified refl h;
  reaping = total-moved reaps ts i t u notified refl h;
  asleep = λ e. asleep-moved notified e;
  woken = λ e. asleep-woken notified e;
  closing = total-moved closes ts i t u notified refl h;
  terminating = total-moved terminates ts i t u notified refl h;
}
  where
    asleep-moved :
        (b : Bool)
        → b ≡ false
        → total sleeps (wake_if b (set ts i u)) + sleeps t ≡ total sleeps ts + sleeps u
    asleep-moved false e = total-set sleeps ts i t u h
    asleep-moved true e = absurd (cc e)

    asleep-woken : (b : Bool) → b ≡ true → total sleeps (wake_if b (set ts i u)) ≡ 0
    asleep-woken false e = absurd (cc e)
    asleep-woken true e = sleeps-wake (set ts i u)
