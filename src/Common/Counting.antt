-- ===== src/Common/Counting.antt =====
-- The sum of the weights of a list, and how it changes when an element is replaced.
use Prim.Native.Nat.{ℕ, zero, suc, ◌+◌, ◌≤◌, ◌<◌}
use mathlib.Core.Path.{◌≡◌, refl, sym, subst}
use mathlib.Core.List.{List, [], ◌∷◌}
use mathlib.Core.Option.{some}
use native.Mathlib.Omega.{arith}
use private_onyx_app.Common.Tests.{some_inv}
use private_onyx_app.Common.Lists.{get_elem?, set, replicate}

module _ {ℓ} {A : Type ℓ} where
  unfoldable pub total : (A → ℕ) → List A → ℕ
  total w [] = 0
  total w (t ∷ ts) = w t + total w ts

  pub total-set :
      (w : A → ℕ) (ts : List A) (i : ℕ) (t u : A)
      → get_elem? ts i ≡ some t
      → total w (set ts i u) + w t ≡ total w ts + w u
  unfolding total
  total-set w [] i t u h = ground arith
  total-set w (x ∷ ts) zero t u h =
      subst (λ y. w u + total w ts + w y ≡ w x + total w ts + w u) (some_inv h) (omega arith)
  total-set w (x ∷ ts) (suc i) t u h = omega (arith, total-set w ts i t u h)

  pub total-replicate : (w : A → ℕ) (count : ℕ) (a : A) → w a ≡ 0 → total w (replicate count a) ≡ 0
  unfolding total replicate
  total-replicate w zero a e = refl
  total-replicate w (suc count) a e = omega (arith, e, total-replicate w count a e)

  pub total-sum : (v w : A → ℕ) (ts : List A) → total (λ t. v t + w t) ts ≡ total v ts + total w ts
  unfolding total
  total-sum v w [] = refl
  total-sum v w (t ∷ ts) = omega (arith, total-sum v w ts)

  pub total-le : (v w : A → ℕ) (ts : List A) → ((a : A) → v a ≤ w a) → total v ts ≤ total w ts
  unfolding total
  total-le v w [] h = omega arith
  total-le v w (t ∷ ts) h = omega (arith, h t, total-le v w ts h)

  -- A weight that is nowhere larger, and smaller at some position, has a smaller sum.
  pub total-lt :
      (v w : A → ℕ) (ts : List A) (i : ℕ) (a : A)
      → ((b : A) → v b ≤ w b)
      → get_elem? ts i ≡ some a
      → v a < w a
      → total v ts < total w ts
  unfolding total
  total-lt v w [] i a h e h' = ground arith
  total-lt v w (t ∷ ts) zero a h e h' =
      omega (arith, total-le v w ts h, subst (λ b. v b < w b) (sym (some_inv e)) h')
  total-lt v w (t ∷ ts) (suc i) a h e h' = omega (arith, h t, total-lt v w ts i a h e h')

  pub total-at :
      (w : A → ℕ) (ts : List A) (i : ℕ) (t : A) → get_elem? ts i ≡ some t → w t ≤ total w ts
  unfolding total
  total-at w [] i t h = ground arith
  total-at w (x ∷ ts) zero t h = subst (λ y. w y ≤ w x + total w ts) (some_inv h) (omega arith)
  total-at w (x ∷ ts) (suc i) t h = omega (arith, total-at w ts i t h)

  -- An element that has a weight.
  pub record Found (w : A → ℕ) (ts : List A) : Type ℓ where
    pub position : ℕ
    pub found : A
    pub is_there : get_elem? ts position ≡ some found
    pub weighs : 0 < w found

  pub total-Found : (w : A → ℕ) (ts : List A) → 0 < total w ts → Found w ts
  unfolding total
  total-Found w [] h = absurd (omega (arith, h))
  total-Found w (t ∷ ts) h = by_weight (w t) refl (λ e. total-Found w ts (omega (arith, e, h)))
    where
      by_weight : (n : ℕ) → w t ≡ n → (w t ≡ 0 → Found w ts) → Found w (t ∷ ts)
      by_weight zero e later = record {
        position = suc (later e).position;
        found = (later e).found;
        is_there = (later e).is_there;
        weighs = (later e).weighs;
      }
      by_weight (suc n) e later = record {
        position = 0;
        found = t;
        is_there = refl;
        weighs = omega (arith, e);
      }
