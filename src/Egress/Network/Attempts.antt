-- ===== src/Egress/Network/Attempts.antt =====
-- Inversion of `try` blocks.
use private_onyx_app.Common.{
  ◌≡◌, refl, ◌⊎◌, inl, inr, Bool, true, false, if◌then◌else◌, Kind, Raised, Result, ok, err,
}
use private_onyx_app.Common.Actions.{Action, pure, continue}
use private_onyx_app.Egress.Network.{Log, ◌>>=◌, handled, attempt}

module _ {A B : Type 0} (f : A → B) (catches : Kind → Bool) (g : Raised → B) where
  caught_inv :
      (c : Bool) (e : Raised) (log : Log) (b : B)
      → ((if c then pure (g e) log else (err e, log)).0) ≡ ok b
      → g e ≡ b
  caught_inv true e log b h = cc h
  caught_inv false e log b h = absurd (cc h)

  result_inv :
      (r : Result A) (log : Log) (b : B)
      → (handled catches
          (λ e. pure (g e))
          (continue r (λ a. pure (f a)) log).0
          (continue r (λ a. pure (f a)) log).1).0
        ≡ ok b
      → ((a : A) × (r ≡ ok a) × (f a ≡ b)) ⊎ ((e : Raised) × (g e ≡ b))
  result_inv (ok a) log b h = inl (a, refl, cc h)
  result_inv (err e) log b h = inr (e, caught_inv (catches e.kind) e log b h)

  -- A lookup whose answers and failures both become outcomes.
  pub attempt_inv :
      (m : Action Log A) (log : Log) (b : B)
      → (attempt (m >>= λ a. pure (f a)) catches (λ e. pure (g e)) log).0 ≡ ok b
      → ((a : A) × ((m log).0 ≡ ok a) × (f a ≡ b)) ⊎ ((e : Raised) × (g e ≡ b))
  attempt_inv m log b = result_inv (m log).0 (m log).1 b
