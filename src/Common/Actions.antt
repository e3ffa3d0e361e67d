-- ===== src/Common/Actions.antt =====
-- Methods that change a state and may raise. What was done before an exception stays done, so the
-- state comes back beside the error too.
use mathlib.Core.Path.{◌≡◌, refl}
use private_onyx_app.Common.Strings.{Text}
use private_onyx_app.Common.Errors.{Kind, Raised, Result, ok, err}

abbrev pub Action : Type 0 → Type 0 → Type 0
Action S A = S → Result A × S

module _ {S A : Type 0} where
  abbrev pub pure : A → Action S A
  pure a s = (ok a, s)

  abbrev pub throw : Kind → Text → Action S A
  throw k m s = (err (record { kind = k; message = m }), s)

  abbrev pub lift : Result A → Action S A
  lift r s = (r, s)

  abbrev pub gets : (S → A) → Action S A
  gets f s = (ok (f s), s)

module _ {S : Type 0} where
  abbrev pub modify : (S → S) → Action S (Unit {0})
  modify f s = (ok tt, f s)

module _ {S A B : Type 0} where
  abbrev pub continue : Result A → (A → Action S B) → Action S B
  continue (ok a) f s = f a s
  continue (err e) f s = (err e, s)

  abbrev pub bind : Action S A → (A → Action S B) → Action S B
  bind m f s = continue (m s).0 f (m s).1

  -- try m except e: handler e
  abbrev pub rescue : Result A → (A → Action S B) → (Raised → Action S B) → Action S B
  rescue (ok a) f g s = f a s
  rescue (err e) f g s = g e s

  -- Inversion of a chain that returned.
  pub continue-eq-ok :
      (r : Result A) (f : A → Action S B) (s : S) {b : B}
      → (continue r f s).0 ≡ ok b
      → (a : A) × (r ≡ ok a) × ((f a s).0 ≡ ok b)
  continue-eq-ok (ok a) f s h = (a, refl, h)
  continue-eq-ok (err e) f s h = cc

infixl 5 ◌>>>=◌
abbrev pub ◌>>>=◌ : {S A B : Type 0} → Action S A → (A → Action S B) → Action S B
◌>>>=◌ = bind
