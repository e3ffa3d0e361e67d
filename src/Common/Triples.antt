-- ===== src/Common/Triples.antt =====
-- Assertions about actions: from a state with `P`, an action that returns leaves `Q` of its value and the
-- state, and one that raises leaves `E`.
use mathlib.Core.Bool.{Bool, true, false}
use mathlib.Core.Path.{◌≡◌, refl}
use private_onyx_app.Common.Tests.{if◌then◌else◌}
use private_onyx_app.Common.Errors.{Raised, Result, ok, err}
use private_onyx_app.Common.Actions.{Action, pure, bind, continue, rescue}

module _ {S : Type 0} (E : S → Type 0) where
  abbrev pub Holds : {A : Type 0} → (A → S → Type 0) → Result A → S → Type 0
  Holds Q (ok a) s = Q a s
  Holds Q (err e) s = E s

  pub record Triple {A : Type 0} (P : S → Type 0) (m : Action S A) (Q : A → S → Type 0)
      : Type 0 where
    pub holds : (s : S) → P s → Holds Q (m s).0 (m s).1

  Holds-continue :
      {A B : Type 0} (Q : A → S → Type 0) (R : B → S → Type 0) (r : Result A) (f : A → Action S B)
      (s : S)
      → Holds Q r s
      → ((a : A) → Triple (Q a) (f a) R)
      → Holds R (continue r f s).0 (continue r f s).1
  Holds-continue Q R (ok a) f s h h' = (h' a).holds s h
  Holds-continue Q R (err e) f s h h' = h

  pub Triple-bind :
      {A B : Type 0} {P : S → Type 0} {Q : A → S → Type 0} {R : B → S → Type 0} {m : Action S A}
      {f : A → Action S B}
      → Triple P m Q
      → ((a : A) → Triple (Q a) (f a) R)
      → Triple P (bind m f) R
  Triple-bind {Q = Q} {R = R} {m = m} {f = f} h h' = record {
    holds = λ s p. Holds-continue Q R (m s).0 f (m s).1 (h.holds s p) h';
  }

  -- A choice of two actions.
  pub Triple-if :
      {A : Type 0} {P : S → Type 0} {Q : A → S → Type 0} (b : Bool) {m n : Action S A}
      → (b ≡ true → Triple P m Q)
      → (b ≡ false → Triple P n Q)
      → Triple P (if b then m else n) Q
  Triple-if true h h' = h refl
  Triple-if false h h' = h' refl

  pub Triple-rescue :
      {A B : Type 0} {P : S → Type 0} {Q : B → S → Type 0} (r : Result A) {f : A → Action S B}
      {g : Raised → Action S B}
      → ((a : A) → Triple P (f a) Q)
      → ((e : Raised) → Triple P (g e) Q)
      → Triple P (rescue r f g) Q
  Triple-rescue (ok a) h h' = record { holds = λ s p. (h a).holds s p }
  Triple-rescue (err e) h h' = record { holds = λ s p. (h' e).holds s p }

  pub Triple-pure : {A : Type 0} (Q : A → S → Type 0) (a : A) → Triple (Q a) (pure a) Q
  Triple-pure Q a = record { holds = λ s p. p }

  -- A stronger assertion before the action.
  pub Triple-pre :
      {A : Type 0} {P P' : S → Type 0} {m : Action S A} {Q : A → S → Type 0}
      → ((s : S) → P' s → P s)
      → Triple P m Q
      → Triple P' m Q
  Triple-pre h h' = record { holds = λ s p. h'.holds s (h s p) }
