-- ===== src/Common/Errors.antt =====
-- Python's exceptions as values. `kind` tells the classes apart that some `except` clause of the
-- program tells apart; `message` is `str(exc)`.
use mathlib.Core.Path.{◌≡◌, refl}
use mathlib.Core.Bool.{Bool, true, false}
use private_onyx_app.Common.Strings.{Text}

pub data Kind : Type 0 where
  value_error runtime_error connection_error os_error timeout_error eof_error : Kind

pub record Raised : Type 0 where
  pub kind : Kind
  pub message : Text

pub data Result {ℓ} (A : Type ℓ) : Type ℓ where
  ok : A → Result A
  err : Raised → Result A

abbrev pub raise {ℓ} : {A : Type ℓ} → Kind → Text → Result A
raise k m = err (record { kind = k; message = m })

-- What follows runs on the value of a call that did not raise.
infixl 5 ◌>>=◌ ◌>>◌
abbrev pub ◌>>=◌ {κ ℓ} : {V : Type κ} {W : Type ℓ} → Result V → (V → Result W) → Result W
(err exc) >>= next = err exc
(ok value) >>= next = next value

-- if not test: raise
abbrev pub require : Bool → Kind → Text → Result (Unit {0})
require true k m = ok tt
require false k m = raise k m

abbrev pub ◌>>◌ {κ} : {W : Type κ} → Result (Unit {0}) → Result W → Result W
checked >> next = checked >>= (λ _. next)

-- `socket.gaierror`, `ConnectionError` and `TimeoutError` are classes below `OSError`.
abbrev pub is_os_error : Kind → Bool
is_os_error connection_error = true
is_os_error os_error = true
is_os_error timeout_error = true
is_os_error _ = false

abbrev pub is_value_error : Kind → Bool
is_value_error value_error = true
is_value_error _ = false

abbrev pub is_runtime_error : Kind → Bool
is_runtime_error runtime_error = true
is_runtime_error _ = false

-- Where a call and what follows it returned, the value between them.
pub >>=-eq-ok {κ ℓ} :
    {V : Type κ} {W : Type ℓ} (call : Result V) (next : V → Result W) {w : W}
    → (call >>= next) ≡ ok w
    → (v : V) × (call ≡ ok v) × (next v ≡ ok w)
>>=-eq-ok (err exc) next h = cc
>>=-eq-ok (ok v) next h = (v, refl, h)

pub ok-injective {ℓ} : {A : Type ℓ} {a b : A} → ok a ≡ ok b → a ≡ b
ok-injective h = cc

pub err-ne-ok {ℓ} : {A : Type ℓ} {e : Raised} {a : A} → err e ≡ ok a → ⊥
err-ne-ok h = cc h

-- Inversion of a check that was passed.
pub require_inv {ℓ} :
    {A : Type ℓ} (b : Bool) (k : Kind) (m : Text) (r : Result A) {a : A}
    → (require b k m >> r) ≡ ok a
    → (b ≡ true) × (r ≡ ok a)
require_inv true k m r h = (refl, h)
require_inv false k m r h = absurd (err-ne-ok h)
