-- ===== src/Common/Strings/Equality.antt =====
-- Equality of texts decided by `text_eq`, and membership in a list of names.
use mathlib.Core.Path.{◌≡◌, refl, subst}
use mathlib.Core.Logic.{◌↔◌, ◌≢◌}
use mathlib.Core.Bool.{true, false}
use mathlib.Core.List.{[], ◌∷◌, ◌++◌}
use native.Mathlib.Omega.{arith}
use private_onyx_app.Common.Strings.{Text, text_eq, contains, starts_with}

pub text_eq_self : (s : Text) → text_eq s s ≡ true
unfolding text_eq
text_eq_self [] = refl
text_eq_self (a ∷ s) = ground (arith, text_eq_self s)

pub text_eq_sound : (s t : Text) → text_eq s t ≡ true → s ≡ t
unfolding text_eq
text_eq_sound [] [] h = refl
text_eq_sound [] (b ∷ t) h = cc
text_eq_sound (a ∷ s) [] h = cc
text_eq_sound (a ∷ s) (b ∷ t) h = ground (arith, text_eq_sound s t)

pub text_eq_iff : (s t : Text) → (text_eq s t ≡ true) ↔ (s ≡ t)
text_eq_iff s t = (text_eq_sound s t, λ e. subst (λ u. text_eq s u ≡ true) e (text_eq_self s))

pub text_eq_ne : (s t : Text) → s ≢ t → text_eq s t ≡ false
text_eq_ne s t ne = grind (arith, text_eq_sound)

pub starts_with-append : (s t : Text) → starts_with s (s ++ t) ≡ true
unfolding starts_with
starts_with-append [] t = refl
starts_with-append (a ∷ s) t = ground (arith, starts_with-append s t)

contains-of_starts_with : (s t : Text) → starts_with s t ≡ true → contains s t ≡ true
unfolding contains
contains-of_starts_with s [] h = h
contains-of_starts_with s (b ∷ t) h = rw h

-- Whatever text stands before and after it, a text is found.
pub contains-append : (u s t : Text) → contains s (u ++ (s ++ t)) ≡ true
unfolding contains
contains-append [] s t = contains-of_starts_with s (s ++ t) (starts_with-append s t)
contains-append (c ∷ u) s t = ground (arith, contains-append u s t)
