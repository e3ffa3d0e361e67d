-- ===== src/Common/Strings/Splitting.antt =====
-- Splitting at a character undoes joining by it, and stripping leaves a text with clean ends alone.
use Prim.Native.Nat.{ℕ}
use mathlib.Core.Path.{◌≡◌, refl}
use mathlib.Core.Bool.{Bool, true, false}
use mathlib.Core.List.{[], ◌∷◌, ◌++◌}
use native.Mathlib.Omega.{arith}
use private_onyx_app.Common.Tests.{◌==◌, ==_self, and_true}
use private_onyx_app.Common.Lists.{All, all}
use private_onyx_app.Common.Strings.{Text, split_on, lstrip, rstrip, strip}

-- No character of the text satisfies `p`.
abbrev pub Avoids : (ℕ → Bool) → Text → Type 0
Avoids p = All (λ c. p c ≡ false)

pub Avoids-of_all :
    (p q : ℕ → Bool)
    → ((c : ℕ) → q c ≡ true → p c ≡ false)
    → (t : Text) → all q t ≡ true
    → Avoids p t
unfolding all
Avoids-of_all p q h [] e = tt
Avoids-of_all p q h (c ∷ t) e =
    let (head, rest) = and_true (q c) (all q t) e in (h c head, Avoids-of_all p q h t rest)

pub Avoids-append : (p : ℕ → Bool) (s t : Text) → Avoids p s → Avoids p t → Avoids p (s ++ t)
Avoids-append p [] t h k = k
Avoids-append p (c ∷ s) t h k = (h.0, Avoids-append p s t h.1 k)

pub split_on-plain : (sep : ℕ) (w : Text) → Avoids (λ c. c == sep) w → split_on sep w ≡ w ∷ []
unfolding split_on
split_on-plain sep [] h = refl
split_on-plain sep (c ∷ w) h = ground (arith, split_on-plain sep w h.1)

pub split_on-append :
    (sep : ℕ) (w rest : Text)
    → Avoids (λ c. c == sep) w
    → split_on sep (w ++ (sep ∷ rest)) ≡ w ∷ split_on sep rest
unfolding split_on
split_on-append sep [] rest h = ground (arith, ==_self sep)
split_on-append sep (c ∷ w) rest h = ground (arith, split_on-append sep w rest h.1)

-- A text of which no character is taken off is left alone.
pub lstrip-Avoids : (p : ℕ → Bool) (t : Text) → Avoids p t → lstrip p t ≡ t
unfolding lstrip
lstrip-Avoids p [] h = refl
lstrip-Avoids p (c ∷ t) h = rw h.0

pub rstrip-Avoids : (p : ℕ → Bool) (t : Text) → Avoids p t → rstrip p t ≡ t
unfolding rstrip
rstrip-Avoids p [] h = refl
rstrip-Avoids p (c ∷ t) h = ground (arith, rstrip-Avoids p t h.1)

pub strip-Avoids : (p : ℕ → Bool) (t : Text) → Avoids p t → strip p t ≡ t
unfolding strip
strip-Avoids p t h = rw (lstrip-Avoids p t h, rstrip-Avoids p t h)

lstrip-blank :
    (p : ℕ → Bool) (sep t : Text) → All (λ c. p c ≡ true) sep → Avoids p t → lstrip p (sep ++ t) ≡ t
unfolding lstrip
lstrip-blank p [] t b h = lstrip-Avoids p t h
lstrip-blank p (c ∷ sep) t b h = rw b.0 (lstrip-blank p sep t b.1 h)

-- Characters that are taken off, before such a text.
pub strip-blank :
    (p : ℕ → Bool) (sep t : Text) → All (λ c. p c ≡ true) sep → Avoids p t → strip p (sep ++ t) ≡ t
unfolding strip
strip-blank p sep t b h = rw (lstrip-blank p sep t b h, rstrip-Avoids p t h)
