-- ===== src/Egress/Framing/Codings.antt =====
-- About the values of Transfer-Encoding, read and printed.
use private_onyx_app.Common.{
  ℕ, ◌≤◌, ◌≡◌, refl, sym, ◌≢◌, ap, ◌∙◌, ◌⊎◌, inl, inr, Bool, true, false, ◌&&◌, List, [], ◌∷◌, ◌++◌,
  Option, none, arith, ltb, leb, ◌==◌, map, all, All, Text, codes, is_space, strip, split_on, join,
  ok, append-nil, append_assoc, Bool-cases, and_true,
}
use private_onyx_app.Common.Strings.Splitting.{
  Avoids, split_on-plain, split_on-append, strip-blank, Avoids-append, Avoids-of_all,
}
use private_onyx_app.Egress.Platform.{Python, lower}
use private_onyx_app.Egress.Framing.{
  is_token_char, is_token, last_is, count_text, check_codings, coding_items,
}

abbrev is_upper : ℕ → Bool
is_upper c = leb b'A' c && leb c b'Z'

abbrev pub NoUpper : Text → Type 0
NoUpper = Avoids is_upper

-- Documented of `str.lower`: its result has no upper-case letter.
pub record LowerLaws (py : Python) : Type 0 where
  pub no_upper : (c : ℕ) → 128 ≤ c → NoUpper (py.lower_other c)

All-append {ℓ κ} :
    {A : Type ℓ} (P : A → Type κ) (xs ys : List A) → All P xs → All P ys → All P (xs ++ ys)
All-append P [] ys h k = k
All-append P (x ∷ xs) ys h k = (h.0, All-append P xs ys h.1 k)

NoUpper-append : (s t : Text) → NoUpper s → NoUpper t → NoUpper (s ++ t)
NoUpper-append [] t h k = k
NoUpper-append (c ∷ s) t h k = (h.0, NoUpper-append s t h.1 k)

token_is_ascii : (c : ℕ) → is_token_char c ≡ true → ltb c 128 ≡ true
unfolding is_token_char
token_is_ascii c h = ground arith

token_range : (c : ℕ) → is_token_char c ≡ true → (33 ≤ c) × (c ≤ 126) × (c ≢ b',')
unfolding is_token_char
token_range c h = ground arith

token_not_comma : (c : ℕ) → is_token_char c ≡ true → (c == b',') ≡ false
token_not_comma c h = ground (arith, token_range c h)

space_range : (c : ℕ) → 33 ≤ c → c ≤ 126 → is_space c ≡ false
unfolding is_space
space_range c l h = ground arith

token_not_space : (c : ℕ) → is_token_char c ≡ true → is_space c ≡ false
token_not_space c h = let r = token_range c h in space_range c r.0 r.1

token_no_comma : (t : Text) → all is_token_char t ≡ true → Avoids (λ c. c == b',') t
token_no_comma = Avoids-of_all (λ c. c == b',') is_token_char token_not_comma

token_no_space : (t : Text) → all is_token_char t ≡ true → Avoids is_space t
token_no_space = Avoids-of_all is_space is_token_char token_not_space

blank_space : All (λ b. is_space b ≡ true) (32 ∷ [])
unfolding is_space
blank_space = (refl, tt)

-- What holds of every coding that a request was accepted with.
abbrev pub IsCoding : Text → Type 0
IsCoding t = (all is_token_char t ≡ true) × NoUpper t

module _ (py : Python) (laws : LowerLaws py) where
  lower-NoUpper : (t : Text) → NoUpper (lower py t)
  unfolding lower
  lower-NoUpper [] = tt
  lower-NoUpper (c ∷ t) = elim (Bool-cases (ltb c 128)) [
    | inl e ↦ rw e (ground arith, lower-NoUpper t)
    | inr e ↦ rw e (
        NoUpper-append (py.lower_other c) (lower py t) (laws.no_upper c (ground arith))
          (lower-NoUpper t))
  ]

  NoUpper-parts :
      (parts : List Text) → All NoUpper (map (λ part. lower py (strip is_space part)) parts)
  NoUpper-parts [] = tt
  NoUpper-parts (part ∷ parts) = (lower-NoUpper (strip is_space part), NoUpper-parts parts)

  lower_fixed : (t : Text) → NoUpper t → all is_token_char t ≡ true → lower py t ≡ t
  unfolding lower all is_token_char
  lower_fixed [] h k = refl
  lower_fixed (c ∷ t) h k =
      let (head, rest) = and_true (is_token_char c) (all is_token_char t) k in
      rw (token_is_ascii c head, h.0) (ap (λ r. c ∷ r) (lower_fixed t h.1 rest))

  pub NoUpper-items : (values : List Text) → All NoUpper (coding_items py values)
  unfolding coding_items
  NoUpper-items [] = tt
  NoUpper-items (value ∷ values) =
      All-append NoUpper (map (λ part. lower py (strip is_space part)) (split_on b',' value))
        (coding_items py values) (NoUpper-parts (split_on b',' value)) (NoUpper-items values)

  part_of_coding :
      (sep coding : Text)
      → All (λ c. is_space c ≡ true) sep
      → IsCoding coding
      → lower py (strip is_space (sep ++ coding)) ≡ coding
  part_of_coding sep coding blank h =
      rw (strip-blank is_space sep coding blank (token_no_space coding h.0))
        (lower_fixed coding h.1 h.0)

  -- Codings joined by ", " are the items of the text, also behind blanks.
  split-join :
      (sep c : Text) (cs : List Text)
      → All (λ b. is_space b ≡ true) sep
      → Avoids (λ b. b == b',') sep
      → All IsCoding (c ∷ cs)
      → map
          (λ part. lower py (strip is_space part))
          (split_on b',' (sep ++ join (codes ", ") (c ∷ cs)))
        ≡ c ∷ cs
  unfolding join
  split-join sep c [] blank plain h = rw (
    split_on-plain b',' (sep ++ c)
        (Avoids-append (λ b. b == b',') sep c plain (token_no_comma c h.0.0)),
    part_of_coding sep c blank h.0,
  )
  split-join sep c (d ∷ cs) blank plain h =
      rw
        (
          sym (append_assoc sep c (b',' ∷ (32 ∷ join (codes ", ") (d ∷ cs)))),
          split_on-append b',' (sep ++ c) (32 ∷ join (codes ", ") (d ∷ cs))
              (Avoids-append (λ b. b == b',') sep c plain (token_no_comma c h.0.0)),
          part_of_coding sep c blank h.0,
        )
        (ap (λ r. c ∷ r) (split-join (32 ∷ []) d cs blank_space (refl, tt) h.1))

  -- The codings of a request are the items of their print.
  pub coding_items-join :
      (c : Text) (cs : List Text)
      → All IsCoding (c ∷ cs)
      → coding_items py (join (codes ", ") (c ∷ cs) ∷ []) ≡ c ∷ cs
  unfolding coding_items
  coding_items-join c cs h = append-nil _ ∙ split-join [] c cs tt tt h

-- A request with transfer codings has no length, the codings are tokens, and "chunked" stands once
-- and last.
pub check_codings_inv :
    (codings : List Text) (content_length : Option ℕ)
    → check_codings codings content_length ≡ ok tt
    → (codings ≡ [])
      ⊎ ((content_length ≡ none)
          × (all is_token codings ≡ true)
          × (last_is (codes "chunked") codings ≡ true)
          × (count_text (codes "chunked") codings ≡ 1))
unfolding check_codings
check_codings_inv [] content_length h = inl refl
check_codings_inv (c ∷ cs) content_length h = inr (ground arith)

is_token-chars : (t : Text) → is_token t ≡ true → all is_token_char t ≡ true
unfolding is_token
is_token-chars t h = ground arith

pub IsCoding-of_tokens :
    (ts : List Text) → all is_token ts ≡ true → All NoUpper ts → All IsCoding ts
unfolding all
IsCoding-of_tokens [] h u = tt
IsCoding-of_tokens (t ∷ ts) h u =
    let (head, rest) = and_true (is_token t) (all is_token ts) h in
    ((is_token-chars t head, u.0), IsCoding-of_tokens ts rest u.1)
