-- ===== src/Egress/Head/Framed.antt =====
-- About `_parse_request_framing` on the head that `_handle_forward_http` sends on.
use private_onyx_app.Common.{
  ℕ, ◌≡◌, refl, sym, ap, ◌∙◌, subst, All, false≢true, inl, inr, true, List, [], ◌∷◌, ◌++◌, Option,
  none, some, arith, Text, codes, text_eq, member, Result, ok, err, ◌>>=◌, >>=-eq-ok, Bool-cases,
}
use private_onyx_app.Common.Strings.Equality.{text_eq_sound}
use private_onyx_app.Egress.Platform.{Python}
use private_onyx_app.Egress.Framing.{
  Header, header_values, length_items, coding_items, content_length_of, check_codings,
  parse_request_framing,
}
use private_onyx_app.Egress.Framing.Lengths.{length_items-decimal, content_length-print}
use private_onyx_app.Egress.Framing.Codings.{
  LowerLaws, NoUpper, IsCoding-of_tokens, NoUpper-items, coding_items-join, check_codings_inv,
}
use private_onyx_app.Egress.Head.{
  rewritten_fields, kept_headers, length_header, codings_header, authorization_header,
  forwarded_headers,
}

header_values-append :
    (hs ks : List Header) (name : Text)
    → header_values (hs ++ ks) name ≡ header_values hs name ++ header_values ks name
unfolding header_values
header_values-append [] ks name = refl
header_values-append (h ∷ hs) ks name = elim (Bool-cases (text_eq h.0 name)) [
  | inl e ↦ rw e (ap (λ r. h.1 ∷ r) (header_values-append hs ks name))
  | inr e ↦ rw e (header_values-append hs ks name)
]

-- No field that the proxy writes itself comes from the client.
header_values-kept :
    (hs : List Header) (name : Text)
    → member name rewritten_fields ≡ true
    → header_values (kept_headers hs) name ≡ []
unfolding header_values kept_headers
header_values-kept [] name m = refl
header_values-kept ((field, value) ∷ hs) name m =
    elim (Bool-cases (member field rewritten_fields)) [
      | inl e ↦ rw e (header_values-kept hs name m)
      | inr e ↦ rw e (elim (Bool-cases (text_eq field name)) [
        | inl same ↦ absurd (
            false≢true
              (sym e ∙ ap (λ n. member n rewritten_fields) (text_eq_sound field name same) ∙ m))
        | inr other ↦ rw other (header_values-kept hs name m)
      ])
    ]

-- The fields behind the kept ones.
abbrev own_headers : Text → Option ℕ → List Text → Option Text → List Header
own_headers authority cl codings auth =
    (codes "host", authority)
    ∷ (length_header cl
        ++ (codings_header codings
            ++ (authorization_header auth ++ ((codes "connection", codes "close") ∷ []))))

own_lengths :
    (authority : Text) (cl : Option ℕ) (codings : List Text) (auth : Option Text)
    → header_values (own_headers authority cl codings auth) (codes "content-length")
      ≡ header_values (length_header cl) (codes "content-length")
unfolding header_values text_eq length_header codings_header authorization_header
own_lengths authority none [] none = refl
own_lengths authority none [] (some value) = ground arith
own_lengths authority none (c ∷ cs) none = refl
own_lengths authority none (c ∷ cs) (some value) = ground arith
own_lengths authority (some n) [] none = refl
own_lengths authority (some n) [] (some value) = ground arith
own_lengths authority (some n) (c ∷ cs) none = refl
own_lengths authority (some n) (c ∷ cs) (some value) = ground arith

own_codings :
    (authority : Text) (cl : Option ℕ) (codings : List Text) (auth : Option Text)
    → header_values (own_headers authority cl codings auth) (codes "transfer-encoding")
      ≡ header_values (codings_header codings) (codes "transfer-encoding")
unfolding header_values text_eq length_header codings_header authorization_header
own_codings authority none [] none = refl
own_codings authority none [] (some value) = ground arith
own_codings authority none (c ∷ cs) none = refl
own_codings authority none (c ∷ cs) (some value) = ground arith
own_codings authority (some n) [] none = refl
own_codings authority (some n) [] (some value) = ground arith
own_codings authority (some n) (c ∷ cs) none = refl
own_codings authority (some n) (c ∷ cs) (some value) = ground arith

lengths_are_rewritten : member (codes "content-length") rewritten_fields ≡ true
unfolding member
lengths_are_rewritten = refl

codings_are_rewritten : member (codes "transfer-encoding") rewritten_fields ≡ true
unfolding member
codings_are_rewritten = refl

module _ (hs : List Header) (authority : Text) (cl : Option ℕ) (codings : List Text)
    (auth : Option Text) where
  forwarded_lengths :
      header_values (forwarded_headers hs authority cl codings auth) (codes "content-length")
      ≡ header_values (length_header cl) (codes "content-length")
  unfolding forwarded_headers
  forwarded_lengths =
      header_values-append (kept_headers hs) (own_headers authority cl codings auth) _
      ∙ ap
          (λ r. r ++ header_values (own_headers authority cl codings auth) (codes "content-length"))
          (header_values-kept hs (codes "content-length") lengths_are_rewritten)
      ∙ own_lengths authority cl codings auth

  forwarded_codings :
      header_values (forwarded_headers hs authority cl codings auth) (codes "transfer-encoding")
      ≡ header_values (codings_header codings) (codes "transfer-encoding")
  unfolding forwarded_headers
  forwarded_codings =
      header_values-append (kept_headers hs) (own_headers authority cl codings auth) _
      ∙ ap
          (λ r.
            r ++ header_values (own_headers authority cl codings auth) (codes "transfer-encoding"))
          (header_values-kept hs (codes "transfer-encoding") codings_are_rewritten)
      ∙ own_codings authority cl codings auth

abbrev framed : Option ℕ → List Text → Result (Option ℕ × List Text)
framed cl codings = ok (cl, codings)

length_printed :
    (items : List Text) (cl : Option ℕ)
    → content_length_of items ≡ ok cl
    → content_length_of (length_items (header_values (length_header cl) (codes "content-length")))
      ≡ ok cl
unfolding header_values text_eq length_header
length_printed items none h = unfold content_length_of length_items in refl
length_printed items (some n) h =
    ap content_length_of (length_items-decimal n) ∙ content_length-print items n h

checked_inv :
    (r : Result (Unit {0})) (c cl : Option ℕ) (values codings : List Text)
    → (r >>= λ _. framed c values) ≡ ok (cl, codings)
    → (r ≡ ok tt) × (c ≡ cl) × (values ≡ codings)
checked_inv (ok u) c cl values codings h = (refl, cc h, cc h)
checked_inv (err e) c cl values codings h = absurd (cc h)

module _ (py : Python) where
  framing_inv :
      (hs : List Header) (cl : Option ℕ) (codings : List Text)
      → parse_request_framing py hs ≡ ok (cl, codings)
      → (content_length_of (length_items (header_values hs (codes "content-length"))) ≡ ok cl)
        × (codings ≡ coding_items py (header_values hs (codes "transfer-encoding")))
        × (check_codings codings cl ≡ ok tt)
  unfolding parse_request_framing
  framing_inv hs cl codings h =
      let (c, found, rest) =
        >>=-eq-ok (content_length_of (length_items (header_values hs (codes "content-length")))) _
          h in
      let values = coding_items py (header_values hs (codes "transfer-encoding")) in
      let (checked, same, same_codings) =
        checked_inv (check_codings values c) c cl values codings rest in
      (
        found ∙ ap ok same,
        sym same_codings,
        subst (λ v. check_codings v cl ≡ ok tt) same_codings
            (subst (λ d. check_codings values d ≡ ok tt) same checked),
      )

module _ (py : Python) (laws : LowerLaws py) where
  codings_printed :
      (values : List Text) (cl : Option ℕ) (codings : List Text)
      → codings ≡ coding_items py values
      → check_codings codings cl ≡ ok tt
      → coding_items py (header_values (codings_header codings) (codes "transfer-encoding"))
        ≡ codings
  unfolding header_values text_eq codings_header
  codings_printed values cl [] e h = unfold coding_items in refl
  codings_printed values cl (c ∷ cs) e h = elim (check_codings_inv (c ∷ cs) cl h) [
    | inl p ↦ absurd (cc p)
    | inr p ↦ coding_items-join py laws c cs (
        IsCoding-of_tokens (c ∷ cs) p.1
          (subst (All NoUpper) (sym e) (NoUpper-items py laws values)))
  ]

  -- The head that is sent on states the framing that the proxy found in the client's head, whatever
  -- other fields, authority and credentials it has: the next server delimits the body as the proxy
  -- does. It rests on `str.lower` yielding no upper-case letter.
  pub framing-forwarded :
      (hs : List Header) (authority : Text) (auth : Option Text) (cl : Option ℕ)
      (codings : List Text)
      → parse_request_framing py hs ≡ ok (cl, codings)
      → parse_request_framing py (forwarded_headers hs authority cl codings auth) ≡ ok (cl, codings)
  unfolding parse_request_framing
  framing-forwarded hs authority auth cl codings h =
      let (lengths, found, checked) = framing_inv py hs cl codings h in
      rw (
        forwarded_lengths hs authority cl codings auth,
        forwarded_codings hs authority cl codings auth,
        length_printed _ cl lengths,
        codings_printed _ cl codings found checked,
        checked,
      )
