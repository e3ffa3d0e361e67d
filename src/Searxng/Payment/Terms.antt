-- ===== src/Searxng/Payment/Terms.antt =====
-- What terms the client agrees to sign.
use private_onyx_app.Searxng.Payment.{
  supported_offer, other_resource, Offer, Requirements, decode, checked, supported, Sdk,
}
use private_onyx_app.Common.{
  ok-injective, or_false, arith, ◌||◌, ◌==◌, subst, not, >>=-eq-ok, Result, suc, ◌∙◌, sym,
  get_elem?, Text, err-ne-ok, if-elim, ℕ, Option, ◌≡◌, Raised, List, [], ◌∷◌, none, some, true,
  false, refl, ok, err,
}

-- An offer among these that the policy lets through.
pub record Supports (sdk : Sdk) (offers : List Offer) : Type 0 where
  pub position : ℕ
  pub offer : Offer
  pub is_offered : get_elem? offers position ≡ some offer
  pub is_supported : supported_offer sdk offer ≡ true

supported-Supports :
    (sdk : Sdk) (offers : List Offer) (first : Offer) (rest : List Offer)
    → supported sdk offers ≡ first ∷ rest
    → Supports sdk offers
unfolding supported
supported-Supports sdk [] first rest = λ e. absurd (cc e)
supported-Supports sdk (offer ∷ offers) first rest =
    if-elim (λ os. os ≡ first ∷ rest → Supports sdk (offer ∷ offers)) (supported_offer sdk offer)
      (λ h e. record { position = 0; offer = offer; is_offered = refl; is_supported = h })
      (λ h e.
        let later = supported-Supports sdk offers first rest e in
        record {
          position = suc later.position;
          offer = later.offer;
          is_offered = later.is_offered;
          is_supported = later.is_supported;
        })

selected-Supports :
    (sdk : Sdk) (offers os : List Offer) (refusal : Raised) (u : Unit {0})
    → sdk.select [] ≡ err refusal
    → supported sdk offers ≡ os
    → sdk.select os ≡ ok u
    → Supports sdk offers
selected-Supports sdk offers [] refusal u h e e' = absurd (err-ne-ok (sym h ∙ e'))
selected-Supports sdk offers (o ∷ os) refusal u h e e' = supported-Supports sdk offers o os e

checked-ok :
    (sdk : Sdk) (r r' : Requirements)
    → checked sdk r ≡ ok r'
    → (r.x402_version ≡ 2)
      × (other_resource r.resource_url ≡ false)
      × ((u : Unit {0}) × (sdk.select (supported sdk r.accepts) ≡ ok u))
      × (record r { extensions = none } ≡ r')
unfolding checked
checked-ok sdk r r' =
    if-elim
      (λ (x : Result Requirements).
        x ≡ ok r'
        → (r.x402_version ≡ 2)
          × (other_resource r.resource_url ≡ false)
          × ((u : Unit {0}) × (sdk.select (supported sdk r.accepts) ≡ ok u))
          × (record r { extensions = none } ≡ r'))
      (not (r.x402_version == 2) || other_resource r.resource_url) (λ _ e. absurd (err-ne-ok e))
      (λ h e.
        let (u, selected, same) = >>=-eq-ok (sdk.select (supported sdk r.accepts)) _ e in
        (ground (arith, h), (or_false _ _ h).1, (u, selected), ok-injective same))

-- Where the SDK refuses to select among no offers, terms that are kept are of version 2, for the endpoint or
-- for no named resource, without extensions, and offer a payment that the policy supports: exact, in USD
-- Coin on Base, by authorization.
pub decode-Supports :
    (sdk : Sdk) (refusal : Raised) (header : Option Text) (r : Requirements)
    → sdk.select [] ≡ err refusal
    → decode sdk header ≡ ok r
    → (r.x402_version ≡ 2)
      × (other_resource r.resource_url ≡ false)
      × (r.extensions ≡ none)
      × Supports sdk r.accepts
unfolding decode
decode-Supports sdk refusal header r h e =
    let (terms, decoded, e') = >>=-eq-ok (sdk.decode_payment_required header) (checked sdk) e in
    let (version, resource, (u, selected), same) = checked-ok sdk terms r e' in
    subst
      (λ (x : Requirements).
        (x.x402_version ≡ 2)
        × (other_resource x.resource_url ≡ false)
        × (x.extensions ≡ none)
        × Supports sdk x.accepts)
      same
      (
        version,
        resource,
        refl,
        selected-Supports sdk terms.accepts (supported sdk terms.accepts) refusal u h refl selected,
      )
