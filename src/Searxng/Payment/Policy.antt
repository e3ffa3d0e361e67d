-- ===== src/Searxng/Payment/Policy.antt =====
-- searxng/engines/_x402_payment.py: the terms of a payment, and those that the client keeps.
use private_onyx_app.Common.{
  is_empty, null, ◌||◌, value_error, not, [], err, text, ◌==◌, ◌&&◌, raise, true, ◌∷◌, text_eq,
  codes, Json, Members, none, ok, some, ◌>>=◌, if◌then◌else◌, Result, List, get, is_text, Option, ℕ,
  Text, false, Bool,
}

-- What the provider offers, as the SDK decodes it.
pub record Offer : Type 0 where
  pub scheme : Text
  pub network : Text
  pub asset : Text
  pub extra : Members

pub record Requirements : Type 0 where
  pub x402_version : ℕ
  pub resource_url : Option Text
  pub accepts : List Offer
  pub extensions : Option Json

pub record Sdk : Type 0 where
  pub lower : Text → Text
  pub decode_payment_required : Option Text → Result Requirements
  -- `_select_requirements_v2` on the offers that the registered policy lets through
  pub select : List Offer → Result (Unit {0})
  pub sign : Requirements → Result Text
  -- whether the receipt of a response reports success
  pub decode_payment_response : Option Text → Result Bool

abbrev pub endpoint : Text
endpoint = codes "https://api.exa.ai/search"

abbrev pub network : Text
network = codes "eip155:8453"

abbrev pub asset : Text
asset = codes "0x833589fCD6eDb6E08f4c7C32D4f71b54bdA02913"

-- value in (None, t)
unfoldable pub absent_or : Text → Option Json → Bool
absent_or t none = true
absent_or t (some null) = true
absent_or t (some (text s)) = text_eq s t
absent_or t (some _) = false

-- "name" not in extra, or the name and the version of the coin
unfoldable pub names_coin : Option Json → Option Json → Bool
unfolding is_text
names_coin none version = true
names_coin (some name) version =
    is_text (codes "USD Coin") (some name) && is_text (codes "2") version

unfoldable pub supported_offer : Sdk → Offer → Bool
unfolding absent_or names_coin get
supported_offer sdk offer =
    text_eq offer.scheme (codes "exact")
    && text_eq offer.network network
    && text_eq (sdk.lower offer.asset) (sdk.lower asset)
    && absent_or (codes "eip3009") (get (codes "assetTransferMethod") offer.extra)
    && absent_or (codes "authorization") (get (codes "paymentFlow") offer.extra)
    && names_coin (get (codes "name") offer.extra) (get (codes "version") offer.extra)

unfoldable pub other_resource : Option Text → Bool
other_resource none = false
other_resource (some url) = not (text_eq url endpoint)

unfoldable pub supported : Sdk → List Offer → List Offer
supported sdk [] = []
supported sdk (offer ∷ offers) =
    let rest = supported sdk offers in if supported_offer sdk offer then offer ∷ rest else rest

unfoldable pub checked : Sdk → Requirements → Result Requirements
unfolding other_resource supported
checked sdk r =
    if not (r.x402_version == 2) || other_resource r.resource_url
    then raise value_error (codes "unsupported_payment_policy")
    else sdk.select (supported sdk r.accepts) >>= λ _. ok (record r { extensions = none })

unfoldable pub decode : Sdk → Option Text → Result Requirements
unfolding checked
decode sdk header = sdk.decode_payment_required header >>= checked sdk

-- The terms behind a rejection: those of a new header that can be decoded.
unfoldable pub replacement : Sdk → Option Text → Option Requirements
unfolding decode
replacement sdk none = none
replacement sdk (some header) = if is_empty header then none else kept (decode sdk (some header))
  where
    kept : Result Requirements → Option Requirements
    kept (ok r) = some r
    kept (err e) = none
