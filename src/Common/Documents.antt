-- ===== src/Common/Documents.antt =====
-- What `json.loads` makes of a text: a number is the numeral it was written as, and an object holds
-- its members under distinct keys.
use mathlib.Core.Bool.{Bool, false}
use mathlib.Core.List.{List, [], ◌∷◌}
use mathlib.Core.Option.{Option, none, some}
use private_onyx_app.Common.Tests.{if◌then◌else◌}
use private_onyx_app.Common.Strings.{Text, text_eq}

mutual
  pub data Json : Type 0 where
    null : Json
    boolean : Bool → Json
    number : Text → Json
    text : Text → Json
    array : Elements → Json
    object : Members → Json

  pub data Elements : Type 0 where
    no_elements : Elements
    element : Json → Elements → Elements

  pub data Members : Type 0 where
    no_members : Members
    member_of : Text → Json → Members → Members

unfoldable pub elements : Elements → List Json
elements no_elements = []
elements (element j rest) = j ∷ elements rest

unfoldable pub get : Text → Members → Option Json
get key no_members = none
get key (member_of k j rest) = if text_eq k key then some j else get key rest

-- Whether a value of a key is there and is this text.
unfoldable pub is_text : Text → Option Json → Bool
is_text t (some (text s)) = text_eq s t
is_text t _ = false

unfoldable pub items_of : Option Json → Option (List Json)
unfolding elements
items_of (some (array js)) = some (elements js)
items_of _ = none
