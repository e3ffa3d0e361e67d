-- ===== src/Searxng/Payment/Results.antt =====
-- searxng/engines/_x402_payment.py, `parse_results`: the rows of a result. The text of a fragment of HTML and
-- the check of an address are parameters; `strip` takes white space off.
use private_onyx_app.Common.{
  take, ◌+◌, is_value_error, is_space, strip, err, ◌≤◌, ◌&&◌, length, [], codes, none, text, ◌==◌,
  ◌>>=◌, false, not, join, ◌∷◌, value_error, object, some, ◌||◌, ◌++◌, ℕ, items_of, Members, raise,
  Json, ok, ◌≡◌, if◌then◌else◌, is_empty, get, List, Option, Result, Text,
}
pub mod Rows

pub record Library : Type 0 where
  pub plain_text : Text → Result Text
  pub normalize_url : Option Json → Result (Text × Text)

pub record Row : Type 0 where
  pub url : Text
  pub title : Text
  pub content : Text

unfoldable pub invalid_row : {A : Type 0} → Result A
invalid_row = raise value_error (codes "invalid_row")

unfoldable pub text_of : Option Json → Result Text
unfolding invalid_row
text_of (some (text t)) = ok t
text_of _ = invalid_row

unfoldable pub texts : List Json → Result (List Text)
unfolding text_of
texts [] = ok []
texts (j ∷ js) = text_of (some j) >>= λ t. texts js >>= λ ts. ok (t ∷ ts)

unfoldable pub highlights_of : Option (List Json) → Result (List Text)
unfolding invalid_row texts
highlights_of none = invalid_row
highlights_of (some []) = invalid_row
highlights_of (some (j ∷ js)) = texts (j ∷ js)

unfoldable pub snippets : Library → List Text → Result (List Text)
snippets lib [] = ok []
snippets lib (t ∷ ts) =
    lib.plain_text t >>= λ s. snippets lib ts >>= λ ss. ok (strip is_space s ∷ ss)

with_fragment : Text × Text → Text
with_fragment (url, fragment) = if is_empty fragment then url else url ++ (b'#' ∷ fragment)

-- The row, once its title and its snippet are known.
unfoldable pub row_of : Library → Members → Text → Text → Result Row
unfolding invalid_row with_fragment get
row_of lib members title snippet =
    if is_empty title || is_empty snippet
    then invalid_row
    else lib.normalize_url (get (codes "url") members) >>= λ address.
        ok (record { url = with_fragment address; title = title; content = snippet })

unfoldable pub row_result : Library → Json → Result Row
unfolding invalid_row text_of highlights_of snippets row_of get items_of join
row_result lib (object members) = text_of (get (codes "title") members) >>= λ title.
    highlights_of (items_of (get (codes "highlights") members)) >>= λ highlights.
    lib.plain_text title >>= λ plain. snippets lib highlights >>= λ parts.
    row_of lib members (strip is_space plain) (take 2000 (strip is_space (join (codes " ") parts)))
row_result lib _ = invalid_row

-- The rows so far, and how many were not valid.
pub record Progress : Type 0 where
  pub results : List Row
  pub invalid : ℕ

unfoldable pub take_row : Result Row → Progress → Result Progress
take_row (ok row) p = ok (record p { results = p.results ++ (row ∷ []) })
take_row (err e) p =
    if is_value_error e.kind then ok (record p { invalid = p.invalid + 1 }) else err e

-- The loop, which ends with the tenth row that is valid.
unfoldable pub collect : Library → List Json → Progress → Result Progress
unfolding take_row row_result
collect lib [] p = ok p
collect lib (j ∷ js) p =
    if length p.results == 10 then ok p else take_row (row_result lib j) p >>= λ q. collect lib js q

unfoldable pub finished : Progress → Result (List Row)
finished p =
    if not (p.invalid == 0) && (length p.results == 0)
    then raise value_error (codes "invalid_response")
    else ok p.results

unfoldable pub rows_of : Library → Option (List Json) → Result (List Row)
unfolding collect finished
rows_of lib none = raise value_error (codes "invalid_response")
rows_of lib (some js) = collect lib js (record { results = []; invalid = 0 }) >>= finished

unfoldable pub parse_results : Library → Json → Result (List Row)
unfolding rows_of get items_of
parse_results lib (object members) = rows_of lib (items_of (get (codes "results") members))
parse_results lib _ = raise value_error (codes "invalid_response")
