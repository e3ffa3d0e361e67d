-- ===== src/Searxng/Payment/Results/Rows.antt =====
-- What the rows of a result are.
use private_onyx_app.Searxng.Payment.Results.{
  snippets, highlights_of, text_of, Library, invalid_row, parse_results, rows_of, finished, collect,
  take_row, Progress, row_result, row_of, Row,
}
use private_onyx_app.Common.{
  length-take, join, take, is_space, strip, is_value_error, All-append, or_false, length-append,
  codes, ◌&&◌, arith, get, ◌||◌, items_of, err-ne-ok, not, ok-injective, ◌==◌, if-elim, subst, All,
  >>=-eq-ok, Text, ◌≤◌, ◌≡◌, Option, Json, Members, List, Result, length, is_empty, [], ◌∷◌, none,
  some, false, refl, ok, err, object,
}

-- A row with a title, and with a snippet of 2000 characters at most.
pub record IsRow (row : Row) : Type 0 where
  pub has_title : is_empty row.title ≡ false
  pub has_content : is_empty row.content ≡ false
  pub is_short : length row.content ≤ 2000

row_of-IsRow :
    (lib : Library) (members : Members) (title snippet : Text) (row : Row)
    → length snippet ≤ 2000
    → row_of lib members title snippet ≡ ok row
    → IsRow row
unfolding row_of invalid_row
row_of-IsRow lib members title snippet row short =
    if-elim (λ (x : Result Row). x ≡ ok row → IsRow row) (is_empty title || is_empty snippet)
      (λ _ e. absurd (err-ne-ok e))
      (λ h e.
        let (address, _, same) = >>=-eq-ok (lib.normalize_url (get (codes "url") members)) _ e in
        let (titled, filled) = or_false _ _ h in
        subst IsRow (ok-injective same)
          (record { has_title = titled; has_content = filled; is_short = short }))

row_result-IsRow : (lib : Library) (j : Json) (row : Row) → row_result lib j ≡ ok row → IsRow row
unfolding row_result invalid_row
row_result-IsRow lib (object members) row e =
    let (title, _, e1) = >>=-eq-ok (text_of (get (codes "title") members)) _ e in
    let (highlights, _, e2) =
      >>=-eq-ok (highlights_of (items_of (get (codes "highlights") members))) _ e1 in
    let (plain, _, e3) = >>=-eq-ok (lib.plain_text title) _ e2 in
    let (parts, _, e4) = >>=-eq-ok (snippets lib highlights) _ e3 in
    row_of-IsRow lib members (strip is_space plain)
      (take 2000 (strip is_space (join (codes " ") parts))) row
      (omega (arith, length-take 2000 (strip is_space (join (codes " ") parts)))) e4
row_result-IsRow lib _ row e = absurd (err-ne-ok e)

AreRows : Progress → Type 0
AreRows p = (length p.results ≤ 10) × All IsRow p.results

take_row-AreRows :
    (r : Result Row) (p q : Progress)
    → ((row : Row) → r ≡ ok row → IsRow row)
    → (length p.results == 10) ≡ false
    → AreRows p
    → take_row r p ≡ ok q
    → AreRows q
unfolding take_row AreRows
take_row-AreRows (ok row) p q h few (short, rows) = λ e.
    subst (λ (x : Progress). (length x.results ≤ 10) × All IsRow x.results) (ok-injective e)
      (
        ground (arith, short, few, length-append p.results (row ∷ [])),
        All-append IsRow p.results (row ∷ []) rows (h row refl, tt),
      )
take_row-AreRows (err x) p q h few rows =
    if-elim (λ (r : Result Progress). r ≡ ok q → (length q.results ≤ 10) × All IsRow q.results)
      (is_value_error x.kind)
      (λ _ e.
        subst (λ (y : Progress). (length y.results ≤ 10) × All IsRow y.results) (ok-injective e)
          rows)
      (λ _ e. absurd (err-ne-ok e))

collect-AreRows :
    (lib : Library) (js : List Json) (p q : Progress)
    → AreRows p
    → collect lib js p ≡ ok q
    → AreRows q
unfolding collect
collect-AreRows lib [] p q h = λ e. subst AreRows (ok-injective e) h
collect-AreRows lib (j ∷ js) p q h =
    if-elim (λ (r : Result Progress). r ≡ ok q → AreRows q) (length p.results == 10)
      (λ _ e. subst AreRows (ok-injective e) h)
      (λ few e.
        let (p', taken, e') = >>=-eq-ok (take_row (row_result lib j) p) _ e in
        collect-AreRows lib js p' q
          (take_row-AreRows (row_result lib j) p p' (row_result-IsRow lib j) few h taken) e')

finished-ok : (p : Progress) (rows : List Row) → finished p ≡ ok rows → p.results ≡ rows
unfolding finished
finished-ok p rows =
    if-elim (λ (r : Result (List Row)). r ≡ ok rows → p.results ≡ rows)
      (not (p.invalid == 0) && (length p.results == 0)) (λ _ e. absurd (err-ne-ok e))
      (λ _ e. ok-injective e)

rows_of-IsRow :
    (lib : Library) (found : Option (List Json)) (rows : List Row)
    → rows_of lib found ≡ ok rows
    → (length rows ≤ 10) × All IsRow rows
unfolding rows_of AreRows
rows_of-IsRow lib none rows e = absurd (err-ne-ok e)
rows_of-IsRow lib (some js) rows e =
    let (p, collected, e') =
      >>=-eq-ok (collect lib js (record { results = []; invalid = 0 })) finished e in
    subst (λ rs. (length rs ≤ 10) × All IsRow rs) (finished-ok p rows e')
      (collect-AreRows lib js (record { results = []; invalid = 0 }) p (omega arith, tt) collected)

-- Whatever the provider sends, a result that is accepted has ten rows at most, and each of them has a title
-- and a snippet that is not empty and has 2000 characters at most.
pub parse_results-IsRow :
    (lib : Library) (body : Json) (rows : List Row)
    → parse_results lib body ≡ ok rows
    → (length rows ≤ 10) × All IsRow rows
unfolding parse_results
parse_results-IsRow lib (object members) rows e =
    rows_of-IsRow lib (items_of (get (codes "results") members)) rows e
parse_results-IsRow lib _ rows e = absurd (err-ne-ok e)
