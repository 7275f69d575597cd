-- ===== src/Core/Pagination.antt =====
-- app/core/pagination.py: offset pages and cursor pages. A cursor is the sort value and the id that
-- it encodes; a listing is the rows of its statement, in the order of its ORDER BY.
pub mod Walk
mod Tests
use heofberu_backend.Prelude.{
  ℕ, zero, suc, ◌+◌, Bool, true, false, ◌&&◌, ◌||◌, List, [], ◌∷◌, ◌++◌, Option, none, some, ltb,
  leb, ◌==◌, if◌then◌else◌, length, take, drop, keep, is_some,
}
use heofberu_backend.Prelude.Int.{ℤ, pos, ◌-ℤ◌, ◌*ℤ◌, max_ℤ, min_ℤ}

abbrev pub max_page_size : ℤ
max_page_size = pos 1000

-- `use_cursor`; the flag says whether the query asks for cursor pages
unfoldable pub use_cursor : Bool → Option ℕ → Bool
use_cursor asks_for_cursor cursor = asks_for_cursor || is_some cursor

unfoldable pub paginate : ℤ → ℤ → ℤ × ℤ
paginate page size =
    let page' = max_ℤ page (pos 1) in
    let size' = min_ℤ (max_ℤ size (pos 1)) max_page_size in ((page' -ℤ pos 1) *ℤ size', size')

-- a row by its sort value, numbered in the order of the column, and its id; a cursor is the same
pub record Cursor : Type 0 where
  pub value : ℕ
  pub id : ℕ

-- `keyset_condition`: is the row strictly after the cursor?
unfoldable pub keyset_condition : Bool → Cursor → Cursor → Bool
keyset_condition descending cursor row =
    if descending
    then ltb row.value cursor.value || (row.value == cursor.value && ltb row.id cursor.id)
    else ltb cursor.value row.value || (row.value == cursor.value && ltb cursor.id row.id)

-- the rows that a query selects from a listing, with `LIMIT size + 1`
unfoldable pub fetch : Bool → Option Cursor → ℕ → List Cursor → List Cursor
unfolding keyset_condition
fetch descending none limit rows = take limit rows
fetch descending (some cursor) limit rows =
    take limit (keep (keyset_condition descending cursor) rows)

-- `rows[-1]` of rows that are there
abbrev pub last_row : List Cursor → Option Cursor
last_row [] = none
last_row (x ∷ []) = some x
last_row (x ∷ y ∷ ys) = last_row (y ∷ ys)

-- `cursor_page`: the rows of the page and the next cursor
unfoldable pub cursor_page : List Cursor → ℕ → List Cursor × Option Cursor
cursor_page rows size =
    if leb (length rows) size then (rows, none) else (take size rows, last_row (take size rows))

-- a client that follows `next_cursor`, for so many pages at most
unfoldable pub walk : Bool → ℕ → List Cursor → ℕ → Option Cursor → List Cursor
unfolding fetch cursor_page
walk descending size rows zero cursor = []
walk descending size rows (suc n) cursor =
    let page = cursor_page (fetch descending cursor (suc size) rows) size in
    page.0 ++ elim page.1 [ none ↦ [] | some next ↦ walk descending size rows n (some next) ]
