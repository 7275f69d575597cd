-- ===== src/Core/Pagination/Tests.antt =====
-- A listing of five rows in pages of two, the newest first.
use heofberu_backend.Prelude.{inl, inr, ℕ, ◌≡◌, refl, true, List, [], ◌∷◌, none, arith}
use heofberu_backend.Core.Pagination.{Cursor, walk}
use heofberu_backend.Core.Pagination.Walk.{IsOrdered, walk-visits}

abbrev row : ℕ → ℕ → Cursor
row value id = record { value = value; id = id }

abbrev listing : List Cursor
listing = row 9 1 ∷ row 9 0 ∷ row 7 5 ∷ row 4 8 ∷ row 4 2 ∷ []

listing-IsOrdered : IsOrdered true listing
listing-IsOrdered = (
  (inr (refl, omega arith), (inl (omega arith), (inl (omega arith), (inl (omega arith), tt)))),
  (
    (inl (omega arith), (inl (omega arith), (inl (omega arith), tt))),
    ((inl (omega arith), (inl (omega arith), tt)), ((inr (refl, omega arith), tt), (tt, tt))),
  ),
)

walk-visits_example : walk true 2 listing 6 none ≡ listing
walk-visits_example = walk-visits true 2 listing listing-IsOrdered (omega arith)
