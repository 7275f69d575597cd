-- ===== src/Core/Pagination/Walk.antt =====
-- Following the cursors visits each row once.
use heofberu_backend.Prelude.{
  ◌⊎◌, ℕ, zero, suc, ◌+◌, ◌≤◌, ◌<◌, ◌≡◌, refl, ap, sym, ◌∙◌, Bool, true, false, List, [], ◌∷◌, ◌++◌,
  Option, none, some, leb, length, take, keep, All, arith, Bool-cases, inl, inr, append_assoc,
  append-nil, length-append,
}
use mathlib.Core.Path.{subst}
use heofberu_backend.Core.Pagination.{Cursor, keyset_condition, fetch, last_row, cursor_page, walk}

-- `ORDER BY value, id`, or both descending
abbrev pub IsBefore : Bool → Cursor → Cursor → Type 0
IsBefore false x y = (x.value < y.value) ⊎ ((x.value ≡ y.value) × (x.id < y.id))
IsBefore true x y = (y.value < x.value) ⊎ ((x.value ≡ y.value) × (y.id < x.id))

-- the order of the listing: each row is strictly before all that follow it
abbrev pub IsOrdered : Bool → List Cursor → Type 0
IsOrdered descending [] = Unit
IsOrdered descending (x ∷ xs) = All (IsBefore descending x) xs × IsOrdered descending xs

-- the condition of a query selects the rows behind the cursor
keyset_condition-IsBefore :
    (d : Bool) (x y : Cursor) → IsBefore d x y → keyset_condition d x y ≡ true
unfolding keyset_condition
keyset_condition-IsBefore false x y (inl less) = ground (arith, less)
keyset_condition-IsBefore false x y (inr (tie, less)) = ground (arith, tie, less)
keyset_condition-IsBefore true x y (inl less) = ground (arith, less)
keyset_condition-IsBefore true x y (inr (tie, less)) = ground (arith, tie, less)

All-keyset_condition :
    (d : Bool) (x : Cursor) (ys : List Cursor)
    → All (IsBefore d x) ys
    → All (λ y. keyset_condition d x y ≡ true) ys
All-keyset_condition d x [] h = tt
All-keyset_condition d x (y ∷ ys) (h, hs) =
    (keyset_condition-IsBefore d x y h, All-keyset_condition d x ys hs)

keep-All : (p : Cursor → Bool) (xs : List Cursor) → All (λ y. p y ≡ true) xs → keep p xs ≡ xs
keep-All p [] h = refl
keep-All p (x ∷ xs) (h, hs) = ground (arith, keep-All p xs hs)

not_itself : (d : Bool) (x : Cursor) → keyset_condition d x x ≡ false
unfolding keyset_condition
not_itself d x = ground arith

not_before :
    (d : Bool) (x y : Cursor) → keyset_condition d x y ≡ true → keyset_condition d y x ≡ false
unfolding keyset_condition
not_before d x y h = ground arith

All-middle : (P : Cursor → Type 0) (xs ys : List Cursor) (y : Cursor) → All P (xs ++ y ∷ ys) → P y
All-middle P [] ys y (h, _) = h
All-middle P (x ∷ xs) ys y (_, hs) = All-middle P xs ys y hs

-- the rows after a row of the listing are those that follow it
keep-after :
    (d : Bool) (xs ys : List Cursor) (y : Cursor)
    → IsOrdered d (xs ++ y ∷ ys)
    → keep (keyset_condition d y) (xs ++ y ∷ ys) ≡ ys
keep-after d [] ys y (h, _) =
    ground
      (arith, not_itself d y, keep-All (keyset_condition d y) ys (All-keyset_condition d y ys h))
keep-after d (x ∷ xs) ys y (h, hs) = ground (
  arith,
  not_before d x y (keyset_condition-IsBefore d x y (All-middle (IsBefore d x) xs ys y h)),
  keep-after d xs ys y hs,
)

take_all : (n : ℕ) (xs : List Cursor) → length xs ≤ n → take n xs ≡ xs
take_all zero [] h = refl
take_all (suc n) [] h = refl
take_all zero (x ∷ xs) h = ground (arith, h)
take_all (suc n) (x ∷ xs) h = ap (λ r. x ∷ r) (take_all n xs (omega (arith, h)))

-- a full page ends in a row, which the rest follows
page_split :
    (k : ℕ) (xs : List Cursor)
    → suc k ≤ length xs
    → (ps : List Cursor) × (y : Cursor) × (rest : List Cursor) × (xs ≡ ps ++ y ∷ rest)
      × (take (suc k) xs ≡ ps ++ y ∷ [])
      × (length ps ≡ k)
page_split k [] h = absurd (omega (arith, h))
page_split zero (x ∷ xs) h = ([], x, xs, refl, refl, omega arith)
page_split (suc k) (x ∷ xs) h =
    let (ps, y, rest, whole, page, size) = page_split k xs (omega (arith, h)) in
    (x ∷ ps, y, rest, ap (λ r. x ∷ r) whole, ap (λ r. x ∷ r) page, omega (arith, size))

last_row-append : (ps : List Cursor) (y : Cursor) → last_row (ps ++ y ∷ []) ≡ some y
last_row-append [] y = refl
last_row-append (p ∷ []) y = refl
last_row-append (p ∷ q ∷ ps) y = last_row-append (q ∷ ps) y

length-take : (n : ℕ) (xs : List Cursor) → n ≤ length xs → length (take n xs) ≡ n
length-take zero xs h = refl
length-take (suc n) [] h = absurd (omega (arith, h))
length-take (suc n) (x ∷ xs) h = omega (arith, length-take n xs (omega (arith, h)))

take-take : (n : ℕ) (xs : List Cursor) → take n (take (suc n) xs) ≡ take n xs
take-take zero xs = refl
take-take (suc n) [] = refl
take-take (suc n) (x ∷ xs) = ap (λ r. x ∷ r) (take-take n xs)

cursor_page-short :
    (size : ℕ) (xs : List Cursor)
    → length xs ≤ size
    → cursor_page (take (suc size) xs) size ≡ (xs, none)
unfolding cursor_page
cursor_page-short size xs h = rw (take_all (suc size) xs (omega (arith, h))) (ground (arith, h))

cursor_page-full :
    (k : ℕ) (xs ps : List Cursor) (y : Cursor)
    → suc k < length xs
    → take (suc k) xs ≡ ps ++ y ∷ []
    → cursor_page (take (suc (suc k)) xs) (suc k) ≡ (ps ++ y ∷ [], some y)
unfolding cursor_page
cursor_page-full k xs ps y h page =
    let long : length (take (suc (suc k)) xs) ≡ suc (suc k) =
      length-take (suc (suc k)) xs (omega (arith, h)) in
    let over : leb (length (take (suc (suc k)) xs)) (suc k) ≡ false = ground (arith, long) in
    let cut : take (suc k) (take (suc (suc k)) xs) ≡ ps ++ y ∷ [] = take-take (suc k) xs ∙ page in
    rw over (rw cut (rw (last_row-append ps y) refl))

first_fetch :
    (d : Bool) (limit : ℕ) (rows : List Cursor) → fetch d none limit rows ≡ take limit rows
unfolding fetch
first_fetch d limit rows = refl

module _ (d : Bool) (k : ℕ) (rows : List Cursor) (ordered : IsOrdered d rows) where
  fetch-after :
      (before rest : List Cursor) (y : Cursor)
      → rows ≡ before ++ y ∷ rest
      → (limit : ℕ) → fetch d (some y) limit rows ≡ take limit rest
  unfolding fetch
  fetch-after before rest y whole limit =
      ap (take limit) (rw whole (keep-after d before rest y (subst (IsOrdered d) whole ordered)))

  walk-short :
      (n : ℕ) (c : Option Cursor) (rest : List Cursor)
      → ((limit : ℕ) → fetch d c limit rows ≡ take limit rest)
      → length rest ≤ suc k
      → walk d (suc k) rows (suc n) c ≡ rest
  unfolding walk
  walk-short n c rest fetched short =
      let page : cursor_page (fetch d c (suc (suc k)) rows) (suc k) ≡ (rest, none) =
        rw (fetched (suc (suc k))) (cursor_page-short (suc k) rest short) in
      rw page (append-nil rest)

  walk-from :
      (n : ℕ) (c : Option Cursor) (before rest : List Cursor)
      → rows ≡ before ++ rest
      → ((limit : ℕ) → fetch d c limit rows ≡ take limit rest)
      → length rest ≤ n
      → walk d (suc k) rows (suc n) c ≡ rest
  unfolding walk
  walk-from zero c before rest whole fetched fuel =
      walk-short zero c rest fetched (omega (arith, fuel))
  walk-from (suc n) c before rest whole fetched fuel =
      elim (Bool-cases (leb (length rest) (suc k))) [
        | inl short ↦ walk-short (suc n) c rest fetched (ground arith)
        | inr more ↦
            let long : suc k < length rest = ground arith in
            let (ps, y, after, split, page_is, size) = page_split k rest (omega (arith, long)) in
            let page : cursor_page (fetch d c (suc (suc k)) rows) (suc k) ≡ (ps ++ y ∷ [], some y) =
              rw (fetched (suc (suc k))) (cursor_page-full k rest ps y long page_is) in
            let there : rows ≡ (before ++ ps) ++ y ∷ after =
              whole ∙ ap (λ r. before ++ r) split ∙ sym (append_assoc before ps (y ∷ after)) in
            let beyond : rows ≡ ((before ++ ps) ++ y ∷ []) ++ after =
              there ∙ sym (append_assoc (before ++ ps) (y ∷ []) after) in
            let count : length rest ≡ length ps + length (y ∷ after) =
              ap length split ∙ length-append ps (y ∷ after) in
            let next : walk d (suc k) rows (suc n) (some y) ≡ after =
              walk-from n (some y) ((before ++ ps) ++ y ∷ []) after beyond
                (fetch-after (before ++ ps) after y there) (omega (arith, count, fuel)) in
            rw page
              (ap (λ r. (ps ++ y ∷ []) ++ r) next ∙ append_assoc ps (y ∷ []) after ∙ sym split)
      ]

-- A client that follows the cursors of a listing in the order of its sort value and, among equal ones,
-- of its id gets each of its rows once, in the order
-- of the listing, and reaches the end within one page more than there are rows; for pages of at
-- least one row, in either direction.
pub walk-visits :
    (descending : Bool) (size : ℕ) (rows : List Cursor)
    → IsOrdered descending rows
    → 1 ≤ size
    → walk descending size rows (suc (length rows)) none ≡ rows
walk-visits descending zero rows ordered h = absurd (omega (arith, h))
walk-visits descending (suc k) rows ordered h =
    walk-from descending k rows ordered (length rows) none [] rows refl
      (λ limit. first_fetch descending limit rows) (omega arith)
