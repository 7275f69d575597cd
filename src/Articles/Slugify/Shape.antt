-- ===== src/Articles/Slugify/Shape.antt =====
-- The shape of a slug.
use heofberu_backend.Prelude.{
  ℕ, zero, suc, ◌≤◌, ◌≡◌, refl, Bool, true, false, ◌||◌, List, [], ◌∷◌, arith, all, length, take,
  ◌==◌,
}
use heofberu_backend.Articles.Slugify.{
  is_slug_char, dash, sub_non_slug, strip_left, strip_right, cons_unless_dash, strip, or_fallback,
  slugify, transliterated,
}

-- a letter, a digit or a dash
abbrev pub in_slug : ℕ → Bool
in_slug char = is_slug_char char || char == dash

abbrev pub first_is_dash : List ℕ → Bool
first_is_dash [] = false
first_is_dash (x ∷ xs) = x == dash

abbrev pub last_is_dash : List ℕ → Bool
last_is_dash [] = false
last_is_dash (x ∷ []) = x == dash
last_is_dash (x ∷ y ∷ ys) = last_is_dash (y ∷ ys)

all-sub_non_slug : (in_run : Bool) (xs : List ℕ) → all in_slug (sub_non_slug in_run xs) ≡ true
unfolding sub_non_slug
all-sub_non_slug in_run [] = refl
all-sub_non_slug in_run (x ∷ xs) =
    ground (arith, all-sub_non_slug true xs, all-sub_non_slug false xs)

all-strip_left : (xs : List ℕ) → all in_slug xs ≡ true → all in_slug (strip_left xs) ≡ true
unfolding strip_left
all-strip_left [] h = refl
all-strip_left (x ∷ xs) h = ground (arith, all-strip_left xs (ground arith))

all-cons_unless_dash :
    (x : ℕ) (xs : List ℕ) → all in_slug (x ∷ xs) ≡ true → all in_slug (cons_unless_dash x xs) ≡ true
all-cons_unless_dash x [] h = ground arith
all-cons_unless_dash x (y ∷ ys) h = h

all-strip_right : (xs : List ℕ) → all in_slug xs ≡ true → all in_slug (strip_right xs) ≡ true
unfolding strip_right
all-strip_right [] h = refl
all-strip_right (x ∷ xs) h =
    all-cons_unless_dash x (strip_right xs) (ground (arith, all-strip_right xs (ground arith)))

all-take : (n : ℕ) (xs : List ℕ) → all in_slug xs ≡ true → all in_slug (take n xs) ≡ true
all-take zero xs h = refl
all-take (suc n) [] h = refl
all-take (suc n) (x ∷ xs) h = ground (arith, all-take n xs (ground arith))

length-take-le : (n : ℕ) (xs : List ℕ) → length (take n xs) ≤ n
length-take-le zero xs = omega arith
length-take-le (suc n) [] = omega arith
length-take-le (suc n) (x ∷ xs) = omega (arith, length-take-le n xs)

length-strip_left : (xs : List ℕ) → length (strip_left xs) ≤ length xs
unfolding strip_left
length-strip_left [] = omega arith
length-strip_left (x ∷ xs) = ground (arith, length-strip_left xs)

length-cons_unless_dash : (x : ℕ) (xs : List ℕ) → length (cons_unless_dash x xs) ≤ suc (length xs)
length-cons_unless_dash x [] = ground arith
length-cons_unless_dash x (y ∷ ys) = omega arith

length-strip_right : (xs : List ℕ) → length (strip_right xs) ≤ length xs
unfolding strip_right
length-strip_right [] = omega arith
length-strip_right (x ∷ xs) =
    omega (arith, length-cons_unless_dash x (strip_right xs), length-strip_right xs)

first-strip_left : (xs : List ℕ) → first_is_dash (strip_left xs) ≡ false
unfolding strip_left
first-strip_left [] = refl
first-strip_left (x ∷ xs) = ground (arith, first-strip_left xs)

first-cons_unless_dash :
    (x : ℕ) (xs : List ℕ) → (x == dash) ≡ false → first_is_dash (cons_unless_dash x xs) ≡ false
first-cons_unless_dash x [] h = ground arith
first-cons_unless_dash x (y ∷ ys) h = h

first-strip_right :
    (xs : List ℕ) → first_is_dash xs ≡ false → first_is_dash (strip_right xs) ≡ false
unfolding strip_right
first-strip_right [] h = refl
first-strip_right (x ∷ xs) h = first-cons_unless_dash x (strip_right xs) h

last-cons_unless_dash :
    (x : ℕ) (xs : List ℕ) → last_is_dash xs ≡ false → last_is_dash (cons_unless_dash x xs) ≡ false
last-cons_unless_dash x [] h = ground arith
last-cons_unless_dash x (y ∷ ys) h = h

last-strip_right : (xs : List ℕ) → last_is_dash (strip_right xs) ≡ false
unfolding strip_right
last-strip_right [] = refl
last-strip_right (x ∷ xs) = last-cons_unless_dash x (strip_right xs) (last-strip_right xs)

-- a text that is fit for a slug: from one to two hundred letters, digits and dashes, with no dash at
-- either end
abbrev pub IsSlug : List ℕ → Type 0
IsSlug slug =
    (1 ≤ length slug)
    × (length slug ≤ 200)
    × (all in_slug slug ≡ true)
    × (first_is_dash slug ≡ false)
    × (last_is_dash slug ≡ false)

or_fallback-IsSlug :
    (slug fallback : List ℕ)
    → IsSlug fallback
    → length slug ≤ 200
    → all in_slug slug ≡ true
    → first_is_dash slug ≡ false
    → last_is_dash slug ≡ false
    → IsSlug (or_fallback slug fallback)
or_fallback-IsSlug [] fallback h _ _ _ _ = h
or_fallback-IsSlug (x ∷ xs) fallback h short chars first last =
    (omega arith, short, chars, first, last)

-- Whatever the title, its slug has from one to two hundred characters, each of them a letter from a
-- to z, a digit or a dash, and no dash at either end, where the fallback is such a text.
pub slugify-IsSlug :
    (lower : List ℕ → List ℕ) (title fallback : List ℕ)
    → IsSlug fallback
    → IsSlug (slugify lower title fallback)
unfolding slugify
slugify-IsSlug lower title fallback h =
    let raw : List ℕ = sub_non_slug false (transliterated (lower title)) in
    let cut : List ℕ = take 200 (strip raw) in
    or_fallback-IsSlug (strip cut) fallback h
      (omega (
        arith,
        length-strip_right (strip_left cut),
        length-strip_left cut,
        length-take-le 200 (strip raw),
      ))
      (all-strip_right (strip_left cut) (
        all-strip_left cut (
          all-take 200 (strip raw) (
            all-strip_right (strip_left raw)
              (all-strip_left raw (all-sub_non_slug false (transliterated (lower title))))))))
      (first-strip_right (strip_left cut) (first-strip_left cut))
      (last-strip_right (strip_left cut))
