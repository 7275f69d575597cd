-- ===== src/Articles/Slug.antt =====
-- app/features/shared/slug.py and the slug allocation of app/features/articles/crud/repository.py:
-- a text is the list of its code points. `str.lower` is a parameter.
pub mod Digits
pub mod Free
use heofberu_backend.Prelude.{
  ℕ, zero, suc, ◌+◌, ◌/◌, ◌%◌, Bool, true, false, not, ◌&&◌, ◌||◌, List, [], ◌∷◌, ◌++◌, ltb, leb,
  ◌==◌, if◌then◌else◌, length, any, keep, same_list, starts_with,
}

-- `x in xs` on a set of texts
abbrev pub is_taken : List ℕ → List (List ℕ) → Bool
is_taken slug taken = any (same_list slug) taken

-- the decimal digits of a number, for so many digits at most
unfoldable pub digits : ℕ → ℕ → List ℕ
digits zero n = []
digits (suc fuel) n =
    let rest = digits fuel (n / 10) in
    if ltb n 10 then (48 + n) ∷ [] else rest ++ (48 + n % 10) ∷ []

-- `str(n)`
abbrev pub str : ℕ → List ℕ
str n = digits (suc n) n

abbrev pub dash : ℕ
dash = 45

-- `f"{base}-{suffix}"`
unfoldable pub suffixed : List ℕ → ℕ → List ℕ
unfolding digits
suffixed base suffix = base ++ dash ∷ str suffix

-- `WHERE slug = base OR slug LIKE 'base-%'`
abbrev pub like_base : List ℕ → List ℕ → Bool
like_base base slug = same_list slug base || starts_with (base ++ dash ∷ []) slug

-- the loop of `generate_unique_slug`, for so many turns at most
unfoldable pub next_free : ℕ → List ℕ → ℕ → List ℕ → List (List ℕ) → List ℕ
unfolding suffixed
next_free zero base suffix candidate taken = candidate
next_free (suc fuel) base suffix candidate taken =
    let next = next_free fuel base (suffix + 1) (suffixed base suffix) taken in
    if is_taken candidate taken then next else candidate

-- `generate_unique_slug` of a slug, where other articles have these slugs
unfoldable pub generate_unique_slug : List ℕ → List (List ℕ) → List ℕ
unfolding next_free
generate_unique_slug base slugs =
    let taken = keep (like_base base) slugs in next_free (length taken + 1) base 2 base taken
