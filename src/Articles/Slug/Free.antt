-- ===== src/Articles/Slug/Free.antt =====
-- The search for a slug that no other article has.
use heofberu_backend.Prelude.{
  ◌⊎◌, sym, ◌∙◌, ℕ, zero, suc, ◌+◌, ◌≤◌, ◌<◌, ◌≡◌, refl, ap, Bool, true, false, not, ◌&&◌, List, [],
  ◌∷◌, ◌++◌, arith, keep, Bool-cases, inl, inr, length, length-keep-le, append_assoc, same_list,
  same_list→eq, same_list_refl, starts_with, starts_with-append,
}
use heofberu_backend.Articles.Slug.{
  str, suffixed, dash, is_taken, next_free, like_base, generate_unique_slug,
}
use heofberu_backend.Articles.Slug.Digits.{suffixed-injective}

-- the texts of a list other than this one
abbrev without : List ℕ → List (List ℕ) → List (List ℕ)
without x xs = keep (λ y. not (same_list x y)) xs

is_taken-keep :
    (x : List ℕ) (p : List ℕ → Bool) (xs : List (List ℕ))
    → is_taken x (keep p xs) ≡ (is_taken x xs && p x)
is_taken-keep x p [] = refl
is_taken-keep x p (y ∷ ys) = elim (Bool-cases (same_list x y)) [
  | inl same ↦ rw (← same_list→eq x y same) (ground (arith, is_taken-keep x p ys, same_list_refl x))
  | inr other ↦ ground (arith, is_taken-keep x p ys)
]

length-without :
    (x : List ℕ) (xs : List (List ℕ)) → is_taken x xs ≡ true → length (without x xs) < length xs
length-without x [] h = cc
length-without x (y ∷ ys) h = elim (Bool-cases (same_list x y)) [
  | inl same ↦ ground (arith, length-keep-le (λ y. not (same_list x y)) ys)
  | inr other ↦ ground (arith, length-without x ys (ground arith))
]

suffixed-apart :
    (base : List ℕ) (m n : ℕ) → m < n → same_list (suffixed base m) (suffixed base n) ≡ false
suffixed-apart base m n h = elim (Bool-cases (same_list (suffixed base m) (suffixed base n))) [
  | inl same ↦
      let is =
        suffixed-injective base m n (same_list→eq (suffixed base m) (suffixed base n) same) in
      ground arith
  | inr other ↦ other
]

like_base-suffixed : (base : List ℕ) (n : ℕ) → like_base base (suffixed base n) ≡ true
unfolding suffixed
like_base-suffixed base n = ground (
  arith,
  ap (starts_with (base ++ dash ∷ [])) (append_assoc base (dash ∷ []) (str n)),
  starts_with-append (base ++ dash ∷ []) (str n),
)

base-apart : (base : List ℕ) (n : ℕ) → same_list base (suffixed base n) ≡ false
unfolding suffixed
base-apart [] n = refl
base-apart (b ∷ base) n = ground (arith, base-apart base n)

-- a search that has more turns than there are taken candidates left ends at a free one
next_free-is_taken :
    (fuel : ℕ) (base : List ℕ) (suffix : ℕ) (candidate : List ℕ) (taken left : List (List ℕ))
    → (is_taken candidate taken ≡ true → is_taken candidate left ≡ true)
    → ((n : ℕ)
        → suffix ≤ n
        → is_taken (suffixed base n) taken ≡ true
        → is_taken (suffixed base n) left ≡ true)
    → ((n : ℕ) → suffix ≤ n → same_list candidate (suffixed base n) ≡ false)
    → length left < fuel
    → is_taken (next_free fuel base suffix candidate taken) taken ≡ false
unfolding next_free
next_free-is_taken zero base suffix candidate taken left here later apart h = ground arith
next_free-is_taken (suc fuel) base suffix candidate taken left here later apart h =
    elim (Bool-cases (is_taken candidate taken)) [
      | inl hit ↦ rw hit (
          next_free-is_taken fuel base (suffix + 1) (suffixed base suffix) taken
            (without candidate left)
            (λ m.
              rw (is_taken-keep (suffixed base suffix) (λ y. not (same_list candidate y)) left)
                (ground (arith, later suffix (omega arith) m, apart suffix (omega arith))))
            (λ n le m.
              rw (is_taken-keep (suffixed base n) (λ y. not (same_list candidate y)) left)
                (ground (arith, later n (omega arith) m, apart n (omega arith))))
            (λ n le. suffixed-apart base suffix n (omega arith))
            (omega (arith, length-without candidate left (here hit))))
      | inr miss ↦ rw miss miss
    ]

-- the base with a dash and a number from 2 on
abbrev pub IsSuffixed : List ℕ → List ℕ → Type 0
IsSuffixed base slug = (n : ℕ) × (2 ≤ n) × (slug ≡ base ++ dash ∷ str n)

-- the search answers its first candidate or a later one
next_free-candidate :
    (fuel : ℕ) (base : List ℕ) (suffix : ℕ) (candidate : List ℕ) (taken : List (List ℕ))
    → 2 ≤ suffix
    → (candidate ≡ base) ⊎ IsSuffixed base candidate
    → (next_free fuel base suffix candidate taken ≡ base)
      ⊎ IsSuffixed base (next_free fuel base suffix candidate taken)
unfolding next_free suffixed
next_free-candidate zero base suffix candidate taken le h = h
next_free-candidate (suc fuel) base suffix candidate taken le h =
    elim (Bool-cases (is_taken candidate taken)) [
      | inl hit ↦ rw hit (
          next_free-candidate fuel base (suffix + 1) (suffixed base suffix) taken
            (omega (arith, le)) (inr (suffix, le, refl)))
      | inr miss ↦ rw miss h
    ]

like_base-either :
    (base slug : List ℕ) → (slug ≡ base) ⊎ IsSuffixed base slug → like_base base slug ≡ true
unfolding suffixed
like_base-either base slug (inl is) =
    ground (arith, ap (λ t. same_list t base) is ∙ same_list_refl base)
like_base-either base slug (inr (n, _, is)) = ap (like_base base) is ∙ like_base-suffixed base n

-- The loop of the slug allocation ends within its turns, one more than the slugs that the query
-- reads: the slug is one that no other article has, it is the base itself where that is free, and
-- otherwise it is the base with a dash and the decimal digits of a number from 2 on.
pub generate_unique_slug_lem :
    (base : List ℕ) (slugs : List (List ℕ))
    → (is_taken (generate_unique_slug base slugs) slugs ≡ false)
      × (is_taken base slugs ≡ false → generate_unique_slug base slugs ≡ base)
      × (is_taken base slugs ≡ true → IsSuffixed base (generate_unique_slug base slugs))
unfolding generate_unique_slug next_free
generate_unique_slug_lem base slugs =
    let taken = keep (like_base base) slugs in
    let slug : List ℕ = next_free (length taken + 1) base 2 base taken in
    let free : is_taken slug taken ≡ false =
      next_free-is_taken (length taken + 1) base 2 base taken taken (λ h. h) (λ n _ h. h)
        (λ n _. base-apart base n) (omega arith) in
    let either : (slug ≡ base) ⊎ IsSuffixed base slug =
      next_free-candidate (length taken + 1) base 2 base taken (omega arith) (inl refl) in
    let like : like_base base slug ≡ true = like_base-either base slug either in
    let is_free : is_taken slug slugs ≡ false =
      ground (arith, free, like, is_taken-keep slug (like_base base) slugs) in
    (
      is_free,
      λ h. ground (arith, h, is_taken-keep base (like_base base) slugs),
      λ h. elim either [
        | inl is ↦ absurd (ground (arith, sym h ∙ ap (λ t. is_taken t slugs) (sym is) ∙ is_free))
        | inr with_number ↦ with_number
      ],
    )
