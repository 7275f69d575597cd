-- ===== src/Articles/Slug/Digits.antt =====
-- The decimal digits of a number, and texts that end in different numbers.
use heofberu_backend.Prelude.{
  ℕ, zero, suc, ◌+◌, ◌-◌, ◌*◌, ◌/◌, ◌%◌, ◌<◌, ◌≡◌, refl, ap, sym, ◌∙◌, List, [], ◌∷◌, ◌++◌, arith,
  ltb, Bool-cases, inl, inr,
}
use heofberu_backend.Articles.Slug.{digits, str, suffixed, dash}

-- the number that a text of digits stands for
abbrev value : ℕ → List ℕ → ℕ
value n [] = n
value n (d ∷ ds) = value (n * 10 + (d - 48)) ds

value-append : (n d : ℕ) (xs : List ℕ) → value n (xs ++ d ∷ []) ≡ value n xs * 10 + (d - 48)
value-append n d [] = refl
value-append n d (x ∷ xs) = value-append (n * 10 + (x - 48)) d xs

value-digits : (fuel n : ℕ) → n < fuel → value 0 (digits fuel n) ≡ n
unfolding digits
value-digits zero n h = omega arith
value-digits (suc fuel) n h = elim (Bool-cases (ltb n 10)) [
  | inl small ↦ rw small (omega arith)
  | inr big ↦ rw big (
      omega (
        arith,
        value-append 0 (48 + n % 10) (digits fuel (n / 10)),
        value-digits fuel (n / 10) (ground arith),
      ))
]

pub str-injective : (m n : ℕ) → str m ≡ str n → m ≡ n
str-injective m n h =
    sym (value-digits (suc m) m (omega arith))
    ∙ ap (value 0) h
    ∙ value-digits (suc n) n (omega arith)

append-injective : (base xs ys : List ℕ) → base ++ xs ≡ base ++ ys → xs ≡ ys
append-injective [] xs ys h = h
append-injective (b ∷ base) xs ys h = append-injective base xs ys (ground arith)

pub suffixed-injective : (base : List ℕ) (m n : ℕ) → suffixed base m ≡ suffixed base n → m ≡ n
unfolding suffixed
suffixed-injective base m n h =
    let same = append-injective base (dash ∷ str m) (dash ∷ str n) h in
    str-injective m n (ground arith)
