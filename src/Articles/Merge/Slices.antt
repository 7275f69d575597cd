-- ===== src/Articles/Merge/Slices.antt =====
-- Slices of texts, and the equality of lines.
use heofberu_backend.Prelude.{
  ℕ, zero, suc, ◌+◌, ◌-◌, ◌≤◌, ◌≡◌, refl, ap, sym, ◌∙◌, true, false, List, [], ◌∷◌, ◌++◌, arith,
  length, take, drop, take-append-drop,
}
use heofberu_backend.Articles.Merge.{
  Line, line, mark_current, mark_base, mark_middle, mark_proposal, same_line, same_lines, slice,
}

pub drop_nil : (n : ℕ) → drop {A = Line} n [] ≡ []
drop_nil zero = refl
drop_nil (suc n) = refl

pub drop-drop : (m n : ℕ) (xs : List Line) → drop n (drop m xs) ≡ drop (m + n) xs
drop-drop zero n xs = ap (λ k. drop k xs) {x = n} {y = 0 + n} (omega arith)
drop-drop (suc m) n [] = drop_nil n ∙ sym (drop_nil (suc m + n))
drop-drop (suc m) n (x ∷ xs) =
    drop-drop m n xs ∙ ap (λ k. drop k (x ∷ xs)) {x = suc (m + n)} {y = suc m + n} (omega arith)

pub take_all : (n : ℕ) (xs : List Line) → length xs ≤ n → take n xs ≡ xs
take_all zero [] h = refl
take_all zero (x ∷ xs) h = ground (arith, h)
take_all (suc n) [] h = refl
take_all (suc n) (x ∷ xs) h = ap (λ r. x ∷ r) (take_all n xs (omega (arith, h)))

pub length-drop : (n : ℕ) (xs : List Line) → length (drop n xs) ≡ length xs - n
length-drop zero xs = omega arith
length-drop (suc n) [] = omega arith
length-drop (suc n) (x ∷ xs) = omega (arith, length-drop n xs)

pub slice-drop : (x y : ℕ) (xs : List Line) → x ≤ y → slice x y xs ++ drop y xs ≡ drop x xs
slice-drop x y xs h =
    let there : drop y xs ≡ drop (y - x) (drop x xs) =
      ap (λ n. drop n xs) {x = y} {y = x + (y - x)} (omega (arith, h))
      ∙ sym (drop-drop x (y - x) xs) in
    rw there (take-append-drop (y - x) (drop x xs))

pub slice_rest : (x : ℕ) (xs : List Line) → slice x (length xs) xs ≡ drop x xs
slice_rest x xs = take_all (length xs - x) (drop x xs) (omega (arith, length-drop x xs))

pub same_line_refl : (l : Line) → same_line l l ≡ true
same_line_refl (line t true) = ground arith
same_line_refl (line t false) = ground arith
same_line_refl mark_current = refl
same_line_refl mark_base = refl
same_line_refl mark_middle = refl
same_line_refl mark_proposal = refl

pub same_lines_refl : (xs : List Line) → same_lines xs xs ≡ true
same_lines_refl [] = refl
same_lines_refl (x ∷ xs) = ground (arith, same_line_refl x, same_lines_refl xs)
