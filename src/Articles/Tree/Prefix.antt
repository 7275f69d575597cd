-- ===== src/Articles/Tree/Prefix.antt =====
-- Paths that start with other paths.
use heofberu_backend.Prelude.{
  ℕ, zero, suc, ◌+◌, ◌-◌, ◌≤◌, ◌≡◌, refl, ap, true, List, [], ◌∷◌, ◌++◌, arith, ◌⊎◌, inl, inr,
  length, drop, member, starts_with, length-append, ==→eq,
}

pub starts_with_refl : (xs : List ℕ) → starts_with xs xs ≡ true
starts_with_refl [] = refl
starts_with_refl (x ∷ xs) = ground (arith, starts_with_refl xs)

pub drop-length : (xs : List ℕ) → drop (length xs) xs ≡ []
drop-length [] = refl
drop-length (x ∷ xs) = drop-length xs

pub starts_with-longer :
    (old q xs : List ℕ) → starts_with old q ≡ true → starts_with old (q ++ xs) ≡ true
starts_with-longer [] q xs h = refl
starts_with-longer (o ∷ old) [] xs h = cc
starts_with-longer (o ∷ old) (x ∷ q) xs h =
    ground (arith, starts_with-longer old q xs (ground arith))

-- a path with one more label starts with a path that it started with before, or is that path
pub starts_with-snoc :
    (old q : List ℕ) (i : ℕ)
    → starts_with old (q ++ i ∷ []) ≡ true
    → (starts_with old q ≡ true) ⊎ (old ≡ q ++ i ∷ [])
starts_with-snoc [] q i h = inl refl
starts_with-snoc (o ∷ []) [] i h = inr (ap (λ x. x ∷ []) (==→eq o i (ground arith)))
starts_with-snoc (o ∷ o' ∷ old) [] i h = ground arith
starts_with-snoc (o ∷ old) (x ∷ q) i h = elim (starts_with-snoc old q i (ground arith)) [
  | inl shorter ↦ inl (ground arith)
  | inr whole ↦ inr (ground (arith, ==→eq o x (ground arith)))
]

pub drop-snoc :
    (old q : List ℕ) (i : ℕ)
    → starts_with old q ≡ true
    → drop (length old) (q ++ i ∷ []) ≡ drop (length old) q ++ i ∷ []
drop-snoc [] q i h = refl
drop-snoc (o ∷ old) [] i h = cc
drop-snoc (o ∷ old) (x ∷ q) i h = drop-snoc old q i (ground arith)

pub snoc-injective : (xs ys : List ℕ) (i j : ℕ) → xs ++ i ∷ [] ≡ ys ++ j ∷ [] → i ≡ j
snoc-injective [] [] i j h = ground arith
snoc-injective [] (y ∷ []) i j h = ground arith
snoc-injective [] (y ∷ y' ∷ ys) i j h = ground arith
snoc-injective (x ∷ []) [] i j h = ground arith
snoc-injective (x ∷ x' ∷ xs) [] i j h = ground arith
snoc-injective (x ∷ xs) (y ∷ ys) i j h = snoc-injective xs ys i j (ground arith)

pub member-last :
    (xs : List ℕ) (i : ℕ) (ys : List ℕ) → starts_with (xs ++ i ∷ []) ys ≡ true → member i ys ≡ true
member-last [] i [] h = cc
member-last [] i (y ∷ ys) h = ground arith
member-last (x ∷ xs) i [] h = cc
member-last (x ∷ xs) i (y ∷ ys) h = ground (arith, member-last xs i ys (ground arith))

pub length-drop : (n : ℕ) (xs : List ℕ) → length (drop n xs) ≡ length xs - n
length-drop zero xs = omega arith
length-drop (suc n) [] = omega arith
length-drop (suc n) (x ∷ xs) = omega (arith, length-drop n xs)

pub length-starts_with : (old xs : List ℕ) → starts_with old xs ≡ true → length old ≤ length xs
length-starts_with [] xs h = omega arith
length-starts_with (o ∷ old) [] h = cc
length-starts_with (o ∷ old) (x ∷ xs) h = omega (arith, length-starts_with old xs (ground arith))

pub length-snoc : (xs : List ℕ) (i : ℕ) → length (xs ++ i ∷ []) ≡ length xs + 1
length-snoc xs i = omega (arith, length-append xs (i ∷ []))
