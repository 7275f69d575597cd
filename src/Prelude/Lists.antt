-- ===== src/Prelude/Lists.antt =====
-- Lists over the native numbers: length, membership as a Boolean, `any`, `all`, and `All`.
use Prim.Native.Nat.{ℕ, zero, suc, ◌+◌, ◌≤◌}
use mathlib.Core.Path.{◌≡◌, refl, ap}
use mathlib.Core.Bool.{Bool, true, false, ◌&&◌, ◌||◌}
use mathlib.Core.Option.{Option, none, some}
use mathlib.Core.List.{List, [], ◌∷◌, ◌++◌}
use native.Mathlib.Omega.{arith}
use mathlib.Core.Logic.{◌↔◌, inl, inr}
use heofberu_backend.Prelude.Tests.{◌==◌, if◌then◌else◌, Bool-cases, ==→eq}

module _ {ℓ} {A : Type ℓ} where
  abbrev pub length : List A → ℕ
  length [] = 0
  length (_ ∷ xs) = suc (length xs)

  abbrev pub take : ℕ → List A → List A
  take zero _ = []
  take (suc n) [] = []
  take (suc n) (x ∷ xs) = x ∷ take n xs

  abbrev pub drop : ℕ → List A → List A
  drop zero xs = xs
  drop (suc n) [] = []
  drop (suc n) (x ∷ xs) = drop n xs

  -- Python's `any(p(x) for x in xs)`
  abbrev pub any : (A → Bool) → List A → Bool
  any p [] = false
  any p (x ∷ xs) = p x || any p xs

  -- Python's `all(p(x) for x in xs)`
  abbrev pub all : (A → Bool) → List A → Bool
  all p [] = true
  all p (x ∷ xs) = p x && all p xs

  -- `[x for x in xs if p(x)]`
  abbrev pub keep : (A → Bool) → List A → List A
  keep p [] = []
  keep p (x ∷ xs) = let rest = keep p xs in if p x then x ∷ rest else rest

  -- `next((x for x in xs if p(x)), None)`
  abbrev pub first : (A → Bool) → List A → Option A
  first p [] = none
  first p (x ∷ xs) = let rest = first p xs in if p x then some x else rest

  abbrev pub All {κ} : (A → Type κ) → List A → Type κ
  All P [] = Unit
  All P (x ∷ xs) = P x × All P xs

  pub length-append : (xs ys : List A) → length (xs ++ ys) ≡ length xs + length ys
  length-append [] ys = omega arith
  length-append (x ∷ xs) ys = omega (arith, length-append xs ys)

  pub take-append-drop : (n : ℕ) (xs : List A) → take n xs ++ drop n xs ≡ xs
  take-append-drop zero xs = refl
  take-append-drop (suc n) [] = refl
  take-append-drop (suc n) (x ∷ xs) = ap (λ r. x ∷ r) (take-append-drop n xs)

  pub length-keep-le : (p : A → Bool) (xs : List A) → length (keep p xs) ≤ length xs
  length-keep-le p [] = omega arith
  length-keep-le p (x ∷ xs) = ground (arith, length-keep-le p xs)

-- `n in xs`
abbrev pub member : ℕ → List ℕ → Bool
member n [] = false
member n (x ∷ xs) = n == x || member n xs

-- does the second list start with the first?
abbrev pub starts_with : List ℕ → List ℕ → Bool
starts_with [] _ = true
starts_with (b ∷ base) [] = false
starts_with (b ∷ base) (x ∷ xs) = b == x && starts_with base xs

-- Python's `xs == ys` on lists of numbers
abbrev pub same_list : List ℕ → List ℕ → Bool
same_list [] [] = true
same_list (x ∷ xs) (y ∷ ys) = x == y && same_list xs ys
same_list _ _ = false

-- Python's `xs == ys` on sets given by their elements
abbrev pub same_set : List ℕ → List ℕ → Bool
same_set xs ys = all (λ x. member x ys) xs && all (λ y. member y xs) ys

pub member-keep : (n : ℕ) (p : ℕ → Bool) (xs : List ℕ) → member n (keep p xs) ≡ (member n xs && p n)
member-keep n p [] = refl
member-keep n p (x ∷ xs) = elim (Bool-cases (n == x)) [
  | inl same ↦ rw (← ==→eq n x same) (ground (arith, member-keep n p xs))
  | inr other ↦ ground (arith, member-keep n p xs)
]

all→member :
    (xs ys : List ℕ)
    → all (λ x. member x ys) xs ≡ true
    → (n : ℕ) → member n xs ≡ true
    → member n ys ≡ true
all→member [] ys h n m = cc
all→member (x ∷ xs) ys h n m = elim (Bool-cases (n == x)) [
  | inl same ↦ rw (==→eq n x same) (ground arith)
  | inr other ↦ all→member xs ys (ground arith) n (ground arith)
]

member→all :
    (xs ys : List ℕ)
    → ((n : ℕ) → member n xs ≡ true → member n ys ≡ true)
    → all (λ x. member x ys) xs ≡ true
member→all [] ys h = refl
member→all (x ∷ xs) ys h =
    ground (arith, h x (ground arith), member→all xs ys (λ n m. h n (ground arith)))

Bool_ext : (a b : Bool) → (a ≡ true → b ≡ true) → (b ≡ true → a ≡ true) → a ≡ b
Bool_ext a b f g = ground arith

-- two lists are the same set exactly when they have the same members
pub same_set_iff :
    (xs ys : List ℕ) → (same_set xs ys ≡ true) ↔ ((n : ℕ) → member n xs ≡ member n ys)
same_set_iff xs ys = (
  λ h n.
      Bool_ext (member n xs) (member n ys) (all→member xs ys (ground arith) n)
        (all→member ys xs (ground arith) n),
  λ h. ground (arith, member→all xs ys (λ n m. rw (← h n) m), member→all ys xs (λ n m. rw (h n) m)),
)

pub same_list→eq : (xs ys : List ℕ) → same_list xs ys ≡ true → xs ≡ ys
same_list→eq [] [] h = refl
same_list→eq [] (y ∷ ys) h = cc
same_list→eq (x ∷ xs) [] h = cc
same_list→eq (x ∷ xs) (y ∷ ys) h =
    ground (arith, ==→eq x y (ground arith), same_list→eq xs ys (ground arith))

pub same_list_refl : (xs : List ℕ) → same_list xs xs ≡ true
same_list_refl [] = refl
same_list_refl (x ∷ xs) = ground (arith, same_list_refl xs)

pub starts_with-append : (base xs : List ℕ) → starts_with base (base ++ xs) ≡ true
starts_with-append [] xs = refl
starts_with-append (b ∷ base) xs = ground (arith, starts_with-append base xs)
