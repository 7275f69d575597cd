-- ===== src/Campaigns/Counts.antt =====
-- Counting and mapping the rows of a table.
use heofberu_backend.Prelude.{
  ◌≤◌, ◌≡◌, refl, Bool, true, false, List, [], ◌∷◌, map, Option, some, arith, any, keep, first,
  length, All, Bool-cases, inl, inr,
}

module _ {A : Type 0} where
  pub All-map :
      (P Q : A → Type 0) (f : A → A)
      → ((x : A) → P x → Q (f x))
      → (xs : List A) → All P xs
      → All Q (map f xs)
  All-map P Q f each [] _ = tt
  All-map P Q f each (x ∷ xs) (p, ps) = (each x p, All-map P Q f each xs ps)

  pub All-each : (P Q : A → Type 0) → ((x : A) → P x → Q x) → (xs : List A) → All P xs → All Q xs
  All-each P Q each [] _ = tt
  All-each P Q each (x ∷ xs) (p, ps) = (each x p, All-each P Q each xs ps)

  pub length-keep-map :
      (test : A → Bool) (f : A → A)
      → ((x : A) → test (f x) ≡ true → test x ≡ true)
      → (xs : List A) → length (keep test (map f xs)) ≤ length (keep test xs)
  length-keep-map test f each [] = omega arith
  length-keep-map test f each (x ∷ xs) =
      let rest = length-keep-map test f each xs in ground (arith, rest, each x)

  pub length-keep-none :
      (test : A → Bool) (xs : List A) → any test xs ≡ false → length (keep test xs) ≡ 0
  length-keep-none test [] h = refl
  length-keep-none test (x ∷ xs) h = ground (arith, length-keep-none test xs)

  pub any-map :
      (test : A → Bool) (f : A → A)
      → ((x : A) → test x ≡ true → test (f x) ≡ true)
      → (xs : List A) → any test xs ≡ true
      → any test (map f xs) ≡ true
  any-map test f each [] h = h
  any-map test f each (x ∷ xs) h = ground (arith, each x, any-map test f each xs)

  some-injective : {x y : A} → ◌≡◌ {A = Option A} (some x) (some y) → x ≡ y
  some-injective h = cc

  pub first-All :
      (P : A → Type 0) (test : A → Bool) (xs : List A) (x : A)
      → All P xs
      → first test xs ≡ some x
      → P x
  first-All P test [] x _ h = cc
  first-All P test (y ∷ ys) x (p, ps) h = elim (Bool-cases (test y)) [
    | inl hit ↦ let is : y ≡ x = some-injective (ground (arith, hit, h)) in rw (← is) p
    | inr miss ↦ first-All P test ys x ps (ground (arith, miss, h))
  ]

  pub first-test : (test : A → Bool) (xs : List A) (x : A) → first test xs ≡ some x → test x ≡ true
  first-test test [] x h = cc
  first-test test (y ∷ ys) x h = elim (Bool-cases (test y)) [
    | inl hit ↦ let is : y ≡ x = some-injective (ground (arith, hit, h)) in rw (← is) hit
    | inr miss ↦ first-test test ys x (ground (arith, miss, h))
  ]
