-- ===== src/Articles/Tree/Shift.antt =====
-- Where paths go when a subtree moves.
use heofberu_backend.Prelude.{
  ℕ, ◌+◌, ◌-◌, ◌≤◌, ◌≡◌, refl, sym, ap, ◌∙◌, Bool, true, false, List, [], ◌∷◌, ◌++◌, Option, none,
  some, arith, ◌==◌, max, if◌then◌else◌, Bool-cases, inl, inr, length, drop, member, starts_with,
  length-append, ==→eq, append_assoc, append-nil,
}
use heofberu_backend.Articles.Rows.{ArticleRow, Library, map_row}
use heofberu_backend.Articles.Tree.{
  path_of, path_or_empty, new_path, under, deepest, height, is_below, reroot, move_subtree,
  move_below,
}
use heofberu_backend.Articles.Tree.Prefix.{
  starts_with_refl, drop-length, starts_with-longer, starts_with-snoc, drop-snoc, snoc-injective,
  member-last, length-drop,
}
use heofberu_backend.Articles.Tree.Paths.{Fits}

-- where a path goes when the subtree at the first path moves to the second
abbrev pub shifted : List ℕ → List ℕ → List ℕ → List ℕ
shifted old new p = if starts_with old p then reroot old new p else p

-- a path that ends in an id
abbrev pub EndsIn : ℕ → List ℕ → Type 0
EndsIn id old = (xs : List ℕ) × (old ≡ xs ++ id ∷ [])

pub Fits-EndsIn :
    (i : ℕ) (parent : Option ℕ) (p : List ℕ) (s : Library) → Fits i parent p s → EndsIn i p
Fits-EndsIn i none p s is = ([], is)
Fits-EndsIn i (some q) p s (pq, _, is) = (pq, is)

pub shifted_self : (old new : List ℕ) → shifted old new old ≡ new
shifted_self old new =
    rw (starts_with_refl old) (ap (λ x. new ++ x) (drop-length old) ∙ append-nil new)

pub not_prefix :
    (id i : ℕ) (old q : List ℕ)
    → EndsIn id old
    → (i == id) ≡ false
    → starts_with old q ≡ false
    → starts_with old (q ++ i ∷ []) ≡ false
not_prefix id i old q (xs, is) other apart = elim (Bool-cases (starts_with old (q ++ i ∷ []))) [
  | inr no' ↦ no'
  | inl below ↦ elim (starts_with-snoc old q i below) [
    | inl shorter ↦ ground arith
    | inr whole ↦ ground (arith, snoc-injective q xs i id (sym whole ∙ is))
  ]
]

pub shifted-snoc :
    (id i : ℕ) (old new q : List ℕ)
    → EndsIn id old
    → (i == id) ≡ false
    → shifted old new (q ++ i ∷ []) ≡ shifted old new q ++ i ∷ []
shifted-snoc id i old new q ends other = elim (Bool-cases (starts_with old q)) [
  | inl below ↦
      rw (below, starts_with-longer old q (i ∷ []) below)
        (ap (λ x. new ++ x) (drop-snoc old q i below)
          ∙ sym (append_assoc new (drop (length old) q) (i ∷ [])))
  | inr apart ↦ rw (apart, not_prefix id i old q ends other apart) refl
]

pub not_empty : (xs : List ℕ) (id : ℕ) → starts_with (xs ++ id ∷ []) [] ≡ false
not_empty [] id = refl
not_empty (x ∷ xs) id = refl

pub shifted-root :
    (id i : ℕ) (old new : List ℕ)
    → EndsIn id old
    → (i == id) ≡ false
    → shifted old new (i ∷ []) ≡ i ∷ []
shifted-root id i old new (xs, is) other =
    let apart : starts_with old [] ≡ false = rw is (not_empty xs id) in
    let none_below : starts_with old (i ∷ []) ≡ false =
      not_prefix id i old [] (xs, is) other apart in
    rw none_below refl

pub shifted-apart :
    (id : ℕ) (old new q : List ℕ) → EndsIn id old → member id q ≡ false → shifted old new q ≡ q
shifted-apart id old new q (xs, is) apart = elim (Bool-cases (starts_with old q)) [
  | inl below ↦ ground (arith, member-last xs id q (rw (← is) below))
  | inr no' ↦ rw no' refl
]

pub deepest-here :
    (old : List ℕ) (o : Option (List ℕ)) (p : List ℕ) (rest : ℕ)
    → o ≡ some p
    → starts_with old p ≡ true
    → length p ≤ (if is_below old o then max (length (path_or_empty o)) rest else rest)
deepest-here old none p rest is below = ground arith
deepest-here old (some p') p rest is below =
    let same : p' ≡ p = ground arith in rw same (rw below (omega arith))

pub deepest-rest : (c : Bool) (n m rest : ℕ) → n ≤ rest → n ≤ (if c then max m rest else rest)
deepest-rest true n m rest h = omega arith
deepest-rest false n m rest h = h

pub under-snoc :
    (id q : ℕ) (s : Library) (pq : List ℕ) → 1 ≤ length pq → under id q s pq ≡ pq ++ id ∷ []
under-snoc id q s [] h = ground arith
under-snoc id q s (x ∷ xs) h = refl

-- the height of a subtree counts every path below its root
pub deepest-bound :
    (ids : List ℕ) (old : List ℕ) (s : Library) (i : ℕ) (p : List ℕ)
    → member i ids ≡ true
    → path_of i s ≡ some p
    → starts_with old p ≡ true
    → length p ≤ deepest ids old s
unfolding deepest
deepest-bound [] old s i p h at below = cc
deepest-bound (j ∷ ids) old s i p h at below = elim (Bool-cases (i == j)) [
  | inl same ↦
      let here : path_of j s ≡ some p = ap (λ k. path_of k s) (sym (==→eq i j same)) ∙ at in
      deepest-here old (path_of j s) p (deepest ids old s) here below
  | inr other ↦
      let rest = deepest-bound ids old s i p (ground arith) at below in
      deepest-rest (is_below old (path_of j s)) (length p) (length (path_or_empty (path_of j s)))
        (deepest ids old s) rest
]

-- the path of an article under a parent
pub new_path-snoc :
    (id q : ℕ) (s : Library) (pq : List ℕ)
    → path_of q s ≡ some pq
    → 1 ≤ length pq
    → new_path id (some q) s ≡ pq ++ id ∷ []
unfolding new_path
new_path-snoc id q s pq at long =
    ap (λ o. under id q s (path_or_empty o)) at ∙ under-snoc id q s pq long

pub move_below-subtree :
    (id : ℕ) (old new : List ℕ) (s : Library)
    → 1 ≤ length old
    → move_below id old new s ≡ move_subtree id old new s
move_below-subtree id [] new s h = ground arith
move_below-subtree id (x ∷ xs) new s h = refl

pub height-deepest :
    (old : List ℕ) (s : Library) → 1 ≤ length old → height old s ≡ deepest s.ids old s - length old
unfolding height
height-deepest [] s h = ground arith
height-deepest (x ∷ xs) s h = refl

pub path_of-shift :
    (old new : List ℕ) (b : ArticleRow) (p : List ℕ)
    → b.path ≡ some p
    → (if is_below old b.path
        then record b { path = some (reroot old new (path_or_empty b.path)) }
        else b).path
      ≡ some (shifted old new p)
path_of-shift old new b p h =
    let same : is_below old b.path ≡ starts_with old p = ap (is_below old) h in
    elim (Bool-cases (starts_with old p)) [
      | inl below ↦ rw (same, below) (ap (λ o. some (reroot old new (path_or_empty o))) h)
      | inr apart ↦ rw (same, apart) h
    ]

pub parent-shift :
    (c : Bool) (o : Option (List ℕ)) (b : ArticleRow)
    → (if c then record b { path = o } else b).parent_id ≡ b.parent_id
parent-shift true o b = refl
parent-shift false o b = refl

pub length-shifted :
    (old new p : List ℕ)
    → (starts_with old p ≡ true → length new + (length p - length old) ≤ 32)
    → length p ≤ 32
    → length (shifted old new p) ≤ 32
length-shifted old new p high short = elim (Bool-cases (starts_with old p)) [
  | inl below ↦ rw below (
      omega
        (arith, length-append new (drop (length old) p), length-drop (length old) p, high below))
  | inr apart ↦ rw apart short
]

pub map_row-path :
    (f : ArticleRow → ArticleRow)
    → ((b : ArticleRow) → (f b).path ≡ b.path)
    → (o : Option ArticleRow)
    → elim (map_row f o) [ none ↦ none | some b ↦ b.path ]
      ≡ elim o [ none ↦ none | some b ↦ b.path ]
map_row-path f same none = refl
map_row-path f same (some b) = same b

pub none-some : {A : Type 0} {o : Option A} {b : A} → o ≡ none → o ≡ some b → ⊥
none-some p q = cc

-- the new parent, where there is one, is not below the article
abbrev pub NoCycle : ℕ → Option ℕ → Library → Type 0
NoCycle id none s = Unit
NoCycle id (some q) s = (pq : List ℕ) × (path_of q s ≡ some pq) × (member id pq ≡ false)
