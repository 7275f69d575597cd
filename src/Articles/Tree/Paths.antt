-- ===== src/Articles/Tree/Paths.antt =====
-- The article tree is sound: the path of an article is the path of its parent and its own id.
use heofberu_backend.Prelude.{
  ℕ, zero, suc, ◌≤◌, ◌≡◌, refl, sym, ap, ◌∙◌, true, ◌||◌, List, [], ◌∷◌, ◌++◌, Option, none, some,
  arith, ◌==◌, inl, inr, Option-cases, length, member, some_same,
}
use heofberu_backend.Articles.Rows.{ArticleRow, Library}
use heofberu_backend.Articles.Tree.{ancestor_chain, chain_depth, is_self_or_descendant, path_of}
use heofberu_backend.Articles.Tree.Prefix.{length-snoc}

-- a path fits an article and its parent
abbrev pub Fits : ℕ → Option ℕ → List ℕ → Library → Type 0
Fits i none p s = p ≡ i ∷ []
Fits i (some q) p s = (pq : List ℕ) × (path_of q s ≡ some pq) × (p ≡ pq ++ i ∷ [])

pub record IsTree (s : Library) : Type 0 where
  pub each :
      (i : ℕ) (a : ArticleRow)
      → s.articles i ≡ some a
      → (p : List ℕ) × (a.path ≡ some p) × Fits i a.parent_id p s × (length p ≤ 32)
  pub listed : (i : ℕ) (a : ArticleRow) → s.articles i ≡ some a → member i s.ids ≡ true

pub path_of-row :
    (q : ℕ) (s : Library) (pq : List ℕ)
    → path_of q s ≡ some pq
    → (b : ArticleRow) × (s.articles q ≡ some b) × (b.path ≡ some pq)
path_of-row q s pq h = elim (Option-cases (s.articles q)) [
  | inl missing ↦ ground arith
  | inr (b, found) ↦ (b, found, ground arith)
]

pub row-path_of :
    (q : ℕ) (s : Library) (b : ArticleRow) → s.articles q ≡ some b → path_of q s ≡ b.path
row-path_of q s b found = ap (λ o. elim o [ none ↦ none | some a ↦ a.path ]) found

pub length-Fits :
    (i : ℕ) (parent : Option ℕ) (p : List ℕ) (s : Library) → Fits i parent p s → 1 ≤ length p
length-Fits i none p s is = rw is (omega arith)
length-Fits i (some q) p s (pq, _, is) = rw is (omega (arith, length-snoc pq i))

absurd : (n : ℕ) → 1 ≤ n → n ≤ 0 → ⊥
absurd n low high = omega arith

-- the path of an article that has one
pub each-Fits :
    (s : Library)
    → IsTree s
    → (i : ℕ) (a : ArticleRow) (p : List ℕ) → s.articles i ≡ some a
    → a.path ≡ some p
    → Fits i a.parent_id p s × (length p ≤ 32)
each-Fits s t i a p found path =
    let (p', path', fits, short) = t.each i a found in
    let is : p' ≡ p = some_same path' path in rw (← is) (fits, short)

chain-row :
    (depth i : ℕ) (s : Library) (a : ArticleRow)
    → s.articles i ≡ some a
    → ancestor_chain (suc depth) i s
      ≡ elim a.parent_id [ none ↦ [] | some q ↦ ancestor_chain depth q s ] ++ i ∷ []
unfolding ancestor_chain
chain-row depth i s a found =
    ap
      (λ o. elim o [
        | none ↦ []
        | some b ↦ elim b.parent_id [ none ↦ [] | some q ↦ ancestor_chain depth q s ] ++ i ∷ []
      ])
      found

chain-Fits :
    (depth i : ℕ) (parent : Option ℕ) (p : List ℕ) (s : Library)
    → Fits i parent p s
    → length p ≤ suc depth
    → ((q : ℕ) (pq : List ℕ)
        → path_of q s ≡ some pq
        → length pq ≤ depth
        → ancestor_chain depth q s ≡ pq)
    → elim parent [ none ↦ [] | some q ↦ ancestor_chain depth q s ] ++ i ∷ [] ≡ p
chain-Fits depth i none p s is le chains = sym is
chain-Fits depth i (some q) p s (pq, path, is) le chains =
    let shorter : length pq ≤ depth = omega (arith, length-snoc pq i, ap (λ x. length x) is) in
    ap (λ x. x ++ i ∷ []) (chains q pq path shorter) ∙ sym is

-- in a sound tree, the walk over the parents is the path
pub chain-path :
    (depth : ℕ) (s : Library)
    → IsTree s
    → (i : ℕ) (p : List ℕ) → path_of i s ≡ some p
    → length p ≤ depth
    → ancestor_chain depth i s ≡ p
chain-path zero s t i p h le =
    let (a, found, path) = path_of-row i s p h in
    let (fits, _) = each-Fits s t i a p found path in
    elim (absurd (length p) (length-Fits i a.parent_id p s fits) le) [ ]
chain-path (suc depth) s t i p h le =
    let (a, found, path) = path_of-row i s p h in
    let (fits, _) = each-Fits s t i a p found path in
    chain-row depth i s a found
    ∙ chain-Fits depth i a.parent_id p s fits le
        (λ q pq at shorter. chain-path depth s t q pq at shorter)

-- In a sound tree the cycle check is exact: an article would become its own ancestor exactly when it is
-- the new parent or stands in the path of the new parent.
pub is_self_or_descendant-path :
    (s : Library)
    → IsTree s
    → (article_id q : ℕ) (pq : List ℕ) → path_of q s ≡ some pq
    → is_self_or_descendant article_id q s ≡ (q == article_id || member article_id pq)
unfolding is_self_or_descendant
is_self_or_descendant-path s t article_id q pq h =
    let (a, found, path) = path_of-row q s pq h in
    let (_, short) = each-Fits s t q a pq found path in
    rw (chain-path chain_depth s t q pq h (omega arith)) refl
