-- ===== src/Articles/Revisions/Fixed.antt =====
-- What leaves a revision as it is.
use heofberu_backend.Prelude.{
  ℕ, ◌<◌, ◌≡◌, refl, sym, ap, ◌∙◌, Bool, true, false, Option, none, some, arith, inl, inr, ◌⊎◌,
  ◌==◌, update, update_hit, update_miss, Bool-cases, ==→eq,
}
use heofberu_backend.Prelude.Result.{ok, ok-injective}
use heofberu_backend.Articles.Rows.{ArticleRow, ArticleRevision, Library, Libs, on_article, map_row}
use heofberu_backend.Articles.Tree.Moved.{Moved, unplaced}
use heofberu_backend.Articles.Revisions.{record_revision, bumped, snapshot}
use heofberu_backend.Articles.Writer.{Fields, is_in_trees, revise}
use heofberu_backend.Articles.Writer.Effect.{record_revision-ok, purged}

-- a revision that is there, unless its article is gone for good
abbrev pub IsFixed : ℕ → ℕ → ArticleRevision → Library → Type 0
IsFixed i v r s =
    (i < s.next_article)
    × (((s.articles i ≡ none) × (s.revisions i v ≡ none)) ⊎ (s.revisions i v ≡ some r))

moved-none :
    (o o' : Option ArticleRow) → o ≡ none → map_row unplaced o ≡ map_row unplaced o' → o' ≡ none
moved-none o none gone same = refl
moved-none o (some b) gone same = ground (arith, gone)

pub none-some : {A : Type 0} {o : Option A} {b : A} → o ≡ none → o ≡ some b → ⊥
none-some p q = cc

-- a row that is put where there was none leaves the others
insert-kept :
    (table : ℕ → ℕ → Option ArticleRevision) (id w : ℕ) (row : Option ArticleRevision) (i v : ℕ)
    (r : ArticleRevision)
    → table i v ≡ some r
    → table id w ≡ none
    → update table id (update (table id) w row) i v ≡ some r
insert-kept table id w row i v r there fresh = elim (Bool-cases (i == id)) [
  | inl same ↦
      let here : table id v ≡ some r = ap (λ k. table k v) (sym (==→eq i id same)) ∙ there in
      ap (λ t. t v) (update_hit table id (update (table id) w row) i same)
      ∙ elim (Bool-cases (v == w)) [
        | inl hit ↦ elim (none-some (ap (table id) (==→eq v w hit) ∙ fresh) here) [ ]
        | inr miss ↦ update_miss (table id) w row v miss ∙ here
      ]
  | inr other ↦ ap (λ t. t v) (update_miss table id (update (table id) w row) i other) ∙ there
]

-- a change that makes no article out of nothing and leaves the revisions
module _ (i v : ℕ) (r : ArticleRevision) where
  pub rows-IsFixed :
      (s s' : Library)
      → s.next_article ≡ s'.next_article
      → s.revisions ≡ s'.revisions
      → (s.articles i ≡ none → s'.articles i ≡ none)
      → IsFixed i v r s
      → IsFixed i v r s'
  rows-IsFixed s s' next revisions rows (below, inl (gone, missing)) =
      (rw (← next) below, inl (rows gone, rw (← revisions) missing))
  rows-IsFixed s s' next revisions rows (below, inr there) =
      (rw (← next) below, inr (rw (← revisions) there))

  pub on_article-none :
      (id : ℕ) (f : ArticleRow → ArticleRow) (s : Library)
      → s.articles i ≡ none
      → (on_article id f s).articles i ≡ none
  unfolding on_article
  on_article-none id f s gone = elim (Bool-cases (i == id)) [
    | inl same ↦ ground (arith, ==→eq i id same)
    | inr other ↦ ground arith
  ]

  pub Moved-IsFixed : (s s' : Library) → Moved s s' → IsFixed i v r s → IsFixed i v r s'
  Moved-IsFixed s s' m fixed =
      rows-IsFixed s s' m.next_article m.revisions
        (λ gone. moved-none (s.articles i) (s'.articles i) gone (m.rows i)) fixed

  pub record_revision-IsFixed :
      (libs : Libs) (id : ℕ) (editor_id reviewer_id remark : Option ℕ) (bump : Bool)
      (s s' : Library)
      → record_revision libs id editor_id reviewer_id remark bump s ≡ ok s'
      → IsFixed i v r s
      → IsFixed i v r s'
  unfolding on_article
  record_revision-IsFixed libs id editor_id reviewer_id remark bump s s' h (below, fixed) =
      let (a, found, fresh, is) =
        record_revision-ok libs id editor_id reviewer_id remark bump s h in
      let w : ℕ = (bumped bump a).version in
      let row : Option ArticleRevision =
        some (snapshot libs id editor_id reviewer_id remark (bumped bump a) s) in
      rw (← is) (
        below,
        elim fixed [
          | inl (gone, missing) ↦ elim (Bool-cases (i == id)) [
            | inl same ↦ elim (none-some (ap s.articles (sym (==→eq i id same)) ∙ gone) found) [ ]
            | inr other ↦ inl (
              on_article-none id (bumped bump) s gone,
              ap (λ t. t v) (update_miss s.revisions id (update (s.revisions id) w row) i other)
                  ∙ missing,
            )
          ]
          | inr there ↦ inr (insert-kept s.revisions id w row i v r there fresh)
        ],
      )

  pub revise-IsFixed :
      (makes : Bool) (libs : Libs) (id : ℕ) (editor_id reviewer_id remark : Option ℕ)
      (s s' : Library)
      → revise makes libs id editor_id reviewer_id remark s ≡ ok s'
      → IsFixed i v r s
      → IsFixed i v r s'
  unfolding revise
  revise-IsFixed true libs id editor_id reviewer_id remark s s' h fixed =
      record_revision-IsFixed libs id editor_id reviewer_id remark true s s' h fixed
  revise-IsFixed false libs id editor_id reviewer_id remark s s' h fixed =
      let is : s ≡ s' = ok-injective h in rw (← is) fixed

  pub purged-IsFixed :
      (fields : Fields) (id : ℕ) (s : Library)
      → IsFixed i v r s
      → IsFixed i v r (purged fields id s)
  purged-IsFixed fields id s fixed = elim (Bool-cases (is_in_trees fields)) [
    | inl shown ↦ rw shown fixed
    | inr hidden ↦ rw hidden fixed
  ]
