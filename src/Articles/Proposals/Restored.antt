-- ===== src/Articles/Proposals/Restored.antt =====
-- Restoring a revision brings its content back.
use heofberu_backend.Prelude.{
  opt_eq→eq, opt_eq, none, Option, sym, arith, false, Bool-cases, ◌≢◌, ◌⊎◌, ℕ, ◌+◌, ◌<◌, ◌≡◌, refl,
  ap, ◌∙◌, some, inl, inr, some_same,
}
use heofberu_backend.Prelude.Result.{ok, ok-injective}
use heofberu_backend.Articles.Workflow.{ArticleActor}
use heofberu_backend.Articles.Rows.{Content, ArticleRow, ArticleRevision, Library, Libs}
use heofberu_backend.Articles.Writer.{all_fields}
use heofberu_backend.Articles.Writer.Whole.{rewritten, apply_content-ok}
use heofberu_backend.Articles.Crud.{live_subtype, restore_revision}
use heofberu_backend.Articles.Crud.Effect.{update_article-ok, restore_revision-ok}
use heofberu_backend.Articles.Proposals.Steps.{Reach}
use heofberu_backend.Articles.Proposals.Fixed.{Reach-IsFixed}
use heofberu_backend.Articles.Revisions.Fixed.{IsFixed, none-some}

-- a fixed revision that is found is the one that was there
found-IsFixed :
    (i v : ℕ) (r q : ArticleRevision) (s : Library)
    → IsFixed i v r s
    → s.revisions i v ≡ some q
    → q ≡ r
found-IsFixed i v r q s (_, inl (_, missing)) found = elim (none-some missing found) [ ]
found-IsFixed i v r q s (_, inr there) found = some_same found there

-- a content that is another one again, for the subtypes of a library: with its subtype where that is
-- there and of its type, and without where it is not
abbrev pub IsRestored : Content → Library → Content → Type 0
IsRestored old s new =
    (new ≡ record old { subtype_id = new.subtype_id })
    × (((new.subtype_id ≡ old.subtype_id)
          × ((subtype_id : ℕ)
              → old.subtype_id ≡ some subtype_id
              → s.subtypes subtype_id ≡ some old.article_type))
        ⊎ ((new.subtype_id ≡ none)
            × ((subtype_id : ℕ) × (old.subtype_id ≡ some subtype_id)
                × (s.subtypes subtype_id ≢ some old.article_type))))

opt_eq-miss : (o : Option ℕ) (n : ℕ) → opt_eq o (some n) ≡ false → o ≢ some n
opt_eq-miss none n h is = cc
opt_eq-miss (some m) n h is = ground (arith, h, is)

some_injective : {m n : ℕ} → ◌≡◌ {A = Option ℕ} (some m) (some n) → m ≡ n
some_injective h = cc

live_subtype-IsRestored :
    (old : Content) (s : Library) (o : Option ℕ)
    → old.subtype_id ≡ o
    → IsRestored old s (record old { subtype_id = live_subtype o old.article_type s })
unfolding live_subtype
live_subtype-IsRestored old s none is =
    (refl, inl (sym is, λ i found. absurd (ground (arith, is, found))))
live_subtype-IsRestored old s (some subtype_id) is =
    elim (Bool-cases (opt_eq (s.subtypes subtype_id) (some old.article_type))) [
      | inl live ↦ (
        refl,
        inl (
          rw live (sym is),
          λ i found.
              let at : subtype_id ≡ i = some_injective (sym is ∙ found) in
              ap s.subtypes (sym at)
              ∙ opt_eq→eq (s.subtypes subtype_id) (some old.article_type) live,
        ),
      )
      | inr dead ↦ (
        refl,
        inr (
          rw dead refl,
          (subtype_id, is, opt_eq-miss (s.subtypes subtype_id) old.article_type dead),
        ),
      )
    ]

-- A round trip through the history: whatever requests have run from when a version was the content of
-- an article to when a request reads it, and whatever has run when its block opens, restoring the
-- version makes the content current again, as the next version of the article; the subtype is dropped
-- exactly where it was gone or of another type when the request read it.
pub restore_revision-restores :
    (libs : Libs) (article_id version remark : ℕ) (actor : ArticleActor) (r : ArticleRevision)
    (s read s1 s2 : Library)
    → article_id < s.next_article
    → s.revisions article_id version ≡ some r
    → Reach libs s read
    → restore_revision libs article_id version remark actor read s1 ≡ ok s2
    → (a b : ArticleRow) × (s1.articles article_id ≡ some a)
      × (s2.articles article_id ≡ some b)
      × (b.version ≡ a.version + 1)
      × IsRestored r.content read b.content
restore_revision-restores libs article_id version remark actor r s read s1 s2 below there reaches
      h =
    let fixed = Reach-IsFixed article_id version r libs s read reaches (below, inr there) in
    let (q, found, updated) =
      restore_revision-ok libs article_id version remark actor read s1 s2 h in
    let is : q ≡ r = found-IsFixed article_id version r q read fixed found in
    let c : Content = record (q.content) {
      subtype_id = live_subtype q.content.subtype_id q.content.article_type read;
    } in
    let (state, at, applied) =
      update_article-ok libs article_id (all_fields c) (some remark) actor read s1 s2 updated in
    let (guarded, guards, w) =
      apply_content-ok libs article_id c state (some actor.id) (some actor.id) (some remark)
        (λ t. ok t) read s1 s2 applied in
    let here : s1 ≡ guarded = ok-injective guards in
    let restored : IsRestored q.content read c =
      live_subtype-IsRestored q.content read q.content.subtype_id refl in
    (
      w.before,
      rewritten c w.slug w.before,
      ap (λ t. t.articles article_id) here ∙ w.found,
      w.row,
      refl,
      rw (← is) restored,
    )
