-- ===== src/Articles/Crud/Effect.antt =====
-- What creating, editing, restoring and deleting an article leave behind when they succeed.
use heofberu_backend.Prelude.{
  ℕ, ◌+◌, ◌≡◌, refl, false, List, [], ◌∷◌, Option, none, some, ltb, if◌then◌else◌, update, length,
  Bool-cases, inl, inr, is_none,
}
use heofberu_backend.Prelude.Result.{ok, bind-ok, then-ok, raise_if-ok, ok-injective}
use heofberu_backend.Articles.Workflow.{ArticleActor, ensure_can_edit}
use heofberu_backend.Articles.Slug.{is_taken}
use heofberu_backend.Articles.Rows.{
  Content, ArticleRow, ArticleRevision, Library, Libs, article_missing, revision_missing,
  slug_exists, integrity_error, invalidate, article_trees, all_articles, checked,
}
use heofberu_backend.Articles.Revisions.{record_revision}
use heofberu_backend.Articles.Tree.{set_path, detach_children, child_ids}
use heofberu_backend.Articles.Writer.{
  Fields, all_fields, write_state, validate_subtype, other_slugs, slug_attempts,
  write_with_unique_slug, apply_changes,
}
use heofberu_backend.Articles.Writer.Effect.{or_missing-ok, write_with_unique_slug-ok}
use heofberu_backend.Articles.Crud.{
  live_subtype, update_article, restore_revision, draft_row, insert_article, parent_exists,
  is_orphan, create_article, max_point_invalidations, invalidate_each, delete_row, delete,
}

pub update_article-ok :
    (libs : Libs) (article_id : ℕ) (fields : Fields) (remark : Option ℕ) (actor : ArticleActor)
    (read s s' : Library)
    → update_article libs article_id fields remark actor read s ≡ ok s'
    → (state : ArticleRow) × (read.articles article_id ≡ some state)
      × (apply_changes libs article_id fields state
            (some actor.id)
            (some actor.id)
            remark
            (λ t. ok t)
            read
            s
          ≡ ok s')
unfolding update_article write_state
update_article-ok libs article_id fields remark actor read s s' h =
    let (state, there, k1) =
      or_missing-ok (read.articles article_id) (article_missing article_id) _ h in
    let (_, k2) = then-ok (checked (ensure_can_edit actor article_id state.author_id)) _ k1 in
    (state, there, k2)

pub restore_revision-ok :
    (libs : Libs) (article_id version remark : ℕ) (actor : ArticleActor) (read s s' : Library)
    → restore_revision libs article_id version remark actor read s ≡ ok s'
    → (revision : ArticleRevision) × (read.revisions article_id version ≡ some revision)
      × (update_article libs article_id
            (all_fields (record (revision.content) {
              subtype_id =
                  live_subtype revision.content.subtype_id revision.content.article_type read;
            }))
            (some remark)
            actor
            read
            s
          ≡ ok s')
unfolding restore_revision
restore_revision-ok libs article_id version remark actor read s s' h =
    let (revision, there, k1) =
      or_missing-ok (read.revisions article_id version) (revision_missing article_id version) _ h in
    (revision, there, k1)

-- the rows with a new draft, before it has a path
abbrev pub with_draft : Content → Option ℕ → Option ℕ → List ℕ → Library → Library
with_draft content parent_id author_id slug s = record s {
  articles = update s.articles s.next_article (some (draft_row content parent_id author_id slug));
  ids = s.next_article ∷ s.ids;
  next_article = s.next_article + 1;
}

pub create_article-ok :
    (libs : Libs) (content : Content) (parent_id author_id : Option ℕ) (read s s' : Library)
    → create_article libs content parent_id author_id read s ≡ ok s'
    → (slug : List ℕ) × (created recorded : Library) × (is_orphan parent_id s ≡ false)
      × (is_taken slug (other_slugs none s.ids s) ≡ false)
      × (set_path s.next_article parent_id (with_draft content parent_id author_id slug s)
          ≡ ok created)
      × (record_revision libs s.next_article author_id author_id none false created ≡ ok recorded)
      × (invalidate article_trees recorded ≡ s')
unfolding create_article insert_article
create_article-ok libs content parent_id author_id read s s' h =
    let (_, k1) = then-ok (validate_subtype content.subtype_id content.article_type read) _ h in
    let (_, k2) = then-ok (parent_exists parent_id read) _ k1 in
    let (created, h3, k3) =
      bind-ok
        (write_with_unique_slug slug_attempts libs content.title
          (λ slug t. insert_article content parent_id author_id slug t) none [] s)
        _ k2 in
    let (recorded, h4, k4) =
      bind-ok (record_revision libs s.next_article author_id author_id none false created) _ k3 in
    let (slug, written) =
      write_with_unique_slug-ok slug_attempts libs content.title
        (λ slug t. insert_article content parent_id author_id slug t) none [] s created h3 in
    let (free, rooted) =
      raise_if-ok (is_taken slug (other_slugs none s.ids s)) (slug_exists slug) _ written in
    let (parent, placed) = raise_if-ok (is_orphan parent_id s) integrity_error _ rooted in
    (slug, created, recorded, parent, free, placed, h4, ok-injective k4)

-- what is dropped after a deletion
abbrev pub purged_after : ℕ → List ℕ → Library → Library
purged_after article_id children gone =
    if ltb max_point_invalidations (length children)
    then invalidate article_trees (invalidate all_articles gone)
    else invalidate article_trees (invalidate_each (article_id ∷ children) gone)

pub delete-ok :
    (article_id : ℕ) (s s' : Library)
    → delete article_id s ≡ ok s'
    → (detached : Library) × (detach_children article_id s ≡ ok detached)
      × (is_none (s.articles article_id) ≡ false)
      × (purged_after article_id (child_ids article_id s) (delete_row article_id detached) ≡ s')
unfolding delete
delete-ok article_id s s' h =
    let (detached, h1, k1) = bind-ok (detach_children article_id s) _ h in
    let (found, k2) =
      raise_if-ok (is_none (s.articles article_id)) (article_missing article_id) _ k1 in
    (detached, h1, found, ok-injective k2)

-- dropping payloads changes only what the commit drops
pub record SameRows (s s' : Library) : Type 0 where
  pub articles : s.articles ≡ s'.articles
  pub ids : s.ids ≡ s'.ids
  pub next_article : s.next_article ≡ s'.next_article
  pub revisions : s.revisions ≡ s'.revisions
  pub proposals : s.proposals ≡ s'.proposals
  pub next_proposal : s.next_proposal ≡ s'.next_proposal

invalidate_each-SameRows : (xs : List ℕ) (s : Library) → SameRows s (invalidate_each xs s)
invalidate_each-SameRows [] s = record {
  articles = refl;
  ids = refl;
  next_article = refl;
  revisions = refl;
  proposals = refl;
  next_proposal = refl;
}
invalidate_each-SameRows (x ∷ xs) s =
    let r = invalidate_each-SameRows xs s in
    record {
      articles = r.articles;
      ids = r.ids;
      next_article = r.next_article;
      revisions = r.revisions;
      proposals = r.proposals;
      next_proposal = r.next_proposal;
    }

pub purged_after-SameRows :
    (article_id : ℕ) (children : List ℕ) (s : Library)
    → SameRows s (purged_after article_id children s)
purged_after-SameRows article_id children s =
    let r = invalidate_each-SameRows children s in
    elim (Bool-cases (ltb max_point_invalidations (length children))) [
      | inl many ↦ rw many (record {
        articles = refl;
        ids = refl;
        next_article = refl;
        revisions = refl;
        proposals = refl;
        next_proposal = refl;
      })
      | inr few ↦ rw few (record {
        articles = r.articles;
        ids = r.ids;
        next_article = r.next_article;
        revisions = r.revisions;
        proposals = r.proposals;
        next_proposal = r.next_proposal;
      })
    ]
