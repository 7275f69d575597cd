-- ===== src/Articles/Writer.antt =====
-- app/features/articles/crud/writer.py and the UPDATE of repository.py: the one write path of an article. A
-- handler answers the new rows, and an exception leaves the rows as they were, since its block rolls
-- back. The response is a read of the new rows. Images and tags are not modelled.
pub mod Effect
pub mod Whole
use heofberu_backend.Prelude.{
  ℕ, zero, suc, ◌+◌, ◌-◌, Bool, true, false, not, ◌&&◌, ◌||◌, List, [], ◌∷◌, ◌++◌, Option, none,
  some, ◌==◌, ltb, if◌then◌else◌, is_some, is_none, update, length, opt_eq, keep,
}
use heofberu_backend.Prelude.Result.{⊤, Result, ok, err, ◌>>=◌, ◌>>◌, raise_if}
use heofberu_backend.Articles.Workflow.{ArticleActor, can_edit, ensure_can_edit}
use heofberu_backend.Articles.Merge.{Line}
use heofberu_backend.Articles.Slug.{generate_unique_slug, is_taken}
use heofberu_backend.Articles.Slugify.{slugify}
use heofberu_backend.Articles.Rows.{
  ArticleVisibility, Content, ArticleRow, ArticleRevision, Library, WriteError, article_missing,
  parent_invalid, revision_missing, subtype_invalid, subtype_type_mismatch, parent_cycle,
  slug_exists, missing_row, integrity_error, Libs, on_article, map_row, Purge, article_payload,
  article_trees, all_articles, invalidate, or_missing, checked,
}
use heofberu_backend.Articles.Revisions.{record_revision}
use heofberu_backend.Articles.Tree.{
  path_of, is_self_or_descendant, set_path, detach_children, child_ids,
}

-- the fields of a PATCH: those that are `none` were not sent
pub record Fields : Type 0 where
  pub title : Option (List ℕ)
  pub excerpt : Option (Option ℕ)
  pub body_markdown : Option (List Line)
  pub article_type : Option ℕ
  pub subtype_id : Option (Option ℕ)
  pub visibility : Option ArticleVisibility
  pub parent_id : Option (Option ℕ)

-- `fields.get(name, default)`
abbrev pub get_or : {A : Type 0} → Option A → A → A
get_or none default = default
get_or (some a) _ = a

-- a content with the fields of a PATCH
unfoldable pub patched_content : Fields → Content → Content
patched_content fields c = record {
  title = get_or fields.title c.title;
  excerpt = get_or fields.excerpt c.excerpt;
  body_markdown = get_or fields.body_markdown c.body_markdown;
  article_type = get_or fields.article_type c.article_type;
  subtype_id = get_or fields.subtype_id c.subtype_id;
  visibility = get_or fields.visibility c.visibility;
}

-- `any(field in fields for field in REVISED_FIELDS)`
unfoldable pub is_revised : Fields → Bool
is_revised fields =
    is_some fields.title
    || is_some fields.excerpt
    || is_some fields.body_markdown
    || is_some fields.article_type
    || is_some fields.subtype_id
    || is_some fields.visibility

-- `not TREE_PAYLOAD_FIELDS.isdisjoint(fields)`
unfoldable pub is_in_trees : Fields → Bool
is_in_trees fields =
    is_some fields.title
    || is_some fields.article_type
    || is_some fields.subtype_id
    || is_some fields.visibility
    || is_some fields.parent_id

-- `write_state_or_404`
unfoldable pub write_state : ℕ → Library → Result WriteError ArticleRow
write_state article_id s = or_missing (s.articles article_id) (article_missing article_id)

-- `lock_version`
abbrev pub lock_version : ℕ → Library → Option ℕ
lock_version article_id s = elim (s.articles article_id) [ none ↦ none | some a ↦ some a.version ]

unfoldable pub validate_subtype : Option ℕ → ℕ → Library → Result WriteError ⊤
validate_subtype none article_type s = ok tt
validate_subtype (some subtype_id) article_type s =
    or_missing (s.subtypes subtype_id) (subtype_invalid subtype_id) >>= λ subtype_type.
    raise_if (not (subtype_type == article_type))
      (subtype_type_mismatch subtype_id subtype_type article_type)

unfoldable pub validate_parent : Option ℕ → ℕ → Library → Result WriteError ⊤
unfolding is_self_or_descendant
validate_parent none article_id s = ok tt
validate_parent (some parent_id) article_id s =
    raise_if (is_none (s.articles parent_id)) (parent_invalid parent_id)
    >> raise_if (is_self_or_descendant article_id parent_id s) (parent_cycle article_id parent_id)

-- the slugs of the articles other than one
unfoldable pub other_slugs : Option ℕ → List ℕ → Library → List (List ℕ)
other_slugs exclude_id [] s = []
other_slugs exclude_id (i ∷ ids) s =
    let rest = other_slugs exclude_id ids s in
    if opt_eq (some i) exclude_id
    then rest
    else elim (s.articles i) [ none ↦ rest | some a ↦ a.slug ∷ rest ]

-- the columns that the UPDATE of a row sets
unfoldable pub set_fields : Fields → Option (List ℕ) → ArticleRow → ArticleRow
unfolding patched_content
set_fields fields slug a = record a {
  content = patched_content fields a.content;
  parent_id = get_or fields.parent_id a.parent_id;
  slug = get_or slug a.slug;
}

-- is the slug that is written the slug of another article?
abbrev pub is_clash : Option (List ℕ) → List (List ℕ) → Bool
is_clash none slugs = false
is_clash (some slug) slugs = is_taken slug slugs

-- `update_fields`, with the unique constraint on the slug
unfoldable pub update_fields : ℕ → Fields → Option (List ℕ) → Library → Result WriteError Library
unfolding set_fields other_slugs on_article
update_fields article_id fields slug s =
    raise_if (is_clash slug (other_slugs (some article_id) s.ids s)) (slug_exists (get_or slug []))
    >> ok (on_article article_id (set_fields fields slug) s)

abbrev pub slug_attempts : ℕ
slug_attempts = 5

-- the code points of `article`
abbrev pub fallback_slug : List ℕ
fallback_slug = 97 ∷ 114 ∷ 116 ∷ 105 ∷ 99 ∷ 108 ∷ 101 ∷ []

unfoldable pub slug_of : Libs → List ℕ → Option ℕ → Library → List ℕ
unfolding generate_unique_slug slugify other_slugs
slug_of libs title exclude_id s =
    generate_unique_slug (slugify libs.lower title fallback_slug) (other_slugs exclude_id s.ids s)

abbrev pub is_slug_conflict : WriteError → Bool
is_slug_conflict (slug_exists slug) = true
is_slug_conflict _ = false

-- an attempt to write a slug failed: a taken slug is tried again, another exception is raised
abbrev pub retry : {A : Type 0} → WriteError → Result WriteError A → Result WriteError A
retry e again = if is_slug_conflict e then again else err e

-- the loop of `write_with_unique_slug`, from an attempt that had a slug; each attempt runs in its own
-- savepoint
unfoldable pub write_with_unique_slug :
    {A : Type 0}
    → ℕ
    → Libs
    → List ℕ
    → (List ℕ → Library → Result WriteError A)
    → Option ℕ
    → List ℕ
    → Library
    → Result WriteError A
unfolding slug_of
write_with_unique_slug zero libs title write exclude_id slug s = err (slug_exists slug)
write_with_unique_slug (suc n) libs title write exclude_id _ s =
    let slug = slug_of libs title exclude_id s in
    elim (write slug s) [
      | ok a ↦ ok a
      | err e ↦ retry e (write_with_unique_slug n libs title write exclude_id slug s)
    ]

-- the check of the subtype, where the fields change it or the type
unfoldable pub check_subtype : Fields → ArticleRow → Library → Result WriteError ⊤
unfolding validate_subtype
check_subtype fields state s =
    if is_some fields.subtype_id || is_some fields.article_type
    then validate_subtype (get_or fields.subtype_id state.content.subtype_id)
        (get_or fields.article_type state.content.article_type) s
    else ok tt

-- the check of the parent, where the fields move the article
unfoldable pub check_parent : Option (Option ℕ) → ℕ → Library → Result WriteError ⊤
unfolding validate_parent
check_parent none article_id s = ok tt
check_parent (some parent_id) article_id s = validate_parent parent_id article_id s

-- a new title takes a new slug while the article was never published
unfoldable pub write_fields :
    Libs → ℕ → Fields → Option (List ℕ) → Option ℕ → Library → Result WriteError Library
unfolding write_with_unique_slug update_fields
write_fields libs article_id fields (some title) none s =
    write_with_unique_slug slug_attempts libs title
      (λ slug s'. update_fields article_id fields (some slug) s') (some article_id) [] s
write_fields libs article_id fields _ _ s = update_fields article_id fields none s

-- the new path, where the fields move the article
unfoldable pub move_article : Option (Option ℕ) → ℕ → Library → Result WriteError Library
unfolding set_path
move_article none article_id s = ok s
move_article (some parent_id) article_id s = set_path article_id parent_id s

-- the new revision, where the fields change the content
unfoldable pub revise :
    Bool → Libs → ℕ → Option ℕ → Option ℕ → Option ℕ → Library → Result WriteError Library
unfolding record_revision
revise true libs article_id editor_id reviewer_id change_note s =
    record_revision libs article_id editor_id reviewer_id change_note true s
revise false libs article_id editor_id reviewer_id change_note s = ok s

-- `ArticleWriter.apply_changes`; the state is a row that was read before the call, and the subtype is
-- checked in the library `read`, before the block opens on another one
unfoldable pub apply_changes :
    Libs
    → ℕ
    → Fields
    → ArticleRow
    → Option ℕ
    → Option ℕ
    → Option ℕ
    → (Library → Result WriteError Library)
    → Library
    → Library
    → Result WriteError Library
unfolding check_subtype check_parent write_fields move_article revise is_revised is_in_trees
apply_changes libs article_id fields state editor_id reviewer_id change_note guard read s = do
  check_subtype fields state read
  guarded ← guard s
  check_parent fields.parent_id article_id guarded
  written ← write_fields libs article_id fields fields.title state.published_at guarded
  moved ← move_article fields.parent_id article_id written
  revised ← revise (is_revised fields) libs article_id editor_id reviewer_id change_note moved
  let purged = invalidate (article_payload article_id) revised
  ok (if is_in_trees fields then invalidate article_trees purged else purged)

-- all the content fields, as the fields of a PATCH
unfoldable pub all_fields : Content → Fields
all_fields c = record {
  title = some c.title;
  excerpt = some c.excerpt;
  body_markdown = some c.body_markdown;
  article_type = some c.article_type;
  subtype_id = some c.subtype_id;
  visibility = some c.visibility;
  parent_id = none;
}
