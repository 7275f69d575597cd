-- ===== src/Articles/Crud.antt =====
-- app/features/articles/crud/service.py: create, edit, restore and delete an article. The response is a
-- read of the new rows; the images of a deleted article are not modelled.
pub mod Effect
use heofberu_backend.Prelude.{
  ℕ, zero, suc, ◌+◌, ◌-◌, Bool, true, false, not, ◌&&◌, ◌||◌, List, [], ◌∷◌, ◌++◌, Option, none,
  some, ◌==◌, ltb, if◌then◌else◌, is_some, is_none, update, length, opt_eq, keep,
}
use heofberu_backend.Prelude.Result.{⊤, Result, ok, err, ◌>>=◌, ◌>>◌, raise_if}
use heofberu_backend.Articles.Workflow.{ArticleActor, can_edit, ensure_can_edit}
use heofberu_backend.Articles.Merge.{Line}
use heofberu_backend.Articles.Slug.{generate_unique_slug, is_taken}
use heofberu_backend.Articles.Slugify.{slugify}
use heofberu_backend.Articles.Rows.{
  ArticleVisibility, Content, ArticleRow, ArticleRevision, Library, WriteError, article_missing,
  parent_invalid, revision_missing, subtype_invalid, subtype_type_mismatch, parent_cycle,
  slug_exists, missing_row, integrity_error, Libs, on_article, map_row, Purge, article_payload,
  article_trees, all_articles, invalidate, or_missing, checked,
}
use heofberu_backend.Articles.Tree.{
  path_of, is_self_or_descendant, set_path, detach_children, child_ids,
}
use heofberu_backend.Articles.Revisions.{record_revision}
use heofberu_backend.Articles.Writer.{
  Fields, get_or, all_fields, write_state, validate_subtype, other_slugs, slug_attempts,
  write_with_unique_slug, apply_changes,
}

-- `update_article`, from the library that it reads to the one that its block finds; without a guard,
-- the block starts with the write
unfoldable pub update_article :
    Libs → ℕ → Fields → Option ℕ → ArticleActor → Library → Library → Result WriteError Library
unfolding write_state apply_changes ensure_can_edit
update_article libs article_id fields change_note actor read s = do
  state ← write_state article_id read
  checked (ensure_can_edit actor article_id state.author_id)
  apply_changes libs article_id fields state (some actor.id) (some actor.id) change_note
      (λ s'. ok s') read s

-- a subtype that is gone or that moved to another type is dropped
unfoldable pub live_subtype : Option ℕ → ℕ → Library → Option ℕ
live_subtype none article_type s = none
live_subtype (some subtype_id) article_type s =
    if opt_eq (s.subtypes subtype_id) (some article_type) then some subtype_id else none

-- `restore_revision`; the change note is the number of the text `Restored version {version}`
unfoldable pub restore_revision :
    Libs → ℕ → ℕ → ℕ → ArticleActor → Library → Library → Result WriteError Library
unfolding live_subtype update_article all_fields
restore_revision libs article_id version remark actor read s = do
  revision ← or_missing (read.revisions article_id version) (revision_missing article_id version)
  let c = revision.content
  let subtype_id = live_subtype c.subtype_id c.article_type read
  update_article libs article_id (all_fields (record c { subtype_id = subtype_id })) (some remark)
      actor read s

-- the row of a new draft
unfoldable pub draft_row : Content → Option ℕ → Option ℕ → List ℕ → ArticleRow
draft_row content parent_id author_id slug = record {
  author_id = author_id;
  published_at = none;
  version = 1;
  slug = slug;
  parent_id = parent_id;
  path = none;
  content = content;
}

-- a parent that is not there, which the foreign key refuses
abbrev pub is_orphan : Option ℕ → Library → Bool
is_orphan none s = false
is_orphan (some parent_id) s = is_none (s.articles parent_id)

-- the INSERT of a new draft, and its path
unfoldable pub insert_article :
    Content → Option ℕ → Option ℕ → List ℕ → Library → Result WriteError Library
unfolding set_path draft_row other_slugs
insert_article content parent_id author_id slug s = do
  raise_if (is_taken slug (other_slugs none s.ids s)) (slug_exists slug)
  raise_if (is_orphan parent_id s) integrity_error
  set_path s.next_article parent_id (record s {
    articles = update s.articles s.next_article (some (draft_row content parent_id author_id slug));
    ids = s.next_article ∷ s.ids;
    next_article = s.next_article + 1;
  })

abbrev pub parent_exists : Option ℕ → Library → Result WriteError ⊤
parent_exists none s = ok tt
parent_exists (some parent_id) s =
    raise_if (is_none (s.articles parent_id)) (parent_invalid parent_id)

-- `create_article`: the subtype and the parent are looked up before the block opens
unfoldable pub create_article :
    Libs → Content → Option ℕ → Option ℕ → Library → Library → Result WriteError Library
unfolding validate_subtype write_with_unique_slug insert_article record_revision
create_article libs content parent_id author_id read s = do
  validate_subtype content.subtype_id content.article_type read
  parent_exists parent_id read
  created ←
      write_with_unique_slug slug_attempts libs content.title
        (λ slug s'. insert_article content parent_id author_id slug s') none [] s
  recorded ← record_revision libs s.next_article author_id author_id none false created
  ok (invalidate article_trees recorded)

abbrev pub max_point_invalidations : ℕ
max_point_invalidations = 500

-- the payloads of some articles are dropped
abbrev pub invalidate_each : List ℕ → Library → Library
invalidate_each [] s = s
invalidate_each (i ∷ ids) s = invalidate (article_payload i) (invalidate_each ids s)

-- `delete_row`: the row goes, with its revisions and proposals, and its children lose their parent
unfoldable pub delete_row : ℕ → Library → Library
delete_row article_id s = record s {
  articles = λ i.
      if i == article_id
      then none
      else map_row
          (λ a. if opt_eq a.parent_id (some article_id) then record a { parent_id = none } else a)
          (s.articles i);
  ids = keep (λ i. not (i == article_id)) s.ids;
  revisions = λ i version. if i == article_id then none else s.revisions i version;
  proposals = λ i. elim (s.proposals i) [
    | none ↦ none
    | some p ↦ if p.article_id == article_id then none else some p
  ];
}

-- `delete`
unfoldable pub delete : ℕ → Library → Result WriteError Library
unfolding detach_children delete_row
delete article_id s = do
  detached ← detach_children article_id s
  raise_if (is_none (s.articles article_id)) (article_missing article_id)
  let children = child_ids article_id s
  let gone = delete_row article_id detached
  ok (
      if ltb max_point_invalidations (length children)
      then invalidate article_trees (invalidate all_articles gone)
      else invalidate article_trees (invalidate_each (article_id ∷ children) gone))
