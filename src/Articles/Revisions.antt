-- ===== src/Articles/Revisions.antt =====
-- app/features/articles/crud/repository.py and revisions: the history of an article, one snapshot for
-- each version, with a hash that covers the snapshot before.
pub mod History
pub mod Kept
pub mod Fixed
pub mod Written
use heofberu_backend.Prelude.{
  ℕ, zero, suc, ◌+◌, ◌-◌, Bool, true, false, not, ◌&&◌, ◌||◌, List, [], ◌∷◌, ◌++◌, Option, none,
  some, ◌==◌, ltb, if◌then◌else◌, is_some, is_none, update, length, opt_eq, keep,
}
use heofberu_backend.Prelude.Result.{⊤, Result, ok, err, ◌>>=◌, ◌>>◌, raise_if}
use heofberu_backend.Articles.Workflow.{ArticleActor, can_edit, ensure_can_edit}
use heofberu_backend.Articles.Merge.{Line}
use heofberu_backend.Articles.Slug.{generate_unique_slug, is_taken}
use heofberu_backend.Articles.Slugify.{slugify}
use heofberu_backend.Articles.Rows.{
  ArticleVisibility, Content, ArticleRow, ArticleRevision, Library, WriteError, article_missing,
  parent_invalid, revision_missing, subtype_invalid, subtype_type_mismatch, parent_cycle,
  slug_exists, missing_row, integrity_error, Libs, on_article, map_row, Purge, article_payload,
  article_trees, all_articles, invalidate, or_missing, checked,
}

-- `revision_hash`
abbrev pub revision_hash : Libs → Option ℕ → ℕ → Content → ℕ
revision_hash libs parent_hash version content = libs.sha256 parent_hash version content

-- the hash of a stored revision
abbrev pub hash_of : Option ArticleRevision → Option ℕ
hash_of none = none
hash_of (some r) = some r.content_hash

-- `INSERT INTO article_revisions`, where no revision has the article and the version
unfoldable pub insert_revision : ℕ → ℕ → ArticleRevision → Library → Result WriteError Library
insert_revision article_id version revision s =
    raise_if (is_some (s.revisions article_id version)) integrity_error
    >> ok (record s {
      revisions =
          update s.revisions article_id (update (s.revisions article_id) version (some revision));
    })

-- `version = version + 1`, where the write makes a new version
abbrev pub bumped : Bool → ArticleRow → ArticleRow
bumped bump a = record a { version = if bump then a.version + 1 else a.version }

-- the revision that is a snapshot of a row
unfoldable pub snapshot :
    Libs → ℕ → Option ℕ → Option ℕ → Option ℕ → ArticleRow → Library → ArticleRevision
snapshot libs article_id editor_id reviewer_id change_note a s = record {
  content = a.content;
  editor_id = editor_id;
  reviewer_id = reviewer_id;
  change_note = change_note;
  content_hash =
      revision_hash libs (hash_of (s.revisions article_id (a.version - 1))) a.version a.content;
}

unfoldable pub record_revision :
    Libs → ℕ → Option ℕ → Option ℕ → Option ℕ → Bool → Library → Result WriteError Library
unfolding on_article snapshot insert_revision
record_revision libs article_id editor_id reviewer_id change_note bump s = do
  a ← or_missing (s.articles article_id) missing_row
  let a' = bumped bump a
  insert_revision article_id a'.version
      (snapshot libs article_id editor_id reviewer_id change_note a' s)
      (on_article article_id (bumped bump) s)
