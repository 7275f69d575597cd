-- ===== src/Articles/Rows.antt =====
-- app/models/articles: the columns of articles, revisions and proposals that a write touches, and
-- the exceptions of app/features/articles/exceptions.py. A title is the list of its code points, a
-- body the list of its lines; the other texts are numbered.
use heofberu_backend.Prelude.{ℕ, Bool, true, false, List, ◌∷◌, Option, none, some, update}
use heofberu_backend.Prelude.Result.{Result, ok, err}
use heofberu_backend.Articles.Merge.{Line, Block, Conflict}
use heofberu_backend.Articles.Workflow.{ArticleError}

pub data ArticleVisibility : Type 0 where
  public gm_only : ArticleVisibility

pub data ArticleProposalStatus : Type 0 where
  pending accepted rejected withdrawn : ArticleProposalStatus

abbrev pub is_pending : ArticleProposalStatus → Bool
is_pending pending = true
is_pending _ = false

-- the columns of `REVISED_FIELDS`, which articles, revisions and proposals share
pub record Content : Type 0 where
  pub title : List ℕ
  pub excerpt : Option ℕ
  pub body_markdown : List Line
  pub article_type : ℕ
  pub subtype_id : Option ℕ
  pub visibility : ArticleVisibility

-- a row of `articles`; its path lists the ids from the root to the article
pub record ArticleRow : Type 0 where
  pub author_id : Option ℕ
  pub published_at : Option ℕ
  pub version : ℕ
  pub slug : List ℕ
  pub parent_id : Option ℕ
  pub path : Option (List ℕ)
  pub content : Content

pub record ArticleRevision : Type 0 where
  pub content : Content
  pub editor_id : Option ℕ
  pub reviewer_id : Option ℕ
  pub change_note : Option ℕ
  pub content_hash : ℕ

pub record ArticleProposal : Type 0 where
  pub article_id : ℕ
  pub base_version : ℕ
  pub proposer_id : Option ℕ
  pub content : Content
  pub change_note : Option ℕ
  pub status : ArticleProposalStatus
  pub reviewer_id : Option ℕ
  pub reviewed_at : Option ℕ
  pub review_note : Option ℕ
  pub accepted_version : Option ℕ

-- what a cache purge after the commit drops
pub data Purge : Type 0 where
  article_payload : ℕ → Purge
  article_trees : Purge
  all_articles : Purge

-- the tables; `ids` lists the articles, `next_article` and `next_proposal` are the sequences of the
-- ids, `subtypes` gives the type of a subtype, and `purges` lists what the commit drops
pub record Library : Type 0 where
  pub articles : ℕ → Option ArticleRow
  pub ids : List ℕ
  pub next_article : ℕ
  pub revisions : ℕ → ℕ → Option ArticleRevision
  pub proposals : ℕ → Option ArticleProposal
  pub next_proposal : ℕ
  pub subtypes : ℕ → Option ℕ
  pub now : ℕ
  pub purges : List Purge

-- a field that changed differently on both sides: its base, current and proposed value
pub data FieldConflict : Type 0 where
  title_conflict : List ℕ → List ℕ → List ℕ → FieldConflict
  excerpt_conflict : Option ℕ → Option ℕ → Option ℕ → FieldConflict
  article_type_conflict : ℕ → ℕ → ℕ → FieldConflict
  subtype_conflict : Option ℕ → Option ℕ → Option ℕ → FieldConflict
  visibility_conflict : ArticleVisibility → ArticleVisibility → ArticleVisibility → FieldConflict

-- `integrity_error` and `missing_row` are exceptions of the database layer
pub data WriteError : Type 0 where
  access_error : ArticleError → WriteError
  article_missing : ℕ → WriteError
  revision_missing : ℕ → ℕ → WriteError
  proposal_missing : ℕ → WriteError
  parent_invalid : ℕ → WriteError
  subtype_invalid : ℕ → WriteError
  subtype_type_mismatch : ℕ → ℕ → ℕ → WriteError
  parent_cycle : ℕ → ℕ → WriteError
  tree_too_deep : ℕ → ℕ → WriteError
  slug_exists : List ℕ → WriteError
  proposal_not_needed : ℕ → WriteError
  proposal_closed : ℕ → ArticleProposalStatus → WriteError
  proposal_stale : ℕ → ℕ → ℕ → WriteError
  withdraw_forbidden : ℕ → WriteError
  change_forbidden : ℕ → WriteError
  proposal_conflict : ℕ → List FieldConflict → List Conflict → List Line → WriteError
  integrity_error : WriteError
  missing_row : WriteError

-- an access check of the workflow, inside a write
abbrev pub checked : {A : Type 0} → Result ArticleError A → Result WriteError A
checked (ok a) = ok a
checked (err e) = err (access_error e)

abbrev pub or_missing : {A : Type 0} → Option A → WriteError → Result WriteError A
or_missing none e = err e
or_missing (some a) e = ok a

-- what the library's code computes: difflib's matching blocks, `str.lower`, and the SHA-256 of a
-- payload of the parent's hash, the version and the content
pub record Libs : Type 0 where
  pub matcher : List Line → List Line → List Block
  pub lower : List ℕ → List ℕ
  pub sha256 : Option ℕ → ℕ → Content → ℕ

abbrev pub map_row : (ArticleRow → ArticleRow) → Option ArticleRow → Option ArticleRow
map_row f none = none
map_row f (some a) = some (f a)

-- `UPDATE articles ... WHERE id = article_id`
unfoldable pub on_article : ℕ → (ArticleRow → ArticleRow) → Library → Library
on_article article_id f s = record s {
  articles = update s.articles article_id (map_row f (s.articles article_id));
}

-- `invalidate_articles`, `invalidate_article_trees` and `invalidate_all_articles`
abbrev pub invalidate : Purge → Library → Library
invalidate purge s = record s { purges = purge ∷ s.purges }
