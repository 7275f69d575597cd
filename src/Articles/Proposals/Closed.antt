-- ===== src/Articles/Proposals/Closed.antt =====
-- A proposal that is closed stays as it was closed, whatever runs after and however the requests
-- interleave.
use heofberu_backend.Prelude.{[], ℕ, ◌<◌, ◌≡◌, none, some, ◌⊎◌}
use heofberu_backend.Articles.Rows.{ArticleProposal, Library}
use heofberu_backend.Articles.Rows.{ArticleRevision, public}

-- two different revisions
abbrev revision_with : ℕ → ArticleRevision
revision_with hash = record {
  content = record {
    title = [];
    excerpt = none;
    body_markdown = [];
    article_type = 0;
    subtype_id = none;
    visibility = public;
  };
  editor_id = none;
  reviewer_id = none;
  change_note = none;
  content_hash = hash;
}

-- a proposal as it was when it was closed, unless its article is gone, with its history, and it too
abbrev pub IsHeld : ℕ → ArticleProposal → Library → Type 0
IsHeld i p s =
    (i < s.next_proposal)
    × (p.article_id < s.next_article)
    × ((s.proposals i ≡ some p)
        ⊎ ((s.proposals i ≡ none)
            × (s.articles p.article_id ≡ none)
            × ((v : ℕ) → s.revisions p.article_id v ≡ none)))
