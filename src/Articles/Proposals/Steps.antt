-- ===== src/Articles/Proposals/Steps.antt =====
-- Any sequence of the requests that write articles and proposals. A request that reads before its
-- block opens may have read any library.
use heofberu_backend.Prelude.{ℕ, ◌+◌, ◌≡◌, Bool, Option}
use heofberu_backend.Prelude.Result.{ok}
use heofberu_backend.Articles.Workflow.{ArticleActor}
use heofberu_backend.Articles.Rows.{Content, Library, Libs}
use heofberu_backend.Articles.Writer.{Fields}
use heofberu_backend.Articles.Crud.{create_article, update_article, restore_revision, delete}
use heofberu_backend.Articles.Proposals.{propose, accept, rebase, replace, reject, withdraw}

-- a request that succeeds, or time
pub data Step (libs : Libs) : Library → Library → Type 0 where
  creates :
      (content : Content) (parent_id author_id : Option ℕ) (read s s' : Library)
      → create_article libs content parent_id author_id read s ≡ ok s'
      → Step libs s s'
  edits :
      (article_id : ℕ) (fields : Fields) (remark : Option ℕ) (actor : ArticleActor)
      (read s s' : Library)
      → update_article libs article_id fields remark actor read s ≡ ok s'
      → Step libs s s'
  restores :
      (article_id version remark : ℕ) (actor : ArticleActor) (read s s' : Library)
      → restore_revision libs article_id version remark actor read s ≡ ok s'
      → Step libs s s'
  deletes : (article_id : ℕ) (s s' : Library) → delete article_id s ≡ ok s' → Step libs s s'
  proposes :
      (article_id : ℕ) (fields : Fields) (remark : Option ℕ) (actor : ArticleActor)
      (read s s' : Library)
      → propose article_id fields remark actor read s ≡ ok s'
      → Step libs s s'
  accepts :
      (article_id proposal_id : ℕ) (actor : ArticleActor) (rebases : Bool) (read s s' : Library)
      → accept libs article_id proposal_id actor rebases read s ≡ ok s'
      → Step libs s s'
  rebases :
      (article_id proposal_id : ℕ) (actor : ArticleActor) (s s' : Library)
      → rebase libs article_id proposal_id actor s ≡ ok s'
      → Step libs s s'
  replaces :
      (article_id proposal_id version : ℕ) (content : Content) (remark : Option ℕ)
      (actor : ArticleActor) (s s' : Library)
      → replace article_id proposal_id version content remark actor s ≡ ok s'
      → Step libs s s'
  rejects :
      (article_id proposal_id : ℕ) (actor : ArticleActor) (reason : Option ℕ) (read s s' : Library)
      → reject article_id proposal_id actor reason read s ≡ ok s'
      → Step libs s s'
  withdraws :
      (article_id proposal_id : ℕ) (actor : ArticleActor) (read s s' : Library)
      → withdraw article_id proposal_id actor read s ≡ ok s'
      → Step libs s s'
  waits : (n : ℕ) (s : Library) → Step libs s (record s { now = s.now + n })

pub data Reach (libs : Libs) : Library → Library → Type 0 where
  stays : (s : Library) → Reach libs s s
  goes : (s s' s'' : Library) → Step libs s s' → Reach libs s' s'' → Reach libs s s''
