-- ===== src/Articles/Workflow/Moves.antt =====
-- What a review action does to an article, and what a sequence of them keeps.
use heofberu_backend.Prelude.{
  Bool, ◌||◌, ◌==◌, ℕ, ◌≡◌, true, false, not, ◌&&◌, Option, none, some, arith, if◌then◌else◌,
  update,
}
use heofberu_backend.Prelude.Result.{Result, ok, err}
use heofberu_backend.Articles.Workflow.{
  ArticleStatus, draft, in_review, published, archived, ArticleAction, submit, publish, reject,
  archive, restore, allowed_from, target, is_review_action, Article, Store, ArticleActor, can_edit,
  ArticleError, article_edit_forbidden, article_version_mismatch, article_status_transition,
  ensure_can_edit, moved, transition_status, write_state_or_404, check_submit, refusal, answer,
  transition,
}

-- the edges of the review workflow, drawn from the state they leave
unfoldable pub next_status : ArticleStatus → ArticleAction → Option ArticleStatus
next_status draft submit = some in_review
next_status draft archive = some archived
next_status in_review publish = some published
next_status in_review reject = some draft
next_status in_review archive = some archived
next_status published archive = some archived
next_status archived restore = some draft
next_status _ _ = none

-- the time of publication of an article that goes to a status
abbrev pub date_at : ArticleStatus → Option ℕ → ℕ → Option ℕ
date_at published none now = some now
date_at _ date now = date

-- the reviewer of an article after an action
abbrev pub reviewer_after : ArticleAction → ℕ → Option ℕ → Option ℕ
reviewer_after publish actor_id old = some actor_id
reviewer_after reject actor_id old = some actor_id
reviewer_after _ actor_id old = old

-- the article after an action that leads to a status
abbrev pub article_after : ArticleAction → ℕ → ArticleStatus → ℕ → Article → Article
article_after action actor_id to now a = record {
  author_id = a.author_id;
  status = to;
  version = a.version;
  published_at = date_at to a.published_at now;
  reviewed_by_id = reviewer_after action actor_id a.reviewed_by_id;
}

-- the founder, or the author of the article
abbrev pub owns : ArticleActor → Option ℕ → Bool
owns actor none = actor.is_founder
owns actor (some author_id) = actor.is_founder || author_id == actor.id

-- the answer to an action, decided from the article as it stands
unfoldable pub decided :
    ℕ → ArticleAction → ArticleActor → Option ℕ → Store → Article → Result ArticleError Store
unfolding next_status
decided article_id action actor expected_version store a =
    if not (owns actor a.author_id) && elim action [ submit ↦ true | _ ↦ false ]
    then err (article_edit_forbidden article_id)
    else elim (next_status a.status action) [
      | none ↦ err (article_status_transition article_id action a.status)
      | some to ↦
          let after = ok (record store {
            articles =
                update store.articles article_id
                  (some (article_after action actor.id to store.now a));
          }) in
          elim expected_version [
            | none ↦ after
            | some expected ↦
                if a.version == expected
                then after
                else err (article_version_mismatch article_id expected a.version)
          ]
    ]

-- A review action on an article that exists answers by its edge in the workflow: refused to a
-- submitter who is neither its author nor the founder, refused where the status has no edge for
-- it, refused where the article is not at the expected version, and else the article takes the
-- status at the end of the edge: the acting reviewer is recorded by publishing and rejecting, the time
-- of publication by the first publishing, and nothing else of it changes.
pub transition-decided :
    (article_id : ℕ) (action : ArticleAction) (actor : ArticleActor) (expected_version : Option ℕ)
    (store : Store) (a : Article)
    → store.articles article_id ≡ some a
    → transition article_id action actor expected_version store
      ≡ decided article_id action actor expected_version store a
unfolding transition decided check_submit write_state_or_404 ensure_can_edit transition_status
    allowed_from target is_review_action refusal answer next_status moved can_edit
transition-decided article_id action actor expected_version store a h = ground arith
