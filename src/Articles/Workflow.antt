-- ===== src/Articles/Workflow.antt =====
-- app/features/articles/access.py and workflow: who may edit an article, and the moves of its status.
pub mod Moves
pub mod Publication
use heofberu_backend.Prelude.{
  ℕ, Bool, true, false, not, ◌&&◌, ◌||◌, List, [], ◌∷◌, Option, none, some, any, ◌==◌,
  if◌then◌else◌, is_some, is_none, update,
}
use heofberu_backend.Prelude.Result.{⊤, Result, ok, err, ◌>>=◌, ◌>>◌, raise_if}

-- `ArticleStatus` of app/constants.py
pub data ArticleStatus : Type 0 where
  draft in_review published archived : ArticleStatus

abbrev pub same_status : ArticleStatus → ArticleStatus → Bool
same_status draft draft = true
same_status in_review in_review = true
same_status published published = true
same_status archived archived = true
same_status _ _ = false

-- `ArticleAction`
pub data ArticleAction : Type 0 where
  submit publish reject archive restore : ArticleAction

-- `ARTICLE_TRANSITIONS`: the statuses that an action is allowed from, and the one it leads to
unfoldable pub allowed_from : ArticleAction → List ArticleStatus
allowed_from submit = draft ∷ []
allowed_from publish = in_review ∷ []
allowed_from reject = in_review ∷ []
allowed_from archive = draft ∷ in_review ∷ published ∷ []
allowed_from restore = archived ∷ []

unfoldable pub target : ArticleAction → ArticleStatus
target submit = in_review
target publish = published
target reject = draft
target archive = archived
target restore = draft

-- `REVIEW_ACTIONS`
unfoldable pub is_review_action : ArticleAction → Bool
is_review_action publish = true
is_review_action reject = true
is_review_action _ = false

-- the columns of an article that the workflow reads and writes
pub record Article : Type 0 where
  pub author_id : Option ℕ
  pub status : ArticleStatus
  pub version : ℕ
  pub published_at : Option ℕ
  pub reviewed_by_id : Option ℕ

-- `articles`, and the time that `now()` gives
pub record Store : Type 0 where
  pub articles : ℕ → Option Article
  pub now : ℕ

-- `ArticleActor`
pub record ArticleActor : Type 0 where
  pub id : ℕ
  pub is_founder : Bool

unfoldable pub can_edit : ArticleActor → Option ℕ → Bool
can_edit actor none = actor.is_founder
can_edit actor (some author_id) = actor.is_founder || author_id == actor.id

pub data ArticleError : Type 0 where
  article_not_found : ℕ → ArticleError
  article_edit_forbidden : ℕ → ArticleError
  article_version_mismatch : ℕ → ℕ → ℕ → ArticleError
  article_status_transition : ℕ → ArticleAction → ArticleStatus → ArticleError

unfoldable pub ensure_can_edit : ArticleActor → ℕ → Option ℕ → Result ArticleError ⊤
unfolding can_edit
ensure_can_edit actor article_id author_id =
    raise_if (not (can_edit actor author_id)) (article_edit_forbidden article_id)

-- `func.coalesce(Article.published_at, func.now())`
abbrev pub coalesce : Option ℕ → ℕ → Option ℕ
coalesce none now = some now
coalesce (some t) _ = some t

abbrev pub or_column : Option ℕ → Option ℕ → Option ℕ
or_column none column = column
or_column (some x) _ = some x

abbrev pub is_published : ArticleStatus → Bool
is_published status = same_status status published

abbrev pub status_in : ArticleStatus → List ArticleStatus → Bool
status_in status statuses = any (same_status status) statuses

-- the version condition of the UPDATE, which only some calls make
abbrev pub version_matches : Option ℕ → ℕ → Bool
version_matches none _ = true
version_matches (some expected) version = version == expected

-- the columns that the UPDATE sets
unfoldable pub moved : ArticleStatus → Option ℕ → ℕ → Article → Article
moved to reviewer_id now a = record a {
  status = to;
  reviewed_by_id = or_column reviewer_id a.reviewed_by_id;
  published_at = if is_published to then coalesce a.published_at now else a.published_at;
}

-- `ArticleWorkflowRepository.transition_status`: one conditional UPDATE; did a row move?
unfoldable pub transition_status :
    ℕ → List ArticleStatus → ArticleStatus → Option ℕ → Option ℕ → Store → Bool × Store
unfolding moved
transition_status article_id from to reviewer_id expected_version store =
    elim (store.articles article_id) [
      | none ↦ (false, store)
      | some a ↦
          if status_in a.status from && version_matches expected_version a.version
          then (
            true,
            record store {
              articles = update store.articles article_id (some (moved to reviewer_id store.now a));
            },
          )
          else (false, store)
    ]

-- `_write_state_or_404`
unfoldable pub write_state_or_404 : ℕ → Store → Result ArticleError Article
write_state_or_404 article_id store = elim (store.articles article_id) [
  | none ↦ err (article_not_found article_id)
  | some a ↦ ok a
]

-- `submit` is for the author and the founder
unfoldable pub check_submit : ArticleAction → ArticleActor → ℕ → Store → Result ArticleError ⊤
unfolding write_state_or_404 ensure_can_edit
check_submit submit actor article_id store = write_state_or_404 article_id store >>= λ state.
    ensure_can_edit actor article_id state.author_id
check_submit _ actor article_id store = ok tt

-- why no row moved
unfoldable pub refusal : ℕ → ArticleAction → Option ℕ → Article → ArticleError
unfolding allowed_from
refusal article_id action none state = article_status_transition article_id action state.status
refusal article_id action (some expected) state =
    if status_in state.status (allowed_from action)
    then article_version_mismatch article_id expected state.version
    else article_status_transition article_id action state.status

-- what `transition` answers once the UPDATE has run: did a row move?
unfoldable pub answer : ℕ → ArticleAction → Option ℕ → Bool × Store → Result ArticleError Store
unfolding write_state_or_404 refusal
answer article_id action expected_version (true, store) = ok store
answer article_id action expected_version (false, store) =
    write_state_or_404 article_id store >>= λ state.
    err (refusal article_id action expected_version state)

-- `ArticleWorkflowService.transition`
unfoldable pub transition :
    ℕ → ArticleAction → ArticleActor → Option ℕ → Store → Result ArticleError Store
unfolding allowed_from target is_review_action check_submit transition_status answer
transition article_id action actor expected_version store = do
  check_submit action actor article_id store
  let reviewer_id = if is_review_action action then some actor.id else none
  answer article_id action expected_version (
      transition_status article_id (allowed_from action) (target action) reviewer_id
        expected_version store)
