-- ===== src/Articles/Proposals.antt =====
-- app/features/articles/proposals: proposed changes to an article, by service.py and repository.py. The
-- handlers that read before their block opens take two libraries, the one that they read and the one
-- that their block finds, since other requests may run between; a row under a lock is read once.
pub mod Steps
pub mod Effect
pub mod Kept
pub mod Closed
pub mod Recorded
pub mod Fixed
pub mod Restored
pub mod Contents
pub mod Accepted
pub mod Refused
use heofberu_backend.Prelude.{
  ℕ, zero, suc, ◌+◌, ◌-◌, Bool, true, false, not, ◌&&◌, ◌||◌, List, [], ◌∷◌, ◌++◌, Option, none,
  some, ◌==◌, ltb, if◌then◌else◌, is_some, is_none, update, length, opt_eq, same_list,
}
use heofberu_backend.Prelude.Result.{⊤, Result, ok, err, ◌>>=◌, ◌>>◌, raise_if}
use heofberu_backend.Articles.Workflow.{ArticleActor, can_edit, ensure_can_edit}
use heofberu_backend.Articles.Merge.{Line, Conflict, merge_value, TextMerge, merge_text}
use heofberu_backend.Articles.Rows.{
  integrity_error, ArticleVisibility, public, gm_only, ArticleProposalStatus, pending, accepted,
  rejected, withdrawn, is_pending, Content, ArticleRow, ArticleRevision, ArticleProposal, Library,
  WriteError, article_missing, revision_missing, proposal_missing, proposal_not_needed,
  proposal_closed, proposal_stale, withdraw_forbidden, change_forbidden, proposal_conflict,
  missing_row, FieldConflict, title_conflict, excerpt_conflict, article_type_conflict,
  subtype_conflict, visibility_conflict, Libs, or_missing, checked,
}
use heofberu_backend.Articles.Rebase.{merge_or_conflict}
use heofberu_backend.Articles.Writer.{
  Fields, patched_content, all_fields, write_state, lock_version, validate_subtype, apply_changes,
}

abbrev pub with_proposal : ℕ → ArticleProposal → Library → Library
with_proposal proposal_id p s = record s { proposals = update s.proposals proposal_id (some p) }

-- `ArticleProposalRepository.get` and `lock`: the row, where it is one of the article
abbrev pub of_article : ℕ → Option ArticleProposal → Option ArticleProposal
of_article article_id none = none
of_article article_id (some p) = if p.article_id == article_id then some p else none

-- `_get_or_404`; the query joins the article
unfoldable pub get_proposal : ℕ → ℕ → Library → Result WriteError ArticleProposal
get_proposal article_id proposal_id s =
    or_missing
      (if is_some (s.articles article_id)
        then of_article article_id (s.proposals proposal_id)
        else none)
      (proposal_missing proposal_id)

-- `replace_content`
unfoldable pub replace_content : ℕ → Content → ℕ → ArticleProposal → Library → Library
replace_content proposal_id content base_version p s =
    with_proposal proposal_id (record p { content = content; base_version = base_version }) s

-- the columns that the UPDATE of `close` sets
unfoldable pub closed_as :
    ArticleProposalStatus → Option ℕ → Option ℕ → Option ℕ → ℕ → ArticleProposal → ArticleProposal
closed_as status reviewer_id accepted_version review_note now p = record p {
  status = status;
  reviewer_id = reviewer_id;
  reviewed_at = some now;
  accepted_version = accepted_version;
  review_note = review_note;
}

-- `ArticleProposalRepository.close` and `_close`: one conditional UPDATE, and the status where no row
-- was pending
unfoldable pub close_proposal :
    ℕ → ArticleProposalStatus → Option ℕ → Option ℕ → Option ℕ → Library → Result WriteError Library
unfolding closed_as
close_proposal proposal_id status reviewer_id accepted_version review_note s = do
  p ← or_missing (s.proposals proposal_id) missing_row
  raise_if (not (is_pending p.status)) (proposal_closed proposal_id p.status)
  ok (
      with_proposal proposal_id (closed_as status reviewer_id accepted_version review_note s.now p)
        s)

-- the row of a new proposal
unfoldable pub new_proposal : ℕ → ℕ → ℕ → Option ℕ → Content → ArticleProposal
new_proposal article_id base_version proposer_id change_note content = record {
  article_id = article_id;
  base_version = base_version;
  proposer_id = some proposer_id;
  content = content;
  change_note = change_note;
  status = pending;
  reviewer_id = none;
  reviewed_at = none;
  review_note = none;
  accepted_version = none;
}

-- `propose`, from the library that it reads to the one that its block finds
unfoldable pub propose :
    ℕ → Fields → Option ℕ → ArticleActor → Library → Library → Result WriteError Library
unfolding write_state patched_content validate_subtype new_proposal
propose article_id fields change_note actor read s = do
  state ← write_state article_id read
  raise_if (opt_eq (some actor.id) state.author_id) (proposal_not_needed article_id)
  base ← or_missing (read.revisions article_id state.version) missing_row
  let content = patched_content fields base.content
  validate_subtype content.subtype_id content.article_type read
  raise_if (is_none (s.articles article_id)) integrity_error
  ok (record s {
    proposals =
        update s.proposals s.next_proposal
          (some (new_proposal article_id state.version actor.id change_note content));
    next_proposal = s.next_proposal + 1;
  })

-- `_reviewable_or_error`
unfoldable pub reviewable :
    ℕ → ℕ → ArticleActor → Library → Result WriteError (ArticleProposal × ArticleRow)
unfolding get_proposal write_state ensure_can_edit
reviewable article_id proposal_id actor s = do
  p ← get_proposal article_id proposal_id s
  state ← write_state article_id s
  checked (ensure_can_edit actor article_id state.author_id)
  ok (p, state)

-- the content that `accept` applies, and the version that it expects
unfoldable pub accept_content :
    Libs → ℕ → ArticleProposal → ℕ → Bool → Library → Result WriteError (Content × ℕ)
unfolding merge_or_conflict
accept_content libs proposal_id p version rebase s =
    if rebase && not (version == p.base_version)
    then (merge_or_conflict libs proposal_id p version s >>= λ content. ok (content, version))
    else ok (p.content, p.base_version)

-- the guard of `accept`, at the start of its block
unfoldable pub accept_guard : ℕ → ℕ → ℕ → ArticleActor → Library → Result WriteError Library
unfolding close_proposal
accept_guard article_id proposal_id onto_version actor s = do
  closed ← close_proposal proposal_id accepted (some actor.id) (some (onto_version + 1)) none s
  current ← or_missing (lock_version article_id closed) (article_missing article_id)
  raise_if (not (current == onto_version)) (proposal_stale proposal_id onto_version current)
  ok closed

-- `accept`, from the library that it reads to the one that its block finds
unfoldable pub accept :
    Libs → ℕ → ℕ → ArticleActor → Bool → Library → Library → Result WriteError Library
unfolding reviewable accept_content all_fields accept_guard apply_changes
accept libs article_id proposal_id actor rebase read s = do
  (p, state) ← reviewable article_id proposal_id actor read
  (content, onto_version) ← accept_content libs proposal_id p state.version rebase read
  apply_changes libs article_id (all_fields content) state p.proposer_id (some actor.id)
      p.change_note (accept_guard article_id proposal_id onto_version actor) read s

-- `_lock_changeable`
unfoldable pub lock_changeable :
    ℕ → ℕ → ArticleActor → Library → Result WriteError (ArticleProposal × ArticleRow)
unfolding write_state can_edit
lock_changeable article_id proposal_id actor s = do
  p ← or_missing (of_article article_id (s.proposals proposal_id)) (proposal_missing proposal_id)
  state ← write_state article_id s
  raise_if (not (opt_eq p.proposer_id (some actor.id)) && not (can_edit actor state.author_id))
      (change_forbidden proposal_id)
  raise_if (not (is_pending p.status)) (proposal_closed proposal_id p.status)
  ok (p, state)

-- the write of `rebase`, which leaves a proposal that is already current
unfoldable pub rebase_onto : Libs → ℕ → ArticleProposal → ℕ → Library → Result WriteError Library
unfolding merge_or_conflict replace_content
rebase_onto libs proposal_id p version s =
    if p.base_version == version
    then ok s
    else (merge_or_conflict libs proposal_id p version s >>= λ content.
        ok (replace_content proposal_id content version p s))

-- `rebase`
unfoldable pub rebase : Libs → ℕ → ℕ → ArticleActor → Library → Result WriteError Library
unfolding lock_changeable rebase_onto
rebase libs article_id proposal_id actor s = do
  (p, state) ← lock_changeable article_id proposal_id actor s
  rebase_onto libs proposal_id p state.version s

-- `replace`; the note comes with the content
unfoldable pub replace :
    ℕ → ℕ → ℕ → Content → Option ℕ → ArticleActor → Library → Result WriteError Library
unfolding lock_changeable validate_subtype replace_content
replace article_id proposal_id base_version content change_note actor s = do
  (p, state) ← lock_changeable article_id proposal_id actor s
  raise_if (not (base_version == state.version))
      (proposal_stale proposal_id base_version state.version)
  validate_subtype content.subtype_id content.article_type s
  ok (replace_content proposal_id content base_version (record p { change_note = change_note }) s)

-- `reject`, from the library that it reads to the one that its block finds
unfoldable pub reject :
    ℕ → ℕ → ArticleActor → Option ℕ → Library → Library → Result WriteError Library
unfolding reviewable close_proposal
reject article_id proposal_id actor reason read s = do
  _ ← reviewable article_id proposal_id actor read
  close_proposal proposal_id rejected (some actor.id) none reason s

-- `withdraw`, from the library that it reads to the one that its block finds
unfoldable pub withdraw : ℕ → ℕ → ArticleActor → Library → Library → Result WriteError Library
unfolding get_proposal close_proposal
withdraw article_id proposal_id actor read s = do
  p ← get_proposal article_id proposal_id read
  raise_if (not (opt_eq p.proposer_id (some actor.id))) (withdraw_forbidden proposal_id)
  close_proposal proposal_id withdrawn none none none s
