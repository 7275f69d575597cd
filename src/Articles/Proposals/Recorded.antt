-- ===== src/Articles/Proposals/Recorded.antt =====
-- The history of every article over any sequence of requests.
use heofberu_backend.Prelude.{ℕ, ◌+◌, ◌≡◌, Option, none, some, inl, inr}
use heofberu_backend.Prelude.Result.{ok, ok-injective}
use heofberu_backend.Articles.Workflow.{ArticleActor}
use heofberu_backend.Articles.Rows.{
  ArticleProposalStatus, accepted, rejected, withdrawn, ArticleProposal, Library, Libs,
}
use heofberu_backend.Articles.Revisions.Kept.{IsRecorded, Saved, Draft, Moved-IsKept}
use heofberu_backend.Articles.Revisions.Written.{
  apply_changes-IsRecorded, first_revision-IsRecorded, with_draft-Draft, delete_row-IsRecorded,
}
use heofberu_backend.Articles.Tree.Moved.{set_path-Moved, detach_children-Moved}
use heofberu_backend.Articles.Tree.{child_ids}
use heofberu_backend.Articles.Writer.{Fields, all_fields}
use heofberu_backend.Articles.Crud.{delete_row, update_article}
use heofberu_backend.Articles.Crud.Effect.{
  with_draft, update_article-ok, restore_revision-ok, create_article-ok, delete-ok,
  purged_after-SameRows,
}
use heofberu_backend.Articles.Proposals.{close_proposal, replace_content, accept_guard}
use heofberu_backend.Articles.Proposals.Effect.{
  close-ok, accept_guard-ok, accept-ok, rebase-ok, rebase_onto-ok, replace-ok, reject-ok,
  withdraw-ok, propose-ok,
}
use heofberu_backend.Articles.Proposals.Steps.{
  Step, creates, edits, restores, deletes, proposes, accepts, rebases, replaces, rejects, withdraws,
  waits, Reach, stays, goes,
}

-- a write of the proposals alone
proposals-IsRecorded :
    (libs : Libs) (s : Library) (proposals : ℕ → Option ArticleProposal)
    → IsRecorded libs s
    → IsRecorded libs (record s { proposals = proposals })
proposals-IsRecorded libs s proposals kept = record {
  each = kept.each;
  fresh_rows = kept.fresh_rows;
  fresh_revisions = kept.fresh_revisions;
}

close-IsRecorded :
    (libs : Libs) (j : ℕ) (status : ArticleProposalStatus) (reviewer_id version remark : Option ℕ)
    (s s' : Library)
    → close_proposal j status reviewer_id version remark s ≡ ok s'
    → IsRecorded libs s
    → IsRecorded libs s'
close-IsRecorded libs j status reviewer_id version remark s s' h kept =
    let (q, found, open', is) = close-ok j status reviewer_id version remark s h in
    rw (← is) (proposals-IsRecorded libs s _ kept)

update_article-IsRecorded :
    (libs : Libs) (article_id : ℕ) (fields : Fields) (remark : Option ℕ) (actor : ArticleActor)
    (read s s' : Library)
    → update_article libs article_id fields remark actor read s ≡ ok s'
    → IsRecorded libs s
    → IsRecorded libs s'
update_article-IsRecorded libs article_id fields remark actor read s s' h kept =
    let (state, _, applied) = update_article-ok libs article_id fields remark actor read s s' h in
    apply_changes-IsRecorded libs article_id fields state (some actor.id) (some actor.id) remark
      (λ t. ok t) read s s' applied
      (λ guarded is. let here : s ≡ guarded = ok-injective is in rw (← here) kept)

pub Step-IsRecorded :
    (libs : Libs) (s s' : Library) → Step libs s s' → IsRecorded libs s → IsRecorded libs s'
unfolding replace_content
Step-IsRecorded libs s s' (creates content parent_id author_id read _ _ h) kept =
    let (slug, created, recorded, _, _, placed, revised, is) =
      create_article-ok libs content parent_id author_id read s s' h in
    let draft : Library = with_draft content parent_id author_id slug s in
    let m = set_path-Moved s.next_article parent_id draft created placed in
    let done =
      first_revision-IsRecorded libs s.next_article author_id author_id none created recorded
        revised
        (Moved-IsKept (Draft libs s.next_article) draft created m
          (with_draft-Draft libs content parent_id author_id slug s kept)) in
    rw (← is) (record {
      each = done.each;
      fresh_rows = done.fresh_rows;
      fresh_revisions = done.fresh_revisions;
    })
Step-IsRecorded libs s s' (edits article_id fields remark actor read _ _ h) kept =
    update_article-IsRecorded libs article_id fields remark actor read s s' h kept
Step-IsRecorded libs s s' (restores article_id version remark actor read _ _ h) kept =
    let (revision, _, updated) =
      restore_revision-ok libs article_id version remark actor read s s' h in
    update_article-IsRecorded libs article_id _ (some remark) actor read s s' updated kept
Step-IsRecorded libs s s' (deletes article_id _ _ h) kept =
    let (detached, h1, _, is) = delete-ok article_id s s' h in
    let r =
      purged_after-SameRows article_id (child_ids article_id s) (delete_row article_id detached) in
    let done = delete_row-IsRecorded libs article_id detached (
      Moved-IsKept (Saved libs) s detached (detach_children-Moved article_id s detached h1) kept) in
    rw (← is) (record {
      each = rw (← r.articles, ← r.revisions) done.each;
      fresh_rows = rw (← r.articles, ← r.next_article) done.fresh_rows;
      fresh_revisions = rw (← r.revisions, ← r.next_article) done.fresh_revisions;
    })
Step-IsRecorded libs s s' (proposes article_id fields remark actor read _ _ h) kept =
    let (state, base, _, _, _, _, is) = propose-ok article_id fields remark actor read s s' h in
    rw (← is) (record {
      each = kept.each;
      fresh_rows = kept.fresh_rows;
      fresh_revisions = kept.fresh_revisions;
    })
Step-IsRecorded libs s s' (accepts article_id proposal_id actor again read _ _ h) kept =
    let (q, state, content, onto_version, _, _, applied) =
      accept-ok libs article_id proposal_id actor again read s h in
    apply_changes-IsRecorded libs article_id (all_fields content) state q.proposer_id
      (some actor.id) q.change_note (accept_guard article_id proposal_id onto_version actor) read s
      s' applied
      (λ guarded is.
        let (closes, _) = accept_guard-ok article_id proposal_id onto_version actor s guarded is in
        close-IsRecorded libs proposal_id accepted (some actor.id) (some (onto_version + 1)) none s
          guarded closes kept)
Step-IsRecorded libs s s' (rebases article_id proposal_id actor _ _ h) kept =
    let (q, state, locked, written) = rebase-ok libs article_id proposal_id actor s s' h in
    elim (rebase_onto-ok libs proposal_id q state.version s s' written) [
      | inl (_, is) ↦ rw (← is) kept
      | inr (content, _, is) ↦ rw (← is) (proposals-IsRecorded libs s _ kept)
    ]
Step-IsRecorded libs s s' (replaces article_id proposal_id version content remark actor _ _ h)
      kept =
    let (q, state, locked, _, is) =
      replace-ok article_id proposal_id version content remark actor s s' h in
    rw (← is) (proposals-IsRecorded libs s _ kept)
Step-IsRecorded libs s s' (rejects article_id proposal_id actor reason read _ _ h) kept =
    close-IsRecorded libs proposal_id rejected (some actor.id) none reason s s'
      (reject-ok article_id proposal_id actor reason read s s' h) kept
Step-IsRecorded libs s s' (withdraws article_id proposal_id actor read _ _ h) kept =
    close-IsRecorded libs proposal_id withdrawn none none none s s'
      (withdraw-ok article_id proposal_id actor read s s' h) kept
Step-IsRecorded libs s s' (waits n _) kept = record {
  each = kept.each;
  fresh_rows = kept.fresh_rows;
  fresh_revisions = kept.fresh_revisions;
}

-- Over any sequence of requests on articles and proposals, every article keeps its whole history: one
-- revision for each version from the first to the current one and none beyond, the last one with the
-- content of the article, and each with the hash of its content and of the hash before it.
pub Reach-IsRecorded :
    (libs : Libs) (s s' : Library) → Reach libs s s' → IsRecorded libs s → IsRecorded libs s'
Reach-IsRecorded libs s s' (stays _) kept = kept
Reach-IsRecorded libs s s' (goes _ middle _ step rest) kept =
    Reach-IsRecorded libs middle s' rest (Step-IsRecorded libs s middle step kept)
