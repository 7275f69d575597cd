-- ===== src/Articles/Proposals/Kept.antt =====
-- What one request does to the row of a proposal that is closed, or that is not there.
use heofberu_backend.Prelude.{
  ◌≤◌, ◌⊎◌, sym, ◌∙◌, refl, ℕ, ◌+◌, ◌<◌, ◌≡◌, ap, true, false, Option, none, some, ◌==◌, arith,
  Bool-cases, inl, inr, ◌⊎◌, ==→eq,
}
use heofberu_backend.Prelude.Result.{ok, ok-injective}
use heofberu_backend.Articles.Workflow.{ArticleActor}
use heofberu_backend.Articles.Rows.{
  ArticleProposal, ArticleProposalStatus, accepted, rejected, withdrawn, is_pending, Library, Libs,
}
use heofberu_backend.Articles.Writer.{Fields, all_fields}
use heofberu_backend.Articles.Writer.Effect.{
  SameProposals, SameProposals-trans, apply_changes-SameProposals, record_revision-SameProposals,
}
use heofberu_backend.Articles.Tree.Moved.{detach_children-Moved, set_path-Moved}
use heofberu_backend.Articles.Tree.{child_ids}
use heofberu_backend.Articles.Crud.{update_article, delete_row}
use heofberu_backend.Articles.Crud.Effect.{
  update_article-ok, restore_revision-ok, create_article-ok, delete-ok, with_draft, purged_after,
  purged_after-SameRows,
}
use heofberu_backend.Articles.Proposals.{
  with_proposal, close_proposal, closed_as, accept_guard, replace_content,
}
use heofberu_backend.Articles.Proposals.Effect.{
  close-ok, accept_guard-ok, accept-ok, lock_changeable-ok, rebase-ok, rebase_onto-ok, replace-ok,
  reject-ok, withdraw-ok, propose-ok,
}
use heofberu_backend.Articles.Proposals.Steps.{
  Step, creates, edits, restores, deletes, proposes, accepts, rebases, replaces, rejects, withdraws,
  waits,
}

-- a row of `article_proposals` with the id, or none, under the next ids
abbrev pub Row : ℕ → Option ArticleProposal → ℕ → Library → Type 0
Row i o bound s = (i < s.next_proposal) × (bound ≤ s.next_article) × (s.proposals i ≡ o)

-- a row that no request may close
abbrev pub NotPending : Option ArticleProposal → Type 0
NotPending o = (q : ArticleProposal) → o ≡ some q → is_pending q.status ≡ false

SameProposals-Row :
    (i : ℕ) (o : Option ArticleProposal) (n : ℕ) (s s' : Library)
    → SameProposals s s'
    → Row i o n s
    → Row i o n s'
SameProposals-Row i o n s s' (rows, next, articles) held = rw (← rows, ← next, ← articles) held

-- a write of a proposal that is pending is a write of another one
pending-Row :
    (i : ℕ) (o : Option ArticleProposal) (n j : ℕ) (q q' : ArticleProposal) (s : Library)
    → NotPending o
    → s.proposals j ≡ some q
    → is_pending q.status ≡ true
    → Row i o n s
    → Row i o n (with_proposal j q' s)
pending-Row i o n j q q' s closed found open' (below, bound, held) = elim (Bool-cases (i == j)) [
  | inl same ↦
      let here : s.proposals i ≡ some q = rw (==→eq i j same) found in
      let over : is_pending q.status ≡ false = closed q (sym held ∙ here) in
      absurd (ground (arith, over, open'))
  | inr other ↦ (below, bound, ground (arith, other, held))
]

close-Row :
    (i : ℕ) (o : Option ArticleProposal) (n j : ℕ) (status : ArticleProposalStatus)
    (reviewer_id version remark : Option ℕ) (s s' : Library)
    → NotPending o
    → close_proposal j status reviewer_id version remark s ≡ ok s'
    → Row i o n s
    → Row i o n s'
close-Row i o n j status reviewer_id version remark s s' closed h held =
    let (q, found, open', is) = close-ok j status reviewer_id version remark s h in
    rw (← is) (
      pending-Row i o n j q (closed_as status reviewer_id version remark s.now q) s closed found
        open' held)

update_article-Row :
    (i : ℕ) (o : Option ArticleProposal) (n : ℕ) (libs : Libs) (article_id : ℕ) (fields : Fields)
    (remark : Option ℕ) (actor : ArticleActor) (read s s' : Library)
    → update_article libs article_id fields remark actor read s ≡ ok s'
    → Row i o n s
    → Row i o n s'
update_article-Row i o n libs article_id fields remark actor read s s' h held =
    let (state, _, applied) = update_article-ok libs article_id fields remark actor read s s' h in
    let (guarded, is, same) =
      apply_changes-SameProposals libs article_id fields state (some actor.id) (some actor.id)
        remark (λ t. ok t) read s s' applied in
    let here : s ≡ guarded = ok-injective is in
    SameProposals-Row i o n guarded s' same (rw (← here) held)

-- the article is gone, with its history
abbrev pub IsGone : ℕ → Library → Type 0
IsGone j s = (s.articles j ≡ none) × ((v : ℕ) → s.revisions j v ≡ none)

-- the row went with its article
abbrev pub Dropped : ℕ → Option ArticleProposal → ℕ → Library → Type 0
Dropped i o n s =
    (q : ArticleProposal) × Row i none n s
    × (o ≡ some q)
    × (s.articles q.article_id ≡ none)
    × ((v : ℕ) → s.revisions q.article_id v ≡ none)

delete_row-Row :
    (i : ℕ) (o : Option ArticleProposal) (n article_id : ℕ) (s : Library)
    → Row i o n s
    → Row i o n (delete_row article_id s) ⊎ Dropped i o n (delete_row article_id s)
unfolding delete_row
delete_row-Row i none n article_id s (below, bound, held) = inl (below, bound, rw held refl)
delete_row-Row i (some q) n article_id s (below, bound, held) =
    elim (Bool-cases (q.article_id == article_id)) [
      | inl hit ↦
          inr (q, (below, bound, ground (arith, held, hit)), refl, rw hit refl, λ v. rw hit refl)
      | inr miss ↦ inl (below, bound, ground (arith, held, miss))
    ]

pub Step-Row :
    (i : ℕ) (o : Option ArticleProposal) (n : ℕ) (libs : Libs) (s s' : Library)
    → NotPending o
    → Step libs s s'
    → Row i o n s
    → Row i o n s' ⊎ Dropped i o n s'
unfolding replace_content
Step-Row i o n libs s s' closed (creates content parent_id author_id read _ _ h) held =
    let (slug, created, recorded, _, _, placed, revised, is) =
      create_article-ok libs content parent_id author_id read s s' h in
    let m =
      set_path-Moved s.next_article parent_id (with_draft content parent_id author_id slug s)
        created placed in
    let draft : Library = with_draft content parent_id author_id slug s in
    let (below, bound, row) = held in
    let drafted : Row i o n draft = (below, omega (arith, bound), row) in
    inl (
      rw (← is) (
        SameProposals-Row i o n draft recorded
          (SameProposals-trans draft created recorded (m.proposals, m.next_proposal, m.next_article)
            (record_revision-SameProposals libs s.next_article author_id author_id none false
              created recorded revised))
          drafted))
Step-Row i o n libs s s' closed (edits article_id fields remark actor read _ _ h) held =
    inl (update_article-Row i o n libs article_id fields remark actor read s s' h held)
Step-Row i o n libs s s' closed (restores article_id version remark actor read _ _ h) held =
    let (revision, _, updated) =
      restore_revision-ok libs article_id version remark actor read s s' h in
    inl (update_article-Row i o n libs article_id _ (some remark) actor read s s' updated held)
Step-Row i o n libs s s' closed (deletes article_id _ _ h) held =
    let (detached, h1, _, is) = delete-ok article_id s s' h in
    let m = detach_children-Moved article_id s detached h1 in
    let r =
      purged_after-SameRows article_id (child_ids article_id s) (delete_row article_id detached) in
    let t : Library =
      purged_after article_id (child_ids article_id s) (delete_row article_id detached) in
    let (below, bound, row) : Row i o n detached =
      SameProposals-Row i o n s detached (m.proposals, m.next_proposal, m.next_article) held in
    let deleted = delete_row-Row i o n article_id detached (below, bound, row) in
    elim deleted [
      | inl kept ↦ inl (
          rw (← is) (
            SameProposals-Row i o n (delete_row article_id detached) t
              (r.proposals, r.next_proposal, r.next_article) kept))
      | inr (q, lost, of_it, gone, no_history) ↦ inr (
        q,
        rw (← is) (
            SameProposals-Row i none n (delete_row article_id detached) t
              (r.proposals, r.next_proposal, r.next_article) lost),
        of_it,
        ap (λ u. u.articles q.article_id) (sym is)
            ∙ ap (λ f. f q.article_id) (sym r.articles)
            ∙ gone,
        λ v.
            ap (λ u. u.revisions q.article_id v) (sym is)
            ∙ ap (λ f. f q.article_id v) (sym r.revisions)
            ∙ no_history v,
      )
    ]
Step-Row i o n libs s s' closed (proposes article_id fields remark actor read _ _ h)
      (below, bound, held) =
    let (state, base, _, _, _, _, is) = propose-ok article_id fields remark actor read s s' h in
    inl (rw (← is) (omega arith, bound, ground arith))
Step-Row i o n libs s s' closed (accepts article_id proposal_id actor again read _ _ h) held =
    let (q, state, content, onto_version, _, _, applied) =
      accept-ok libs article_id proposal_id actor again read s h in
    let (guarded, is, same) =
      apply_changes-SameProposals libs article_id (all_fields content) state q.proposer_id
        (some actor.id) q.change_note (accept_guard article_id proposal_id onto_version actor) read
        s s' applied in
    let (closes, _) = accept_guard-ok article_id proposal_id onto_version actor s guarded is in
    inl (
      SameProposals-Row i o n guarded s' same (
        close-Row i o n proposal_id accepted (some actor.id) (some (onto_version + 1)) none s
          guarded closed closes held))
Step-Row i o n libs s s' closed (rebases article_id proposal_id actor _ _ h) held =
    let (q, state, locked, written) = rebase-ok libs article_id proposal_id actor s s' h in
    let (found, _, _, open') = lock_changeable-ok article_id proposal_id actor s q state locked in
    elim (rebase_onto-ok libs proposal_id q state.version s s' written) [
      | inl (_, is) ↦ inl (rw (← is) held)
      | inr (content, _, is) ↦ inl (
          rw (← is) (
            pending-Row i o n proposal_id q
              (record q { content = content; base_version = state.version }) s closed found open'
              held))
    ]
Step-Row i o n libs s s' closed (replaces article_id proposal_id version content remark actor _ _ h)
      held =
    let (q, state, locked, _, is) =
      replace-ok article_id proposal_id version content remark actor s s' h in
    let (found, _, _, open') = lock_changeable-ok article_id proposal_id actor s q state locked in
    inl (
      rw (← is) (
        pending-Row i o n proposal_id q
          (record q { content = content; base_version = version; change_note = remark }) s closed
          found open' held))
Step-Row i o n libs s s' closed (rejects article_id proposal_id actor reason read _ _ h) held =
    inl (
      close-Row i o n proposal_id rejected (some actor.id) none reason s s' closed
        (reject-ok article_id proposal_id actor reason read s s' h) held)
Step-Row i o n libs s s' closed (withdraws article_id proposal_id actor read _ _ h) held = inl (
    close-Row i o n proposal_id withdrawn none none none s s' closed
      (withdraw-ok article_id proposal_id actor read s s' h) held)
Step-Row i o n libs s s' closed (waits _ _) held = inl held
