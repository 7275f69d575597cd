-- ===== src/Articles/Proposals/Refused.antt =====
-- What keeps a proposal from being accepted, and that a rebase removes it.
use heofberu_backend.Prelude.{
  ℕ, ◌≡◌, ◌≢◌, refl, sym, ap, ◌∙◌, true, false, Option, none, some, arith, inl, inr, if◌then◌else◌,
  some_same, eq→==, update_hit,
}
use heofberu_backend.Prelude.Result.{Result, ok, err, bind-at, then-ok, ok-injective}
use heofberu_backend.Articles.Workflow.{
  ArticleActor, can_edit, ensure_can_edit, article_edit_forbidden,
}
use heofberu_backend.Articles.Rows.{
  Content, ArticleRow, ArticleProposal, is_pending, Library, Libs, WriteError, access_error,
  revision_missing, proposal_conflict, proposal_stale, proposal_closed,
}
use heofberu_backend.Articles.Revisions.Kept.{IsRecorded}
use heofberu_backend.Articles.Rebase.{
  merged_content, merged_or_conflict, merge_or_conflict, field_conflicts, is_empty,
  revision_or_missing,
}
use heofberu_backend.Articles.Merge.{merge_text, TextMerge}
use heofberu_backend.Articles.Writer.{
  all_fields, check_subtype, write_state, validate_subtype, apply_changes,
}
use heofberu_backend.Articles.Writer.Effect.{or_missing-ok}
use heofberu_backend.Articles.Proposals.{
  with_proposal, close_proposal, get_proposal, reviewable, accept_content, accept_guard, accept,
  rebase, replace_content,
}
use heofberu_backend.Articles.Proposals.Effect.{lock_changeable-ok, rebase-ok, rebase_onto-ok}
use heofberu_backend.Articles.Proposals.Recorded.{Step-IsRecorded}
use heofberu_backend.Articles.Proposals.Steps.{rebases}
use heofberu_backend.Articles.Proposals.Accepted.{reviewable-succeeds, accept-succeeds}

-- who may not edit the article reviews none of its proposals
reviewable-forbidden :
    (article_id proposal_id : ℕ) (actor : ArticleActor) (s : Library) (p : ArticleProposal)
    (a : ArticleRow)
    → s.proposals proposal_id ≡ some p
    → p.article_id ≡ article_id
    → s.articles article_id ≡ some a
    → can_edit actor a.author_id ≡ false
    → reviewable article_id proposal_id actor s
      ≡ err (access_error (article_edit_forbidden article_id))
unfolding reviewable get_proposal write_state ensure_can_edit
reviewable-forbidden article_id proposal_id actor s p a found of_it there may =
    ground (arith, eq→== p.article_id article_id of_it)

-- an exception of the guard is the exception of the write
guard-refuses :
    (libs : Libs) (id : ℕ) (c : Content) (state : ArticleRow)
    (editor_id reviewer_id remark : Option ℕ) (guard : Library → Result WriteError Library)
    (read s : Library) (e : WriteError)
    → validate_subtype c.subtype_id c.article_type read ≡ ok tt
    → guard s ≡ err e
    → apply_changes libs id (all_fields c) state editor_id reviewer_id remark guard read s ≡ err e
unfolding apply_changes check_subtype all_fields
guard-refuses libs id c state editor_id reviewer_id remark guard read s e valid refuses =
    rw (valid, refuses) refl

closed-refuses :
    (article_id proposal_id onto_version : ℕ) (actor : ArticleActor) (s : Library)
    (q : ArticleProposal)
    → s.proposals proposal_id ≡ some q
    → is_pending q.status ≡ false
    → accept_guard article_id proposal_id onto_version actor s
      ≡ err (proposal_closed proposal_id q.status)
unfolding accept_guard close_proposal
closed-refuses article_id proposal_id onto_version actor s q found closed = ground arith

stale-refuses :
    (article_id proposal_id onto_version : ℕ) (actor : ArticleActor) (s : Library)
    (q : ArticleProposal) (b : ArticleRow)
    → s.proposals proposal_id ≡ some q
    → is_pending q.status ≡ true
    → s.articles article_id ≡ some b
    → b.version ≢ onto_version
    → accept_guard article_id proposal_id onto_version actor s
      ≡ err (proposal_stale proposal_id onto_version b.version)
unfolding accept_guard close_proposal
stale-refuses article_id proposal_id onto_version actor s q b found open' there stale = ground arith

module _ (libs : Libs) (article_id proposal_id : ℕ) (actor : ArticleActor) (read s : Library)
    (p q : ArticleProposal) (a b : ArticleRow) (found : read.proposals proposal_id ≡ some p)
    (of_it : p.article_id ≡ article_id) (there : read.articles article_id ≡ some a) where
  accept-by_guard :
      (e : WriteError)
      → can_edit actor a.author_id ≡ true
      → validate_subtype p.content.subtype_id p.content.article_type read ≡ ok tt
      → accept_guard article_id proposal_id p.base_version actor s ≡ err e
      → accept libs article_id proposal_id actor false read s ≡ err e
  unfolding accept accept_content
  accept-by_guard e may valid refuses =
      bind-at (reviewable article_id proposal_id actor read) _
        (reviewable-succeeds article_id proposal_id actor read p a found of_it there may)
      ∙ guard-refuses libs article_id p.content a p.proposer_id (some actor.id) p.change_note
          (accept_guard article_id proposal_id p.base_version actor) read s e valid refuses

  -- An acceptance without a rebase raises, and so saves nothing: 403 for an actor who may not edit
  -- the article; 409 with the actual status where the proposal is closed by the time that the block
  -- runs, even if it was pending when it was read; and 409 with both versions where the article has
  -- moved from the version that the proposal builds on. For the last two the subtype was valid when it was read.
  pub accept-refuses :
      s.proposals proposal_id ≡ some q
      → s.articles article_id ≡ some b
      → (can_edit actor a.author_id ≡ false
          → accept libs article_id proposal_id actor false read s
            ≡ err (access_error (article_edit_forbidden article_id)))
        × (can_edit actor a.author_id ≡ true
            → validate_subtype p.content.subtype_id p.content.article_type read ≡ ok tt
            → is_pending q.status ≡ false
            → accept libs article_id proposal_id actor false read s
              ≡ err (proposal_closed proposal_id q.status))
        × (can_edit actor a.author_id ≡ true
            → validate_subtype p.content.subtype_id p.content.article_type read ≡ ok tt
            → is_pending q.status ≡ true
            → b.version ≢ p.base_version
            → accept libs article_id proposal_id actor false read s
              ≡ err (proposal_stale proposal_id p.base_version b.version))
  unfolding accept
  accept-refuses here now = (
    λ may.
        rw (reviewable-forbidden article_id proposal_id actor read p a found of_it there may) refl,
    λ may valid closed.
        accept-by_guard (proposal_closed proposal_id q.status) may valid
          (closed-refuses article_id proposal_id p.base_version actor s q here closed),
    λ may valid open' stale.
        accept-by_guard (proposal_stale proposal_id p.base_version b.version) may valid
          (stale-refuses article_id proposal_id p.base_version actor s q b here open' now stale),
  )

-- a merge that succeeds has a valid subtype
merged_or_conflict-valid :
    (proposal_id : ℕ) (b c p : Content) (body : TextMerge) (s : Library) (merged : Content)
    → merged_or_conflict proposal_id b c p body s ≡ ok merged
    → validate_subtype merged.subtype_id merged.article_type s ≡ ok tt
unfolding merged_or_conflict
merged_or_conflict-valid proposal_id b c p body s merged h =
    let (content, _, k) =
      or_missing-ok (if is_empty body.conflicts then merged_content b c p body.text else none)
        (proposal_conflict proposal_id (field_conflicts b c p) body.conflicts body.text) _ h in
    let (valid, k') = then-ok (validate_subtype content.subtype_id content.article_type s) _ k in
    let is : content ≡ merged = ok-injective k' in rw (← is) valid

merge_or_conflict-valid :
    (libs : Libs) (proposal_id : ℕ) (p : ArticleProposal) (version : ℕ) (s : Library) (c : Content)
    → merge_or_conflict libs proposal_id p version s ≡ ok c
    → validate_subtype c.subtype_id c.article_type s ≡ ok tt
unfolding merge_or_conflict revision_or_missing
merge_or_conflict-valid libs proposal_id p version s c h =
    let (base, _, k1) =
      or_missing-ok (s.revisions p.article_id p.base_version)
        (revision_missing p.article_id p.base_version) _ h in
    let (current, _, k2) =
      or_missing-ok (s.revisions p.article_id version) (revision_missing p.article_id version) _
        k1 in
    merged_or_conflict-valid proposal_id base.content current.content p.content
      (merge_text libs.matcher base.content.body_markdown current.content.body_markdown
        p.content.body_markdown)
      s c k2

-- a write of a proposal leaves the subtypes
validate_subtype-with_proposal :
    (subtype_id : Option ℕ) (article_type proposal_id : ℕ) (q : ArticleProposal) (s : Library)
    → validate_subtype subtype_id article_type (with_proposal proposal_id q s)
      ≡ validate_subtype subtype_id article_type s
unfolding validate_subtype
validate_subtype-with_proposal none article_type proposal_id q s = refl
validate_subtype-with_proposal (some subtype_id) article_type proposal_id q s = refl

-- A stale proposal that its reviewer rebases can be accepted next: a rebase that succeeds, by an actor
-- who may edit the article, leaves the proposal on the current version, and the acceptance that follows
-- it does not fail.
pub rebase-then-accept :
    (libs : Libs) (article_id proposal_id : ℕ) (actor : ArticleActor) (s s' : Library)
    (p : ArticleProposal) (a : ArticleRow)
    → IsRecorded libs s
    → s.proposals proposal_id ≡ some p
    → s.articles article_id ≡ some a
    → can_edit actor a.author_id ≡ true
    → p.base_version ≢ a.version
    → rebase libs article_id proposal_id actor s ≡ ok s'
    → (s'' : Library) × (accept libs article_id proposal_id actor false s' s' ≡ ok s'')
unfolding replace_content
rebase-then-accept libs article_id proposal_id actor s s' p a kept found there may stale h =
    let kept' = Step-IsRecorded libs s s' (rebases article_id proposal_id actor s s' h) kept in
    let (q, state, locked, written) = rebase-ok libs article_id proposal_id actor s s' h in
    let (found', of_it, there', open') =
      lock_changeable-ok article_id proposal_id actor s q state locked in
    let is_q : p ≡ q = some_same found found' in
    let is_a : a ≡ state = some_same there there' in
    elim (rebase_onto-ok libs proposal_id q state.version s s' written) [
      | inl (current, _) ↦
          elim (stale
            (ap (λ t. t.base_version) is_q ∙ current ∙ ap (λ t. t.version) (sym is_a))) [ ]
      | inr (content, merged, is) ↦
          let t : Library = replace_content proposal_id content state.version q s in
          let merged_row : ArticleProposal = record q {
            content = content;
            base_version = state.version;
          } in
          let kept_t : IsRecorded libs t = rw is kept' in
          rw (← is) (
            accept-succeeds libs article_id proposal_id actor false t merged_row state kept_t
              (update_hit s.proposals proposal_id (some merged_row) proposal_id
                (eq→== proposal_id proposal_id refl))
              of_it open' there' (ap (λ t. can_edit actor t.author_id) (sym is_a) ∙ may) refl
              (validate_subtype-with_proposal content.subtype_id content.article_type proposal_id
                  merged_row s
                ∙ merge_or_conflict-valid libs proposal_id q state.version s content merged))
    ]
