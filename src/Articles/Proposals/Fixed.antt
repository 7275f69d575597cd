-- ===== src/Articles/Proposals/Fixed.antt =====
-- A revision never changes, whatever requests run.
use heofberu_backend.Prelude.{
  ℕ, ◌+◌, ◌<◌, ◌≡◌, refl, sym, ap, ◌∙◌, false, List, Option, none, some, arith, inl, inr, ◌⊎◌, ◌==◌,
  update_miss, Bool-cases,
}
use heofberu_backend.Prelude.Result.{Result, ok, ok-injective}
use heofberu_backend.Articles.Workflow.{ArticleActor}
use heofberu_backend.Articles.Rows.{
  Content, ArticleRow, ArticleRevision, ArticleProposalStatus, accepted, rejected, withdrawn,
  Library, Libs, WriteError, on_article,
}
use heofberu_backend.Articles.Tree.Moved.{set_path-Moved, detach_children-Moved}
use heofberu_backend.Articles.Tree.{child_ids}
use heofberu_backend.Articles.Writer.{Fields, all_fields, set_fields, is_revised, apply_changes}
use heofberu_backend.Articles.Writer.Effect.{
  recorded, apply_changes-ok, write_fields-ok, update_fields-ok, move_article-Moved,
}
use heofberu_backend.Articles.Crud.{delete_row, update_article}
use heofberu_backend.Articles.Crud.Effect.{
  with_draft, update_article-ok, restore_revision-ok, create_article-ok, delete-ok, purged_after,
  purged_after-SameRows,
}
use heofberu_backend.Articles.Proposals.{close_proposal, replace_content, accept_guard}
use heofberu_backend.Articles.Proposals.Effect.{
  close-ok, accept_guard-ok, accept-ok, rebase-ok, rebase_onto-ok, replace-ok, reject-ok,
  withdraw-ok, propose-ok,
}
use heofberu_backend.Articles.Proposals.Steps.{
  Step, creates, edits, restores, deletes, proposes, accepts, rebases, replaces, rejects, withdraws,
  waits, Reach, stays, goes,
}
use heofberu_backend.Articles.Revisions.Fixed.{
  rows-IsFixed, on_article-none, Moved-IsFixed, record_revision-IsFixed, revise-IsFixed,
  purged-IsFixed, IsFixed,
}

module _ (i v : ℕ) (r : ArticleRevision) where
  -- the write path
  apply_changes-IsFixed :
      (libs : Libs) (id : ℕ) (fields : Fields) (state : ArticleRow)
      (editor_id reviewer_id remark : Option ℕ) (guard : Library → Result WriteError Library)
      (read s s' : Library)
      → apply_changes libs id fields state editor_id reviewer_id remark guard read s ≡ ok s'
      → ((guarded : Library) → guard s ≡ ok guarded → IsFixed i v r guarded)
      → IsFixed i v r s'
  unfolding on_article
  apply_changes-IsFixed libs id fields state editor_id reviewer_id remark guard read s s' h fixed =
      let (guarded, written, moved, revised, _, h1, _, h3, h4, h5, is) =
        apply_changes-ok libs id fields state editor_id reviewer_id remark guard read s h in
      let (slug, updated) =
        write_fields-ok libs id fields fields.title state.published_at guarded h3 in
      let (_, is_written) = update_fields-ok id fields slug guarded updated in
      let fixed_written : IsFixed i v r written = rw (← is_written) (
        rows-IsFixed i v r guarded (on_article id (set_fields fields slug) guarded) refl refl
          (on_article-none i v r id (set_fields fields slug) guarded) (fixed guarded h1)) in
      rw (← is) (
        purged-IsFixed i v r fields id revised (
          revise-IsFixed i v r (is_revised fields) libs id editor_id reviewer_id remark moved
            revised h5
            (Moved-IsFixed i v r written moved
              (move_article-Moved fields.parent_id id written moved h4) fixed_written)))

  update_article-IsFixed :
      (libs : Libs) (id : ℕ) (fields : Fields) (remark : Option ℕ) (actor : ArticleActor)
      (read s s' : Library)
      → update_article libs id fields remark actor read s ≡ ok s'
      → IsFixed i v r s
      → IsFixed i v r s'
  update_article-IsFixed libs id fields remark actor read s s' h fixed =
      let (state, _, applied) = update_article-ok libs id fields remark actor read s s' h in
      apply_changes-IsFixed libs id fields state (some actor.id) (some actor.id) remark (λ t. ok t)
        read s s' applied
        (λ guarded is. let here : s ≡ guarded = ok-injective is in rw (← here) fixed)

  close_proposal-IsFixed :
      (j : ℕ) (status : ArticleProposalStatus) (reviewer_id version remark : Option ℕ)
      (s s' : Library)
      → close_proposal j status reviewer_id version remark s ≡ ok s'
      → IsFixed i v r s
      → IsFixed i v r s'
  close_proposal-IsFixed j status reviewer_id version remark s s' h fixed =
      let (q, found, open', is) = close-ok j status reviewer_id version remark s h in
      rw (← is) fixed

  delete_row-IsFixed : (id : ℕ) (s : Library) → IsFixed i v r s → IsFixed i v r (delete_row id s)
  unfolding delete_row
  delete_row-IsFixed id s (below, fixed) = (
    below,
    elim (Bool-cases (i == id)) [
      | inl same ↦ inl (rw same refl, rw same refl)
      | inr other ↦ elim fixed [
        | inl (gone, missing) ↦ inl (rw (other, gone) refl, rw other missing)
        | inr there ↦ inr (rw other there)
      ]
    ],
  )

  draft-kept :
      (content : Content) (parent_id author_id : Option ℕ) (slug : List ℕ) (s : Library)
      → i < s.next_article
      → ((s.articles i ≡ none) × (s.revisions i v ≡ none)) ⊎ (s.revisions i v ≡ some r)
      → (((with_draft content parent_id author_id slug s).articles i ≡ none)
          × (s.revisions i v ≡ none))
        ⊎ (s.revisions i v ≡ some r)
  draft-kept content parent_id author_id slug s below (inl (gone, missing)) =
      inl (update_miss s.articles s.next_article _ i (ground arith) ∙ gone, missing)
  draft-kept content parent_id author_id slug s below (inr there) = inr there

  pub Step-IsFixed :
      (libs : Libs) (s s' : Library) → Step libs s s' → IsFixed i v r s → IsFixed i v r s'
  unfolding replace_content
  Step-IsFixed libs s s' (creates content parent_id author_id read _ _ h) fixed =
      let (slug, created, recorded, _, _, placed, revised, is) =
        create_article-ok libs content parent_id author_id read s s' h in
      let draft : Library = with_draft content parent_id author_id slug s in
      let (below, there_or_gone) = fixed in
      let fixed_draft : IsFixed i v r draft =
        (omega arith, draft-kept content parent_id author_id slug s below there_or_gone) in
      rw (← is) (
        record_revision-IsFixed i v r libs s.next_article author_id author_id none false created
          recorded revised
          (Moved-IsFixed i v r draft created
            (set_path-Moved s.next_article parent_id draft created placed) fixed_draft))
  Step-IsFixed libs s s' (edits article_id fields remark actor read _ _ h) fixed =
      update_article-IsFixed libs article_id fields remark actor read s s' h fixed
  Step-IsFixed libs s s' (restores article_id version remark actor read _ _ h) fixed =
      let (revision, _, updated) =
        restore_revision-ok libs article_id version remark actor read s s' h in
      update_article-IsFixed libs article_id _ (some remark) actor read s s' updated fixed
  Step-IsFixed libs s s' (deletes article_id _ _ h) fixed =
      let (detached, h1, _, is) = delete-ok article_id s s' h in
      let gone : Library = delete_row article_id detached in
      let p = purged_after-SameRows article_id (child_ids article_id s) gone in
      let fixed_gone =
        delete_row-IsFixed article_id detached
          (Moved-IsFixed i v r s detached (detach_children-Moved article_id s detached h1) fixed) in
      rw (← is) (
        rows-IsFixed i v r gone (purged_after article_id (child_ids article_id s) gone)
          p.next_article p.revisions (λ none_there. ap (λ f. f i) (sym p.articles) ∙ none_there)
          fixed_gone)
  Step-IsFixed libs s s' (proposes article_id fields remark actor read _ _ h) fixed =
      let (state, base, _, _, _, _, is) = propose-ok article_id fields remark actor read s s' h in
      rw (← is) fixed
  Step-IsFixed libs s s' (accepts article_id proposal_id actor again read _ _ h) fixed =
      let (q, state, content, onto_version, _, _, applied) =
        accept-ok libs article_id proposal_id actor again read s h in
      apply_changes-IsFixed libs article_id (all_fields content) state q.proposer_id (some actor.id)
        q.change_note (accept_guard article_id proposal_id onto_version actor) read s s' applied
        (λ guarded is.
          let (closes, _) =
            accept_guard-ok article_id proposal_id onto_version actor s guarded is in
          close_proposal-IsFixed proposal_id accepted (some actor.id) (some (onto_version + 1)) none
            s guarded closes fixed)
  Step-IsFixed libs s s' (rebases article_id proposal_id actor _ _ h) fixed =
      let (q, state, locked, written) = rebase-ok libs article_id proposal_id actor s s' h in
      elim (rebase_onto-ok libs proposal_id q state.version s s' written) [
        | inl (_, is) ↦ rw (← is) fixed
        | inr (content, _, is) ↦ rw (← is) fixed
      ]
  Step-IsFixed libs s s' (replaces article_id proposal_id version content remark actor _ _ h)
        fixed =
      let (q, state, locked, _, is) =
        replace-ok article_id proposal_id version content remark actor s s' h in
      rw (← is) fixed
  Step-IsFixed libs s s' (rejects article_id proposal_id actor reason read _ _ h) fixed =
      close_proposal-IsFixed proposal_id rejected (some actor.id) none reason s s'
        (reject-ok article_id proposal_id actor reason read s s' h) fixed
  Step-IsFixed libs s s' (withdraws article_id proposal_id actor read _ _ h) fixed =
      close_proposal-IsFixed proposal_id withdrawn none none none s s'
        (withdraw-ok article_id proposal_id actor read s s' h) fixed
  Step-IsFixed libs s s' (waits n _) fixed = fixed

  pub Reach-IsFixed :
      (libs : Libs) (s s' : Library) → Reach libs s s' → IsFixed i v r s → IsFixed i v r s'
  Reach-IsFixed libs s s' (stays _) fixed = fixed
  Reach-IsFixed libs s s' (goes _ middle _ step rest) fixed =
      Reach-IsFixed libs middle s' rest (Step-IsFixed libs s middle step fixed)
