-- ===== src/Articles/Proposals/Effect.antt =====
-- What the operations on proposals leave behind when they succeed.
use heofberu_backend.Prelude.{
  is_none, ℕ, ◌+◌, ◌≡◌, sym, ap, ◌∙◌, Bool, true, false, not, ◌&&◌, Option, none, some, ◌==◌,
  if◌then◌else◌, update, arith, Bool-cases, inl, inr, ◌⊎◌, ==→eq, is_some, opt_eq,
}
use heofberu_backend.Prelude.Result.{ok, bind-ok, then-ok, raise_if-ok, ok-injective}
use heofberu_backend.Articles.Workflow.{ArticleActor, can_edit, ensure_can_edit}
use heofberu_backend.Articles.Rows.{
  integrity_error, Content, ArticleRow, ArticleRevision, ArticleProposal, ArticleProposalStatus,
  accepted, rejected, withdrawn, is_pending, Library, Libs, missing_row, proposal_closed,
  article_missing, proposal_missing, proposal_stale, checked, change_forbidden, withdraw_forbidden,
  proposal_not_needed,
}
use heofberu_backend.Articles.Writer.{
  Fields, patched_content, all_fields, lock_version, write_state, validate_subtype, apply_changes,
}
use heofberu_backend.Articles.Writer.Effect.{or_missing-ok}
use heofberu_backend.Articles.Rebase.{merge_or_conflict}
use heofberu_backend.Articles.Proposals.{
  with_proposal, of_article, get_proposal, closed_as, close_proposal, new_proposal, propose,
  replace_content, reviewable, accept_content, accept_guard, accept, lock_changeable, rebase_onto,
  rebase, replace, reject, withdraw,
}

-- a close finds its proposal pending
pub close-ok :
    (proposal_id : ℕ) (status : ArticleProposalStatus)
    (reviewer_id accepted_version remark : Option ℕ) (s : Library) {s' : Library}
    → close_proposal proposal_id status reviewer_id accepted_version remark s ≡ ok s'
    → (p : ArticleProposal) × (s.proposals proposal_id ≡ some p)
      × (is_pending p.status ≡ true)
      × (with_proposal proposal_id (closed_as status reviewer_id accepted_version remark s.now p) s
          ≡ s')
unfolding close_proposal
close-ok proposal_id status reviewer_id accepted_version remark s h =
    let (p, found, k) = or_missing-ok (s.proposals proposal_id) missing_row _ h in
    let (open', is) =
      raise_if-ok (not (is_pending p.status)) (proposal_closed proposal_id p.status) _ k in
    (p, found, ground arith, ok-injective is)

pub accept_guard-ok :
    (article_id proposal_id onto_version : ℕ) (actor : ArticleActor) (s s' : Library)
    → accept_guard article_id proposal_id onto_version actor s ≡ ok s'
    → (close_proposal proposal_id accepted (some actor.id) (some (onto_version + 1)) none s ≡ ok s')
      × (lock_version article_id s' ≡ some onto_version)
unfolding accept_guard
accept_guard-ok article_id proposal_id onto_version actor s s' h =
    let (closed, h1, k1) =
      bind-ok (close_proposal proposal_id accepted (some actor.id) (some (onto_version + 1)) none s)
        _ h in
    let (current, found, k2) =
      or_missing-ok (lock_version article_id closed) (article_missing article_id) _ k1 in
    let (same, is) =
      raise_if-ok (not (current == onto_version)) (proposal_stale proposal_id onto_version current)
        _ k2 in
    let here : closed ≡ s' = ok-injective is in
    let same' : current ≡ onto_version = ground arith in
    (
      h1 ∙ ap (λ t. ok t) here,
      ap (λ t. lock_version article_id t) (sym here) ∙ found ∙ ap (λ n. some n) same',
    )

pub accept-ok :
    (libs : Libs) (article_id proposal_id : ℕ) (actor : ArticleActor) (rebases : Bool)
    (read s : Library) {s' : Library}
    → accept libs article_id proposal_id actor rebases read s ≡ ok s'
    → (p : ArticleProposal) × (state : ArticleRow) × (content : Content) × (onto_version : ℕ)
      × (reviewable article_id proposal_id actor read ≡ ok (p, state))
      × (accept_content libs proposal_id p state.version rebases read ≡ ok (content, onto_version))
      × (apply_changes libs article_id
            (all_fields content)
            state
            p.proposer_id
            (some actor.id)
            p.change_note
            (accept_guard article_id proposal_id onto_version actor)
            read
            s
          ≡ ok s')
unfolding accept
accept-ok libs article_id proposal_id actor rebases read s h =
    let ((p, state), h1, k1) = bind-ok (reviewable article_id proposal_id actor read) _ h in
    let ((content, onto_version), h2, k2) =
      bind-ok (accept_content libs proposal_id p state.version rebases read) _ k1 in
    (p, state, content, onto_version, h1, h2, k2)

pub of_article-ok :
    (article_id : ℕ) (row : Option ArticleProposal) (p : ArticleProposal)
    → of_article article_id row ≡ some p
    → (row ≡ some p) × (p.article_id ≡ article_id)
of_article-ok article_id none p h = cc
of_article-ok article_id (some q) p h = elim (Bool-cases (q.article_id == article_id)) [
  | inl same ↦
      let is : q ≡ p = ground arith in
      (ap (λ t. some t) is, ap (λ t. t.article_id) (sym is) ∙ ==→eq q.article_id article_id same)
  | inr other ↦ ground arith
]

-- a change under the lock finds its proposal pending
pub lock_changeable-ok :
    (article_id proposal_id : ℕ) (actor : ArticleActor) (s : Library) (p : ArticleProposal)
    (state : ArticleRow)
    → lock_changeable article_id proposal_id actor s ≡ ok (p, state)
    → (s.proposals proposal_id ≡ some p)
      × (p.article_id ≡ article_id)
      × (s.articles article_id ≡ some state)
      × (is_pending p.status ≡ true)
unfolding lock_changeable write_state
lock_changeable-ok article_id proposal_id actor s p state h =
    let (q, found, k1) =
      or_missing-ok (of_article article_id (s.proposals proposal_id)) (proposal_missing proposal_id)
        _ h in
    let (a, there, k2) = or_missing-ok (s.articles article_id) (article_missing article_id) _ k1 in
    let (_, k3) =
      raise_if-ok (not (opt_eq q.proposer_id (some actor.id)) && not (can_edit actor a.author_id))
        (change_forbidden proposal_id) _ k2 in
    let (open', k4) =
      raise_if-ok (not (is_pending q.status)) (proposal_closed proposal_id q.status) _ k3 in
    let is : ◌≡◌ {A = ArticleProposal × ArticleRow} (q, a) (p, state) = ok-injective k4 in
    let is_p : q ≡ p = ap (λ t. t.0) is in
    let (row, of_it) = of_article-ok article_id (s.proposals proposal_id) q found in
    (
      row ∙ ap (λ t. some t) is_p,
      ap (λ t. t.article_id) (sym is_p) ∙ of_it,
      there ∙ ap (λ t. some (t.1)) is,
      ap (λ t. is_pending t.status) (sym is_p) ∙ ground arith,
    )

pub get_proposal-ok :
    (article_id proposal_id : ℕ) (s : Library) (p : ArticleProposal)
    → get_proposal article_id proposal_id s ≡ ok p
    → (s.proposals proposal_id ≡ some p) × (p.article_id ≡ article_id)
unfolding get_proposal
get_proposal-ok article_id proposal_id s p h =
    let row : Option ArticleProposal =
      if is_some (s.articles article_id)
      then of_article article_id (s.proposals proposal_id)
      else none in
    of_article-ok article_id (s.proposals proposal_id) p (ground arith)

-- who reviews finds the proposal and the article, and may edit the article
pub reviewable-ok :
    (article_id proposal_id : ℕ) (actor : ArticleActor) (s : Library) (p : ArticleProposal)
    (state : ArticleRow)
    → reviewable article_id proposal_id actor s ≡ ok (p, state)
    → (s.proposals proposal_id ≡ some p)
      × (p.article_id ≡ article_id)
      × (s.articles article_id ≡ some state)
      × (can_edit actor state.author_id ≡ true)
unfolding reviewable write_state ensure_can_edit
reviewable-ok article_id proposal_id actor s p state h =
    let (q, found, k1) = bind-ok (get_proposal article_id proposal_id s) _ h in
    let (a, there, k2) = or_missing-ok (s.articles article_id) (article_missing article_id) _ k1 in
    let (may, k3) = then-ok (checked (ensure_can_edit actor article_id a.author_id)) _ k2 in
    let is : ◌≡◌ {A = ArticleProposal × ArticleRow} (q, a) (p, state) = ok-injective k3 in
    let is_p : q ≡ p = ap (λ t. t.0) is in
    let is_a : a ≡ state = ap (λ t. t.1) is in
    let (row, of_it) = get_proposal-ok article_id proposal_id s q found in
    (
      row ∙ ap (λ t. some t) is_p,
      ap (λ t. t.article_id) (sym is_p) ∙ of_it,
      there ∙ ap (λ t. some t) is_a,
      ap (λ t. can_edit actor t.author_id) (sym is_a) ∙ ground arith,
    )

pub rebase_onto-ok :
    (libs : Libs) (proposal_id : ℕ) (p : ArticleProposal) (version : ℕ) (s s' : Library)
    → rebase_onto libs proposal_id p version s ≡ ok s'
    → ((p.base_version ≡ version) × (s ≡ s'))
      ⊎ ((content : Content) × (merge_or_conflict libs proposal_id p version s ≡ ok content)
          × (replace_content proposal_id content version p s ≡ s'))
unfolding rebase_onto
rebase_onto-ok libs proposal_id p version s s' h = elim (Bool-cases (p.base_version == version)) [
  | inl same ↦ inl (==→eq p.base_version version same, ground arith)
  | inr other ↦
      let (content, merged, is) =
        bind-ok {B = Library} (merge_or_conflict libs proposal_id p version s)
          (λ c. ok (replace_content proposal_id c version p s)) {b = s'} (ground arith) in
      inr (content, merged, ok-injective is)
]

pub rebase-ok :
    (libs : Libs) (article_id proposal_id : ℕ) (actor : ArticleActor) (s s' : Library)
    → rebase libs article_id proposal_id actor s ≡ ok s'
    → (p : ArticleProposal) × (state : ArticleRow) × (lock_changeable article_id proposal_id actor s
        ≡ ok (p, state))
      × (rebase_onto libs proposal_id p state.version s ≡ ok s')
unfolding rebase
rebase-ok libs article_id proposal_id actor s s' h =
    let ((p, state), h1, k1) = bind-ok (lock_changeable article_id proposal_id actor s) _ h in
    (p, state, h1, k1)

pub replace-ok :
    (article_id proposal_id version : ℕ) (content : Content) (remark : Option ℕ)
    (actor : ArticleActor) (s s' : Library)
    → replace article_id proposal_id version content remark actor s ≡ ok s'
    → (p : ArticleProposal) × (state : ArticleRow) × (lock_changeable article_id proposal_id actor s
        ≡ ok (p, state))
      × (version ≡ state.version)
      × (replace_content proposal_id content version (record p { change_note = remark }) s ≡ s')
unfolding replace
replace-ok article_id proposal_id version content remark actor s s' h =
    let ((p, state), h1, k1) = bind-ok (lock_changeable article_id proposal_id actor s) _ h in
    let (same, k2) =
      raise_if-ok (not (version == state.version))
        (proposal_stale proposal_id version state.version) _ k1 in
    let (_, k3) = then-ok (validate_subtype content.subtype_id content.article_type s) _ k2 in
    (p, state, h1, ground arith, ok-injective k3)

pub reject-ok :
    (article_id proposal_id : ℕ) (actor : ArticleActor) (reason : Option ℕ) (read s s' : Library)
    → reject article_id proposal_id actor reason read s ≡ ok s'
    → close_proposal proposal_id rejected (some actor.id) none reason s ≡ ok s'
unfolding reject
reject-ok article_id proposal_id actor reason read s s' h =
    let (_, _, k) = bind-ok (reviewable article_id proposal_id actor read) _ h in k

pub withdraw-ok :
    (article_id proposal_id : ℕ) (actor : ArticleActor) (read s s' : Library)
    → withdraw article_id proposal_id actor read s ≡ ok s'
    → close_proposal proposal_id withdrawn none none none s ≡ ok s'
unfolding withdraw
withdraw-ok article_id proposal_id actor read s s' h =
    let (p, _, k1) = bind-ok (get_proposal article_id proposal_id read) _ h in
    let (_, k2) =
      raise_if-ok (not (opt_eq p.proposer_id (some actor.id))) (withdraw_forbidden proposal_id) _
        k1 in
    k2

pub propose-ok :
    (article_id : ℕ) (fields : Fields) (remark : Option ℕ) (actor : ArticleActor)
    (read s s' : Library)
    → propose article_id fields remark actor read s ≡ ok s'
    → (state : ArticleRow) × (base : ArticleRevision) × (read.articles article_id ≡ some state)
      × (read.revisions article_id state.version ≡ some base)
      × (opt_eq (some actor.id) state.author_id ≡ false)
      × (is_none (s.articles article_id) ≡ false)
      × (record s {
        proposals = update s.proposals s.next_proposal (
            some (
              new_proposal article_id state.version actor.id remark
                (patched_content fields base.content)));
        next_proposal = s.next_proposal + 1;
      }
          ≡ s')
unfolding propose write_state
propose-ok article_id fields remark actor read s s' h =
    let (state, there, k1) =
      or_missing-ok (read.articles article_id) (article_missing article_id) _ h in
    let (other, k2) =
      raise_if-ok (opt_eq (some actor.id) state.author_id) (proposal_not_needed article_id) _ k1 in
    let (base, based, k3) =
      or_missing-ok (read.revisions article_id state.version) missing_row _ k2 in
    let content : Content = patched_content fields base.content in
    let (_, k4) = then-ok (validate_subtype content.subtype_id content.article_type read) _ k3 in
    let (kept, k5) = raise_if-ok (is_none (s.articles article_id)) integrity_error _ k4 in
    (state, base, there, based, other, kept, ok-injective k5)
