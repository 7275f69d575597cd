-- ===== src/Articles/Proposals/Accepted.antt =====
-- What accepting a proposal does to its article, and when it succeeds.
use heofberu_backend.Prelude.{
  ℕ, List, ◌+◌, ◌≡◌, refl, sym, ap, ◌∙◌, Bool, true, false, none, some, arith, ◌==◌, eq→==,
  update_hit,
}
use heofberu_backend.Prelude.Result.{Result, ok, bind-at, ok-injective}
use heofberu_backend.Articles.Workflow.{ArticleActor, can_edit, ensure_can_edit}
use heofberu_backend.Articles.Rows.{
  Content, ArticleRow, ArticleRevision, ArticleProposal, accepted, is_pending, Library, Libs,
  WriteError,
}
use heofberu_backend.Articles.Revisions.{snapshot}
use heofberu_backend.Articles.Revisions.Kept.{IsRecorded}
use heofberu_backend.Articles.Writer.{
  all_fields, lock_version, write_state, validate_subtype, apply_changes,
}
use heofberu_backend.Articles.Writer.Effect.{apply_changes-SameProposals}
use heofberu_backend.Articles.Writer.Whole.{rewritten, apply_content-ok, apply_content-succeeds}
use heofberu_backend.Articles.Proposals.{
  with_proposal, closed_as, close_proposal, get_proposal, reviewable, accept_content, accept_guard,
  accept,
}
use heofberu_backend.Articles.Proposals.Contents.{
  IsAcceptedContent, accept_content-IsAcceptedContent,
}
use heofberu_backend.Articles.Proposals.Effect.{close-ok, accept_guard-ok, accept-ok, reviewable-ok}

-- what an accepted proposal leaves: it was pending and is accepted, the article was at the version
-- that was expected and has the content as its next version, with a revision by the proposer that the
-- acceptor reviewed, and every other article is as it was
pub record IsApplied (libs : Libs) (article_id proposal_id : ℕ) (actor : ArticleActor)
    (p : ArticleProposal) (content : Content) (onto_version : ℕ) (s s' : Library) : Type 0 where
  pub stored : ArticleProposal
  pub before : ArticleRow
  pub slug : List ℕ
  pub was_pending : (s.proposals proposal_id ≡ some stored) × (is_pending stored.status ≡ true)
  pub is_accepted :
      s'.proposals proposal_id
      ≡ some (record stored {
        status = accepted;
        reviewer_id = some actor.id;
        reviewed_at = some s.now;
        accepted_version = some (onto_version + 1);
        review_note = none;
      })
  pub was_current : (s.articles article_id ≡ some before) × (before.version ≡ onto_version)
  pub row : s'.articles article_id ≡ some (rewritten content slug before)
  pub revision :
      (r : ArticleRevision) × (s'.revisions article_id (onto_version + 1) ≡ some r)
      × (r.content ≡ content)
      × (r.editor_id ≡ p.proposer_id)
      × (r.reviewer_id ≡ some actor.id)
      × (r.change_note ≡ p.change_note)
  pub others : (i : ℕ) → (i == article_id) ≡ false → s'.articles i ≡ s.articles i

-- an article's row through a close
lock_version-row :
    (article_id version : ℕ) (s : Library) (a : ArticleRow)
    → lock_version article_id s ≡ some version
    → s.articles article_id ≡ some a
    → a.version ≡ version
lock_version-row article_id version s a h found = ground (arith, found)

apply_changes-IsApplied :
    (libs : Libs) (article_id proposal_id : ℕ) (actor : ArticleActor) (p : ArticleProposal)
    (state : ArticleRow) (content : Content) (onto_version : ℕ) (read s s' : Library)
    → apply_changes libs article_id
        (all_fields content)
        state
        p.proposer_id
        (some actor.id)
        p.change_note
        (accept_guard article_id proposal_id onto_version actor)
        read
        s
      ≡ ok s'
    → IsApplied libs article_id proposal_id actor p content onto_version s s'
unfolding snapshot closed_as
apply_changes-IsApplied libs article_id proposal_id actor p state content onto_version read s s' h =
    let guard : Library → Result WriteError Library =
      accept_guard article_id proposal_id onto_version actor in
    let (guarded, guards, w) =
      apply_content-ok libs article_id content state p.proposer_id (some actor.id) p.change_note
        guard read s s' h in
    let (guarded', guards', (same_rows, _, _)) =
      apply_changes-SameProposals libs article_id (all_fields content) state p.proposer_id
        (some actor.id) p.change_note guard read s s' h in
    let is_guarded : guarded' ≡ guarded = ok-injective (sym guards' ∙ guards) in
    let (closes, locked) =
      accept_guard-ok article_id proposal_id onto_version actor s guarded guards in
    let (q, found, open', is) =
      close-ok proposal_id accepted (some actor.id) (some (onto_version + 1)) none s closes in
    let version : w.before.version ≡ onto_version =
      lock_version-row article_id onto_version guarded w.before locked w.found in
    record {
      stored = q;
      before = w.before;
      slug = w.slug;
      was_pending = (found, open');
      is_accepted =
          ap (λ f. f proposal_id) (sym same_rows ∙ ap (λ t. t.proposals) (is_guarded ∙ sym is))
          ∙ update_hit s.proposals proposal_id
              (some (closed_as accepted (some actor.id) (some (onto_version + 1)) none s.now q))
              proposal_id (eq→== proposal_id proposal_id refl);
      was_current = (ap (λ t. t.articles article_id) is ∙ w.found, version);
      row = w.row;
      revision = (
        snapshot libs article_id p.proposer_id (some actor.id) p.change_note
            (rewritten content w.slug w.before) guarded,
        ap (λ n. s'.revisions article_id (n + 1)) (sym version) ∙ w.revision,
        refl,
        refl,
        refl,
        refl,
      );
      others = λ i other. (w.others i other).0 ∙ ap (λ t. t.articles i) (sym is);
    }

-- An acceptance that succeeds read a proposal of the article and an actor who may edit it. Its
-- content is the proposal's, on the proposal's base version; with a rebase, and only where the article
-- had moved on, it is the three-way merge of the proposal with the contents of its base version and of
-- the version that was read, which merge field by field, and without a conflict in the body. The proposal
-- was pending and is accepted as the next version, the article was at the version that the content
-- builds on and has it as its next version, whose revision names the proposer as its editor and the
-- actor as its reviewer, and every other article is as it was.
pub accept-applies :
    (libs : Libs) (article_id proposal_id : ℕ) (actor : ArticleActor) (rebases : Bool)
    (read s s' : Library)
    → accept libs article_id proposal_id actor rebases read s ≡ ok s'
    → (p : ArticleProposal) × (state : ArticleRow) × (content : Content) × (onto_version : ℕ)
      × (read.proposals proposal_id ≡ some p)
      × (p.article_id ≡ article_id)
      × (read.articles article_id ≡ some state)
      × (can_edit actor state.author_id ≡ true)
      × IsAcceptedContent libs p state.version rebases read content onto_version
      × IsApplied libs article_id proposal_id actor p content onto_version s s'
accept-applies libs article_id proposal_id actor rebases read s s' h =
    let (p, state, content, onto_version, reviews, contents, applied) =
      accept-ok libs article_id proposal_id actor rebases read s h in
    let (found, of_it, there, may) =
      reviewable-ok article_id proposal_id actor read p state reviews in
    (
      p,
      state,
      content,
      onto_version,
      found,
      of_it,
      there,
      may,
      accept_content-IsAcceptedContent libs proposal_id p state.version rebases read content
          onto_version contents,
      apply_changes-IsApplied libs article_id proposal_id actor p state content onto_version read s
          s' applied,
    )

-- the checks of a review, for who may edit the article
pub reviewable-succeeds :
    (article_id proposal_id : ℕ) (actor : ArticleActor) (s : Library) (p : ArticleProposal)
    (a : ArticleRow)
    → s.proposals proposal_id ≡ some p
    → p.article_id ≡ article_id
    → s.articles article_id ≡ some a
    → can_edit actor a.author_id ≡ true
    → reviewable article_id proposal_id actor s ≡ ok (p, a)
unfolding reviewable get_proposal write_state ensure_can_edit
reviewable-succeeds article_id proposal_id actor s p a found of_it there may =
    ground (arith, eq→== p.article_id article_id of_it)

-- the guard, where the proposal is pending and the article at its version
accept_guard-succeeds :
    (article_id proposal_id : ℕ) (actor : ArticleActor) (s : Library) (p : ArticleProposal)
    (a : ArticleRow)
    → s.proposals proposal_id ≡ some p
    → is_pending p.status ≡ true
    → s.articles article_id ≡ some a
    → accept_guard article_id proposal_id a.version actor s
      ≡ ok (
          with_proposal proposal_id
            (closed_as accepted (some actor.id) (some (a.version + 1)) none s.now p)
            s)
unfolding accept_guard close_proposal
accept_guard-succeeds article_id proposal_id actor s p a found open' there =
    ground (arith, eq→== a.version a.version refl)

-- a proposal on the current version is not merged
accept_content-current :
    (libs : Libs) (proposal_id : ℕ) (p : ArticleProposal) (version : ℕ) (rebases : Bool)
    (s : Library)
    → p.base_version ≡ version
    → accept_content libs proposal_id p version rebases s ≡ ok (p.content, version)
unfolding accept_content
accept_content-current libs proposal_id p version rebases s current =
    ground (arith, eq→== version p.base_version (sym current))

-- A pending proposal that builds on the article's current version, with a subtype that exists and is
-- of its type, is accepted by the founder and by the author of the article, who may edit it: the
-- acceptance does not fail, where the articles have their histories.
pub accept-succeeds :
    (libs : Libs) (article_id proposal_id : ℕ) (actor : ArticleActor) (rebases : Bool) (s : Library)
    (p : ArticleProposal) (a : ArticleRow)
    → IsRecorded libs s
    → s.proposals proposal_id ≡ some p
    → p.article_id ≡ article_id
    → is_pending p.status ≡ true
    → s.articles article_id ≡ some a
    → can_edit actor a.author_id ≡ true
    → p.base_version ≡ a.version
    → validate_subtype p.content.subtype_id p.content.article_type s ≡ ok tt
    → (s' : Library) × (accept libs article_id proposal_id actor rebases s s ≡ ok s')
unfolding accept
accept-succeeds libs article_id proposal_id actor rebases s p a kept found of_it open' there may
      current valid =
    let guarded : Library =
      with_proposal proposal_id
        (closed_as accepted (some actor.id) (some (a.version + 1)) none s.now p) s in
    let guards = accept_guard-succeeds article_id proposal_id actor s p a found open' there in
    let fresh : s.revisions article_id (a.version + 1) ≡ none =
      (kept.each article_id a there).beyond (a.version + 1) (omega arith) in
    let (s', applied) =
      apply_content-succeeds libs article_id p.content a a p.proposer_id (some actor.id)
        p.change_note (accept_guard article_id proposal_id a.version actor) s s guarded valid guards
        there fresh in
    (
      s',
      bind-at (reviewable article_id proposal_id actor s) _
            (reviewable-succeeds article_id proposal_id actor s p a found of_it there may)
          ∙ bind-at (accept_content libs proposal_id p a.version rebases s) _
              (accept_content-current libs proposal_id p a.version rebases s current)
          ∙ applied,
    )
