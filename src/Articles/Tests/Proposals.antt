-- ===== src/Articles/Tests/Proposals.antt =====
-- The theorems on proposals, slugs and the tree at a concrete library.
use heofberu_backend.Prelude.{
  ℕ, ◌≡◌, ◌≢◌, refl, true, false, [], ◌∷◌, none, some, arith, ◌==◌, if◌then◌else◌, update,
  Bool-cases, inl, inr,
}
use heofberu_backend.Prelude.Result.{Result, ok, err}
use heofberu_backend.Articles.Workflow.{
  ArticleActor, can_edit, ensure_can_edit, article_edit_forbidden,
}
use heofberu_backend.Articles.Rows.{
  public, Content, ArticleRow, ArticleRevision, ArticleProposal, pending, accepted, Library, Libs,
  WriteError, is_pending, access_error, proposal_closed, proposal_stale, on_article,
}
use heofberu_backend.Articles.Revisions.History.{
  History, IsHistory, extend-IsHistory, start_at-IsHistory,
}
use heofberu_backend.Articles.Revisions.Kept.{IsRecorded}
use heofberu_backend.Articles.Revisions.{record_revision, insert_revision, snapshot}
use heofberu_backend.Articles.Slug.{generate_unique_slug, next_free}
use heofberu_backend.Articles.Slugify.{
  slugify, transliterated, get, cyrillic_to_latin, sub_non_slug, strip_left, strip_right,
}
use heofberu_backend.Articles.Merge.{
  merge_value, merge_text, merge_from, merge_hunk, sync_regions, common_regions,
}
use heofberu_backend.Articles.Writer.{
  patched_content, all_fields, set_fields, is_revised, is_in_trees, write_state, validate_subtype,
  check_subtype, check_parent, other_slugs, update_fields, slug_of, write_with_unique_slug,
  write_fields, move_article, revise, apply_changes,
}
use heofberu_backend.Articles.Rebase.{
  merged_content, field_conflicts, merged_or_conflict, revision_or_missing, merge_or_conflict,
}
use heofberu_backend.Articles.Proposals.{
  get_proposal, closed_as, close_proposal, replace_content, reviewable, accept_content,
  accept_guard, accept, lock_changeable, rebase_onto, rebase,
}
use heofberu_backend.Articles.Proposals.Steps.{accepts, stays, goes}
use heofberu_backend.Articles.Proposals.Recorded.{Reach-IsRecorded}
use heofberu_backend.Articles.Proposals.Refused.{accept-refuses, rebase-then-accept}
use heofberu_backend.Articles.Proposals.Contents.{IsAcceptedContent}
use heofberu_backend.Articles.Proposals.Accepted.{IsApplied, accept-applies, accept-succeeds}

abbrev pub no_libs : Libs
no_libs = record {
  matcher = λ a b. [];
  lower = λ text. text;
  sha256 = λ parent version content. version;
}

abbrev pub founder : ArticleActor
founder = record { id = 1; is_founder = true }

-- titles `a` and `b`
abbrev pub first_content : Content
first_content = record {
  title = 97 ∷ [];
  excerpt = none;
  body_markdown = [];
  article_type = 3;
  subtype_id = none;
  visibility = public;
}

abbrev pub second_content : Content
second_content = record first_content { title = 98 ∷ [] }

abbrev pub revision_of : Content → ℕ → ArticleRevision
revision_of c version = record {
  content = c;
  editor_id = some 2;
  reviewer_id = some 2;
  change_note = none;
  content_hash = version;
}

abbrev history : History
history =
    update (update (λ v. none) 1 (some (revision_of first_content 1))) 2
      (some (revision_of second_content 2))

abbrev article : ArticleRow
article = record {
  author_id = some 2;
  published_at = none;
  version = 2;
  slug = 98 ∷ [];
  parent_id = none;
  path = some (5 ∷ []);
  content = second_content;
}

-- proposal 7 builds on the first version, proposal 8 on the second
abbrev proposal_on : ℕ → Content → ArticleProposal
proposal_on version c = record {
  article_id = 5;
  base_version = version;
  proposer_id = some 3;
  content = c;
  change_note = none;
  status = pending;
  reviewer_id = none;
  reviewed_at = none;
  review_note = none;
  accepted_version = none;
}

abbrev stale_one : ArticleProposal
stale_one = proposal_on 1 (record first_content { excerpt = some 9 })

abbrev pub current_one : ArticleProposal
current_one = proposal_on 2 (record second_content { excerpt = some 9 })

abbrev pub shelf : Library
shelf = record {
  articles = λ i. if i == 5 then some article else none;
  ids = 5 ∷ [];
  next_article = 6;
  revisions = λ i. if i == 5 then history else λ v. none;
  proposals = λ i. if i == 7 then some stale_one else if i == 8 then some current_one else none;
  next_proposal = 9;
  subtypes = λ i. none;
  now = 50;
  purges = [];
}

history-IsHistory : IsHistory no_libs history 2 second_content
history-IsHistory =
    extend-IsHistory no_libs (update (λ v. none) 1 (some (revision_of first_content 1))) 1
      first_content second_content (revision_of second_content 2)
      (start_at-IsHistory no_libs (λ v. none) 1 first_content (revision_of first_content 1) refl
        (λ v. refl) refl refl)
      refl refl

shelf-IsRecorded : IsRecorded no_libs shelf
shelf-IsRecorded = record {
  each = λ i b found. elim (Bool-cases (i == 5)) [
    | inl same ↦ let is : article ≡ b = ground arith in rw (same, ← is) history-IsHistory
    | inr other ↦ ground arith
  ];
  fresh_rows = λ i past. ground arith;
  fresh_revisions = λ i past v. ground arith;
}

abbrev pub outcome : Result WriteError Library → Library
outcome (ok s) = s
outcome (err e) = shelf

one_not_two : ◌≢◌ {A = ℕ} 1 2
one_not_two h = omega arith

founder_may : can_edit founder article.author_id ≡ true
unfolding can_edit
founder_may = refl

no_subtype : (article_type : ℕ) (s : Library) → validate_subtype none article_type s ≡ ok tt
unfolding validate_subtype
no_subtype article_type s = refl

accept-succeeds_example : (s' : Library) × (accept no_libs 5 8 founder false shelf shelf ≡ ok s')
accept-succeeds_example =
    accept-succeeds no_libs 5 8 founder false shelf current_one article shelf-IsRecorded refl refl
      refl refl founder_may refl (no_subtype 3 shelf)

-- the library after the acceptance of proposal 8
unfoldable pub shelved : Library
unfolding accept reviewable get_proposal write_state ensure_can_edit can_edit accept_content
    accept_guard close_proposal apply_changes check_subtype validate_subtype check_parent
    write_fields write_with_unique_slug update_fields slug_of other_slugs generate_unique_slug
    next_free slugify transliterated get cyrillic_to_latin sub_non_slug strip_left strip_right
    all_fields set_fields patched_content on_article move_article revise is_revised is_in_trees
    record_revision insert_revision snapshot closed_as
shelved = outcome (accept no_libs 5 8 founder false shelf shelf)

pub accepts_8 : accept no_libs 5 8 founder false shelf shelf ≡ ok shelved
unfolding shelved accept reviewable get_proposal write_state ensure_can_edit can_edit accept_content
    accept_guard close_proposal apply_changes check_subtype validate_subtype check_parent
    write_fields write_with_unique_slug update_fields slug_of other_slugs generate_unique_slug
    next_free slugify transliterated get cyrillic_to_latin sub_non_slug strip_left strip_right
    all_fields set_fields patched_content on_article move_article revise is_revised is_in_trees
    record_revision insert_revision snapshot closed_as
accepts_8 = refl

accept-applies_example :
    (p : ArticleProposal) × (state : ArticleRow) × (content : Content) × (onto_version : ℕ)
    × (shelf.proposals 8 ≡ some p)
    × (p.article_id ≡ 5)
    × (shelf.articles 5 ≡ some state)
    × (can_edit founder state.author_id ≡ true)
    × IsAcceptedContent no_libs p state.version false shelf content onto_version
    × IsApplied no_libs 5 8 founder p content onto_version shelf shelved
accept-applies_example = accept-applies no_libs 5 8 founder false shelf shelf shelved accepts_8

Reach-IsRecorded_example : IsRecorded no_libs shelved
Reach-IsRecorded_example =
    Reach-IsRecorded no_libs shelf shelved
      (goes shelf shelved shelved (accepts 5 8 founder false shelf shelf shelved accepts_8)
        (stays shelved))
      shelf-IsRecorded

-- proposal 8 as it was accepted, and the library where it is
abbrev accepted_one : ArticleProposal
accepted_one = record current_one {
  status = accepted;
  reviewer_id = some 1;
  reviewed_at = some 50;
  accepted_version = some 3;
}

abbrev decided : Library
decided = record shelf { proposals = λ i. if i == 8 then some accepted_one else none; now = 51 }

-- the library after the rebase of proposal 7
abbrev rebased_one : ArticleProposal
rebased_one = record stale_one {
  base_version = 2;
  content = record second_content { excerpt = some 9 };
}

abbrev rebased : Library
rebased = record shelf { proposals = update shelf.proposals 7 (some rebased_one) }

rebases_7 : rebase no_libs 5 7 founder shelf ≡ ok rebased
unfolding rebase lock_changeable write_state can_edit rebase_onto merge_or_conflict
    revision_or_missing merged_or_conflict merged_content merge_value merge_text merge_from
    merge_hunk sync_regions common_regions field_conflicts validate_subtype replace_content
rebases_7 = refl

rebase-then-accept_example :
    (s' : Library) × (accept no_libs 5 7 founder false rebased rebased ≡ ok s')
rebase-then-accept_example =
    rebase-then-accept no_libs 5 7 founder shelf rebased stale_one article shelf-IsRecorded refl
      refl founder_may one_not_two rebases_7

accept-refuses_example :
    (can_edit founder article.author_id ≡ false
      → accept no_libs 5 8 founder false shelf decided
        ≡ err (access_error (article_edit_forbidden 5)))
    × (can_edit founder article.author_id ≡ true
        → validate_subtype none 3 shelf ≡ ok tt
        → is_pending accepted_one.status ≡ false
        → accept no_libs 5 8 founder false shelf decided ≡ err (proposal_closed 8 accepted))
    × (can_edit founder article.author_id ≡ true
        → validate_subtype none 3 shelf ≡ ok tt
        → is_pending accepted_one.status ≡ true
        → ◌≢◌ {A = ℕ} 2 2
        → accept no_libs 5 8 founder false shelf decided ≡ err (proposal_stale 8 2 2))
accept-refuses_example =
    accept-refuses no_libs 5 8 founder shelf decided current_one accepted_one article article refl
      refl refl refl refl

-- the proposer replaced the content of proposal 8 after the reviewer's request had read it: the
-- proposal is accepted with the new content, and the article has the old one
