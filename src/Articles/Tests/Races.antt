-- ===== src/Articles/Tests/Races.antt =====
-- A proposal that changes between the read and the block of its acceptance, and a version that is
-- restored after an acceptance.
use heofberu_backend.Prelude.{◌+◌, ◌<◌, ◌≡◌, refl, false, none, some, arith, update}
use heofberu_backend.Prelude.Result.{ok}
use heofberu_backend.Articles.Workflow.{can_edit, ensure_can_edit}
use heofberu_backend.Articles.Rows.{ArticleRow, ArticleProposal, Library, on_article}
use heofberu_backend.Articles.Revisions.{record_revision, insert_revision, snapshot}
use heofberu_backend.Articles.Slug.{generate_unique_slug, next_free}
use heofberu_backend.Articles.Slugify.{
  slugify, transliterated, get, cyrillic_to_latin, sub_non_slug, strip_left, strip_right,
}
use heofberu_backend.Articles.Writer.{
  patched_content, all_fields, set_fields, is_revised, is_in_trees, write_state, validate_subtype,
  check_subtype, check_parent, other_slugs, update_fields, slug_of, write_with_unique_slug,
  write_fields, move_article, revise, apply_changes,
}
use heofberu_backend.Articles.Proposals.{
  get_proposal, closed_as, close_proposal, reviewable, accept_content, accept_guard, accept,
}
use heofberu_backend.Articles.Crud.{live_subtype, update_article, restore_revision}
use heofberu_backend.Articles.Proposals.Restored.{IsRestored, restore_revision-restores}
use heofberu_backend.Articles.Proposals.Steps.{accepts, stays, goes}
use heofberu_backend.Articles.Tests.Proposals.{
  no_libs, founder, first_content, second_content, revision_of, current_one, shelf, outcome,
  shelved, accepts_8,
}

abbrev replaced_one : ArticleProposal
replaced_one = record current_one { content = record second_content { excerpt = some 10 } }

abbrev replaced : Library
replaced = record shelf { proposals = update shelf.proposals 8 (some replaced_one) }

unfoldable raced : Library
unfolding accept reviewable get_proposal write_state ensure_can_edit can_edit accept_content
    accept_guard close_proposal apply_changes check_subtype validate_subtype check_parent
    write_fields write_with_unique_slug update_fields slug_of other_slugs generate_unique_slug
    next_free slugify transliterated get cyrillic_to_latin sub_non_slug strip_left strip_right
    all_fields set_fields patched_content on_article move_article revise is_revised is_in_trees
    record_revision insert_revision snapshot closed_as
raced = outcome (accept no_libs 5 8 founder false shelf replaced)

raced_article : elim (raced.articles 5) [ none ↦ none | some a ↦ a.content.excerpt ] ≡ some 9
unfolding raced accept reviewable get_proposal write_state ensure_can_edit can_edit accept_content
    accept_guard close_proposal apply_changes check_subtype validate_subtype check_parent
    write_fields write_with_unique_slug update_fields slug_of other_slugs generate_unique_slug
    next_free slugify transliterated get cyrillic_to_latin sub_non_slug strip_left strip_right
    all_fields set_fields patched_content on_article move_article revise is_revised is_in_trees
    record_revision insert_revision snapshot closed_as
raced_article = refl

raced_proposal : elim (raced.proposals 8) [ none ↦ none | some p ↦ p.content.excerpt ] ≡ some 10
unfolding raced accept reviewable get_proposal write_state ensure_can_edit can_edit accept_content
    accept_guard close_proposal apply_changes check_subtype validate_subtype check_parent
    write_fields write_with_unique_slug update_fields slug_of other_slugs generate_unique_slug
    next_free slugify transliterated get cyrillic_to_latin sub_non_slug strip_left strip_right
    all_fields set_fields patched_content on_article move_article revise is_revised is_in_trees
    record_revision insert_revision snapshot closed_as
raced_proposal = refl

-- the first version is restored after the acceptance of proposal 8
unfoldable restored : Library
unfolding shelved restore_revision live_subtype update_article accept reviewable get_proposal
    write_state ensure_can_edit can_edit accept_content accept_guard close_proposal apply_changes
    check_subtype validate_subtype check_parent write_fields write_with_unique_slug update_fields
    slug_of other_slugs generate_unique_slug next_free slugify transliterated get cyrillic_to_latin
    sub_non_slug strip_left strip_right all_fields set_fields patched_content on_article
    move_article revise is_revised is_in_trees record_revision insert_revision snapshot closed_as
restored = outcome (restore_revision no_libs 5 1 4 founder shelved shelved)

restores_1 : restore_revision no_libs 5 1 4 founder shelved shelved ≡ ok restored
unfolding restored shelved restore_revision live_subtype update_article accept reviewable
    get_proposal write_state ensure_can_edit can_edit accept_content accept_guard close_proposal
    apply_changes check_subtype validate_subtype check_parent write_fields write_with_unique_slug
    update_fields slug_of other_slugs generate_unique_slug next_free slugify transliterated get
    cyrillic_to_latin sub_non_slug strip_left strip_right all_fields set_fields patched_content
    on_article move_article revise is_revised is_in_trees record_revision insert_revision snapshot
    closed_as
restores_1 = refl

five_below : 5 < 6
five_below = omega arith

restore_revision-restores_example :
    (a b : ArticleRow) × (shelved.articles 5 ≡ some a)
    × (restored.articles 5 ≡ some b)
    × (b.version ≡ a.version + 1)
    × IsRestored first_content shelved b.content
restore_revision-restores_example =
    restore_revision-restores no_libs 5 1 4 founder (revision_of first_content 1) shelf shelved
      shelved restored five_below refl
      (goes shelf shelved shelved (accepts 5 8 founder false shelf shelf shelved accepts_8)
        (stays shelved))
      restores_1
