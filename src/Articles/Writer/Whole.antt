-- ===== src/Articles/Writer/Whole.antt =====
-- A write of all the content fields: what it leaves behind, and when it succeeds.
use heofberu_backend.Prelude.{
  ℕ, suc, ◌+◌, ◌≡◌, refl, sym, ap, ◌∙◌, Bool, true, false, List, [], Option, none, some, ◌==◌,
  arith, update_hit, update_miss,
}
use heofberu_backend.Prelude.Result.{Result, ok, bind-at, ok-injective}
use heofberu_backend.Articles.Slug.Free.{generate_unique_slug_lem}
use heofberu_backend.Articles.Slugify.{slugify}
use heofberu_backend.Articles.Rows.{
  Content, ArticleRow, Library, on_article, map_row, Libs, WriteError,
}
use heofberu_backend.Articles.Revisions.{bumped, snapshot, insert_revision, record_revision}
use heofberu_backend.Articles.Tree.Moved.{map_row-back}
use heofberu_backend.Articles.Writer.{
  Fields, get_or, patched_content, set_fields, all_fields, is_revised, is_in_trees, other_slugs,
  update_fields, slug_of, write_with_unique_slug, validate_subtype, check_subtype, check_parent,
  write_fields, move_article, revise, fallback_slug, apply_changes,
}
use heofberu_backend.Articles.Writer.Effect.{
  recorded, record_revision-ok, purged, apply_changes-ok, write_fields-ok, update_fields-ok,
}

-- a row with a new content and a new version
abbrev pub rewritten : Content → List ℕ → ArticleRow → ArticleRow
rewritten c slug a = record a { content = c; slug = slug; version = a.version + 1 }

-- the rows after a write of an article's content
pub record ContentWrite (libs : Libs) (article_id : ℕ) (c : Content)
    (editor_id reviewer_id remark : Option ℕ) (s s' : Library) : Type 0 where
  pub before : ArticleRow
  pub slug : List ℕ
  pub found : s.articles article_id ≡ some before
  pub row : s'.articles article_id ≡ some (rewritten c slug before)
  pub others :
      (i : ℕ)
      → (i == article_id) ≡ false
      → (s'.articles i ≡ s.articles i) × (s'.revisions i ≡ s.revisions i)
  pub revision :
      s'.revisions article_id (before.version + 1)
      ≡ some (snapshot libs article_id editor_id reviewer_id remark (rewritten c slug before) s)
  pub older :
      (v : ℕ)
      → (v == before.version + 1) ≡ false
      → s'.revisions article_id v ≡ s.revisions article_id v

refl== : (n : ℕ) → (n == n) ≡ true
refl== n = ground arith

-- the rows after a write, in one expression
abbrev content_written :
    Libs
    → ℕ
    → Content
    → Option (List ℕ)
    → Option ℕ
    → Option ℕ
    → Option ℕ
    → ArticleRow
    → Library
    → Library
content_written libs id c slug editor_id reviewer_id remark a s = purged (all_fields c) id (
    recorded libs id editor_id reviewer_id remark true (set_fields (all_fields c) slug a)
      (on_article id (set_fields (all_fields c) slug) s))

content_written-ContentWrite :
    (libs : Libs) (id : ℕ) (c : Content) (slug : Option (List ℕ))
    (editor_id reviewer_id remark : Option ℕ) (a : ArticleRow) (s : Library)
    → s.articles id ≡ some a
    → ContentWrite libs id c editor_id reviewer_id remark s
        (content_written libs id c slug editor_id reviewer_id remark a s)
unfolding on_article set_fields all_fields patched_content snapshot is_in_trees
content_written-ContentWrite libs id c slug editor_id reviewer_id remark a s found = record {
  before = a;
  slug = get_or slug a.slug;
  found = found;
  row = ground (arith, refl== id, found);
  others = λ i other. (ground arith, update_miss s.revisions id _ i other);
  revision =
      ap (λ h. h (a.version + 1)) (update_hit s.revisions id _ id (refl== id))
      ∙ update_hit (s.revisions id) (a.version + 1) _ (a.version + 1) (refl== (a.version + 1));
  older = λ v other.
      ap (λ h. h v) (update_hit s.revisions id _ id (refl== id))
      ∙ update_miss (s.revisions id) (a.version + 1) _ v other;
}

pub apply_content-ok :
    (libs : Libs) (id : ℕ) (c : Content) (state : ArticleRow)
    (editor_id reviewer_id remark : Option ℕ) (guard : Library → Result WriteError Library)
    (read s s' : Library)
    → apply_changes libs id (all_fields c) state editor_id reviewer_id remark guard read s ≡ ok s'
    → (guarded : Library) × (guard s ≡ ok guarded)
      × ContentWrite libs id c editor_id reviewer_id remark guarded s'
unfolding all_fields move_article revise is_revised on_article
apply_content-ok libs id c state editor_id reviewer_id remark guard read s s' h =
    let (guarded, written, moved, revised, _, h1, _, h3, h4, h5, is) =
      apply_changes-ok libs id (all_fields c) state editor_id reviewer_id remark guard read s h in
    let (slug, updated) =
      write_fields-ok libs id (all_fields c) (some c.title) state.published_at guarded h3 in
    let (_, is_written) = update_fields-ok id (all_fields c) slug guarded updated in
    let is_moved : written ≡ moved = ok-injective h4 in
    let there : Library = on_article id (set_fields (all_fields c) slug) guarded in
    let recorded' =
      ap (λ t. record_revision libs id editor_id reviewer_id remark true t) (is_written ∙ is_moved)
      ∙ h5 in
    let (b, found_b, _, is_recorded) =
      record_revision-ok libs id editor_id reviewer_id remark true there recorded' in
    let (a, found, is_b) = map_row-back (set_fields (all_fields c) slug) (guarded.articles id) b (
      sym (
        update_hit guarded.articles id
          (map_row (set_fields (all_fields c) slug) (guarded.articles id)) id (refl== id))
      ∙ found_b) in
    let is_revision : recorded libs id editor_id reviewer_id remark true
          (set_fields (all_fields c) slug a) there
        ≡ revised =
      ap (λ x. recorded libs id editor_id reviewer_id remark true x there) is_b ∙ is_recorded in
    let is_end : content_written libs id c slug editor_id reviewer_id remark a guarded ≡ s' =
      ap (λ t. purged (all_fields c) id t) is_revision ∙ is in
    (
      guarded,
      h1,
      rw (← is_end) (
          content_written-ContentWrite libs id c slug editor_id reviewer_id remark a guarded found),
    )

-- a free slug is written at the first attempt
update_fields-free :
    (libs : Libs) (id : ℕ) (fields : Fields) (title : List ℕ) (s : Library)
    → update_fields id fields (some (slug_of libs title (some id) s)) s
      ≡ ok (on_article id (set_fields fields (some (slug_of libs title (some id) s))) s)
unfolding update_fields slug_of
update_fields-free libs id fields title s =
    let (free, _, _) =
      generate_unique_slug_lem (slugify libs.lower title fallback_slug)
        (other_slugs (some id) s.ids s) in
    rw free refl

first_attempt :
    {A : Type 0} (n : ℕ) (libs : Libs) (title : List ℕ)
    (write : List ℕ → Library → Result WriteError A) (exclude_id : Option ℕ) (slug : List ℕ)
    (s : Library) (a : A)
    → write (slug_of libs title exclude_id s) s ≡ ok a
    → write_with_unique_slug (suc n) libs title write exclude_id slug s ≡ ok a
unfolding write_with_unique_slug
first_attempt n libs title write exclude_id slug s a h = ground (arith, h)

write_fields-succeeds :
    (libs : Libs) (id : ℕ) (fields : Fields) (title : List ℕ) (published_at : Option ℕ)
    (s : Library)
    → (slug : Option (List ℕ)) × (write_fields libs id fields (some title) published_at s
        ≡ ok (on_article id (set_fields fields slug) s))
unfolding write_fields update_fields
write_fields-succeeds libs id fields title none s = (
  some (slug_of libs title (some id) s),
  first_attempt 4 libs title (λ slug t. update_fields id fields (some slug) t) (some id) [] s _
      (update_fields-free libs id fields title s),
)
write_fields-succeeds libs id fields title (some t) s = (none, refl)

record_revision-succeeds :
    (libs : Libs) (id : ℕ) (editor_id reviewer_id remark : Option ℕ) (bump : Bool) (a : ArticleRow)
    (s : Library)
    → s.articles id ≡ some a
    → s.revisions id (bumped bump a).version ≡ none
    → record_revision libs id editor_id reviewer_id remark bump s
      ≡ ok (recorded libs id editor_id reviewer_id remark bump a s)
unfolding record_revision insert_revision on_article
record_revision-succeeds libs id editor_id reviewer_id remark bump a s found fresh =
    rw (found, fresh) refl

-- a write of a valid content succeeds where its guard does, and its article's next version is free
pub apply_content-succeeds :
    (libs : Libs) (id : ℕ) (c : Content) (state a : ArticleRow)
    (editor_id reviewer_id remark : Option ℕ) (guard : Library → Result WriteError Library)
    (read s guarded : Library)
    → validate_subtype c.subtype_id c.article_type read ≡ ok tt
    → guard s ≡ ok guarded
    → guarded.articles id ≡ some a
    → guarded.revisions id (a.version + 1) ≡ none
    → (s' : Library) × (apply_changes libs id
          (all_fields c)
          state
          editor_id
          reviewer_id
          remark
          guard
          read
          s
        ≡ ok s')
unfolding apply_changes all_fields check_subtype check_parent move_article revise is_revised
    on_article set_fields
apply_content-succeeds libs id c state a editor_id reviewer_id remark guard read s guarded valid
      guards found fresh =
    let (slug, written) =
      write_fields-succeeds libs id (all_fields c) c.title state.published_at guarded in
    let there : Library = on_article id (set_fields (all_fields c) slug) guarded in
    let row : there.articles id ≡ some (set_fields (all_fields c) slug a) =
      ground (arith, refl== id) in
    let revised : revise true libs id editor_id reviewer_id remark there
        ≡ ok (
            recorded libs id editor_id reviewer_id remark true (set_fields (all_fields c) slug a)
              there) =
      record_revision-succeeds libs id editor_id reviewer_id remark true
        (set_fields (all_fields c) slug a) there row fresh in
    (
      content_written libs id c slug editor_id reviewer_id remark a guarded,
      bind-at (check_subtype (all_fields c) state read) _ valid
          ∙ bind-at (guard s) _ guards
          ∙ bind-at (write_fields libs id (all_fields c) (some c.title) state.published_at guarded)
              _ written
          ∙ bind-at (revise true libs id editor_id reviewer_id remark there) _ revised,
    )
