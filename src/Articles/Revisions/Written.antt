-- ===== src/Articles/Revisions/Written.antt =====
-- The history of every article under the writes of the write path.
use heofberu_backend.Prelude.{
  ℕ, ◌+◌, ◌-◌, ◌≡◌, refl, sym, ap, ◌∙◌, Bool, true, false, List, Option, none, some, ◌==◌,
  if◌then◌else◌, update, arith, Bool-cases, inl, inr, ==→eq, opt_eq, fun_ext, update_hit,
  update_miss,
}
use heofberu_backend.Prelude.Result.{ok, ok-injective, Result}
use heofberu_backend.Articles.Rows.{
  Content, ArticleRow, ArticleRevision, Library, Libs, WriteError, on_article, map_row,
}
use heofberu_backend.Articles.Revisions.{revision_hash, hash_of, bumped, snapshot, record_revision}
use heofberu_backend.Articles.Revisions.History.{
  History, IsHistory, extend-IsHistory, start_at-IsHistory, plus_minus,
}
use heofberu_backend.Articles.Tree.Moved.{Moved, map_row-back}
use heofberu_backend.Articles.Crud.{draft_row, delete_row}
use heofberu_backend.Articles.Crud.Effect.{with_draft}
use heofberu_backend.Articles.Writer.{
  is_in_trees, Fields, is_revised, write_fields, revise, apply_changes,
}
use heofberu_backend.Articles.Writer.Effect.{
  recorded, record_revision-ok, purged, apply_changes-ok, write_fields-ok, move_article-Moved,
}
use heofberu_backend.Articles.Revisions.Kept.{
  Property, IsKept, Moved-IsKept, Unsaved, Saved, Draft, IsRecorded, update_fields-Saved,
  write_fields-Unsaved,
}

-- a snapshot that continues the history of its article
recorded-IsRecorded :
    (Q : Property) (libs : Libs) (id : ℕ) (editor_id reviewer_id remark : Option ℕ) (bump : Bool)
    (a : ArticleRow) (s : Library)
    → s.articles id ≡ some a
    → ((i : ℕ) (b : ArticleRow)
        → (i == id) ≡ false
        → Q i (s.revisions i) b.version b.content
        → IsHistory libs (s.revisions i) b.version b.content)
    → IsHistory libs
        (update
          (s.revisions id)
          (bumped bump a).version
          (some (snapshot libs id editor_id reviewer_id remark (bumped bump a) s)))
        (bumped bump a).version
        a.content
    → IsKept Q s
    → IsRecorded libs (recorded libs id editor_id reviewer_id remark bump a s)
unfolding on_article
recorded-IsRecorded Q libs id editor_id reviewer_id remark bump a s found others here kept =
    let history : History =
      update (s.revisions id) (bumped bump a).version
        (some (snapshot libs id editor_id reviewer_id remark (bumped bump a) s)) in
    record {
      each = λ i b there. elim (Bool-cases (i == id)) [
        | inl same ↦
            let is_b : bumped bump a ≡ b = ground (arith, ==→eq i id same, found) in
            rw (update_hit s.revisions id history i same, ← is_b) here
        | inr other ↦ rw (update_miss s.revisions id history i other) (
            others i b other (
              kept.each i b (
                sym (update_miss s.articles id (map_row (bumped bump) (s.articles id)) i other)
                ∙ there)))
      ];
      fresh_rows = λ i past. ground (arith, kept.fresh_rows i past);
      fresh_revisions = λ i past v. elim (Bool-cases (i == id)) [
        | inl same ↦ ground (arith, ==→eq i id same, kept.fresh_rows i past)
        | inr other ↦
            rw (update_miss s.revisions id history i other) (kept.fresh_revisions i past v)
      ];
    }

-- the rows of an article that is written, with its next revision
bump_revision-IsRecorded :
    (libs : Libs) (id : ℕ) (editor_id reviewer_id remark : Option ℕ) (s s' : Library)
    → record_revision libs id editor_id reviewer_id remark true s ≡ ok s'
    → IsKept (Unsaved libs id) s
    → IsRecorded libs s'
unfolding snapshot
bump_revision-IsRecorded libs id editor_id reviewer_id remark s s' h kept =
    let (a, found, fresh, is) = record_revision-ok libs id editor_id reviewer_id remark true s h in
    let (c, history, _) = kept.each id a found in
    let hash : revision_hash libs (hash_of (s.revisions id (a.version + 1 - 1))) (a.version + 1)
          a.content
        ≡ revision_hash libs (hash_of (s.revisions id a.version)) (a.version + 1) a.content =
      ap (λ n. revision_hash libs (hash_of (s.revisions id n)) (a.version + 1) a.content)
        (plus_minus a.version) in
    rw (← is) (
      recorded-IsRecorded (Unsaved libs id) libs id editor_id reviewer_id remark true a s found
        (λ i b other (c', history', saved). rw (← saved other) history')
        (extend-IsHistory libs (s.revisions id) a.version c a.content
          (snapshot libs id editor_id reviewer_id remark (bumped true a) s) history refl hash)
        kept)

draft-first :
    (libs : Libs) (id v : ℕ) (h : History) (c : Content)
    → Draft libs id id h v c
    → (v ≡ 1) × ((w : ℕ) → h w ≡ none)
draft-first libs id v h c (inl (_, one, empty)) = (one, empty)
draft-first libs id v h c (inr (other, _)) = (ground arith, λ w. ground arith)

draft-others :
    (libs : Libs) (id i v : ℕ) (h : History) (c : Content)
    → (i == id) ≡ false
    → Draft libs id i h v c
    → IsHistory libs h v c
draft-others libs id i v h c other (inl (same, one, empty)) = ground arith
draft-others libs id i v h c other (inr (_, history)) = history

-- the rows of a new article, with its first revision
pub first_revision-IsRecorded :
    (libs : Libs) (id : ℕ) (editor_id reviewer_id remark : Option ℕ) (s s' : Library)
    → record_revision libs id editor_id reviewer_id remark false s ≡ ok s'
    → IsKept (Draft libs id) s
    → IsRecorded libs s'
unfolding snapshot
first_revision-IsRecorded libs id editor_id reviewer_id remark s s' h kept =
    let (a, found, fresh, is) = record_revision-ok libs id editor_id reviewer_id remark false s h in
    let (one, empty) =
      draft-first libs id a.version (s.revisions id) a.content (kept.each id a found) in
    let r : ArticleRevision = snapshot libs id editor_id reviewer_id remark (bumped false a) s in
    let hash : r.content_hash ≡ revision_hash libs none 1 a.content = rw one (rw (empty 0) refl) in
    rw (← is) (
      recorded-IsRecorded (Draft libs id) libs id editor_id reviewer_id remark false a s found
        (λ i b other q. draft-others libs id i b.version (s.revisions i) b.content other q)
        (start_at-IsHistory libs (s.revisions id) a.version a.content r one empty refl hash) kept)

purged-IsRecorded :
    (libs : Libs) (fields : Fields) (id : ℕ) (s : Library)
    → IsRecorded libs s
    → IsRecorded libs (purged fields id s)
purged-IsRecorded libs fields id s kept = elim (Bool-cases (is_in_trees fields)) [
  | inl shown ↦ rw shown (record {
    each = kept.each;
    fresh_rows = kept.fresh_rows;
    fresh_revisions = kept.fresh_revisions;
  })
  | inr hidden ↦ rw hidden (record {
    each = kept.each;
    fresh_rows = kept.fresh_rows;
    fresh_revisions = kept.fresh_revisions;
  })
]

-- the stages of a write that changes the content, and of one that does not
stages-IsRecorded :
    (libs : Libs) (id : ℕ) (fields : Fields) (published_at editor_id reviewer_id remark : Option ℕ)
    (guarded written moved revised : Library) (makes : Bool)
    → is_revised fields ≡ makes
    → write_fields libs id fields fields.title published_at guarded ≡ ok written
    → Moved written moved
    → revise makes libs id editor_id reviewer_id remark moved ≡ ok revised
    → IsRecorded libs guarded
    → IsRecorded libs revised
unfolding revise
stages-IsRecorded libs id fields published_at editor_id reviewer_id remark guarded written moved
      revised true makes h m k kept =
    bump_revision-IsRecorded libs id editor_id reviewer_id remark moved revised k (
      Moved-IsKept (Unsaved libs id) written moved m
        (write_fields-Unsaved libs id fields published_at guarded written h kept))
stages-IsRecorded libs id fields published_at editor_id reviewer_id remark guarded written moved
      revised false keeps h m k kept =
    let (slug, updated) = write_fields-ok libs id fields fields.title published_at guarded h in
    let is : moved ≡ revised = ok-injective k in
    rw (← is) (
      Moved-IsKept (Saved libs) written moved m
        (update_fields-Saved libs id fields slug guarded written keeps updated kept))

-- the write path keeps every history
pub apply_changes-IsRecorded :
    (libs : Libs) (id : ℕ) (fields : Fields) (state : ArticleRow)
    (editor_id reviewer_id remark : Option ℕ) (guard : Library → Result WriteError Library)
    (read s s' : Library)
    → apply_changes libs id fields state editor_id reviewer_id remark guard read s ≡ ok s'
    → ((guarded : Library) → guard s ≡ ok guarded → IsRecorded libs guarded)
    → IsRecorded libs s'
apply_changes-IsRecorded libs id fields state editor_id reviewer_id remark guard read s s' h kept =
    let (guarded, written, moved, revised, _, h1, _, h3, h4, h5, is) =
      apply_changes-ok libs id fields state editor_id reviewer_id remark guard read s h in
    rw (← is) (
      purged-IsRecorded libs fields id revised (
        stages-IsRecorded libs id fields state.published_at editor_id reviewer_id remark guarded
          written moved revised (is_revised fields) refl h3
          (move_article-Moved fields.parent_id id written moved h4) h5 (kept guarded h1)))

-- a row for a new article, before its first revision
pub with_draft-Draft :
    (libs : Libs) (content : Content) (parent_id author_id : Option ℕ) (slug : List ℕ) (s : Library)
    → IsRecorded libs s
    → IsKept (Draft libs s.next_article) (with_draft content parent_id author_id slug s)
unfolding draft_row
with_draft-Draft libs content parent_id author_id slug s kept = record {
  each = λ i b found. elim (Bool-cases (i == s.next_article)) [
    | inl same ↦
        let is_b : draft_row content parent_id author_id slug ≡ b = ground arith in
        inl (same, ap (λ t. t.version) (sym is_b), λ w. kept.fresh_revisions i (ground arith) w)
    | inr other ↦ inr (other, kept.each i b (ground arith))
  ];
  fresh_rows = λ i past. ground (arith, kept.fresh_rows i (omega arith));
  fresh_revisions = λ i past v. kept.fresh_revisions i (omega arith) v;
}

orphaned-version :
    (c : Bool) (a : ArticleRow)
    → (if c then record a { parent_id = none } else a).version ≡ a.version
orphaned-version true a = refl
orphaned-version false a = refl

orphaned-content :
    (c : Bool) (a : ArticleRow)
    → (if c then record a { parent_id = none } else a).content ≡ a.content
orphaned-content true a = refl
orphaned-content false a = refl

map_row-none-back :
    (f : ArticleRow → ArticleRow) (row : Option ArticleRow) → row ≡ none → map_row f row ≡ none
map_row-none-back f row h = rw h refl

-- the deleted article takes its history with it
pub delete_row-IsRecorded :
    (libs : Libs) (id : ℕ) (s : Library) → IsRecorded libs s → IsRecorded libs (delete_row id s)
unfolding delete_row
delete_row-IsRecorded libs id s kept = record {
  each = λ i b found. elim (Bool-cases (i == id)) [
    | inl same ↦ ground arith
    | inr other ↦
        let (a, there, is) =
          map_row-back
            (λ a. if opt_eq a.parent_id (some id) then record a { parent_id = none } else a)
            (s.articles i) b (ground arith) in
        let version : a.version ≡ b.version =
          sym (orphaned-version (opt_eq a.parent_id (some id)) a) ∙ ap (λ t. t.version) is in
        let content : a.content ≡ b.content =
          sym (orphaned-content (opt_eq a.parent_id (some id)) a) ∙ ap (λ t. t.content) is in
        let same_history : (delete_row id s).revisions i ≡ s.revisions i =
          fun_ext (λ w. ground arith) in
        rw (same_history, ← version, ← content) (kept.each i a there)
  ];
  fresh_rows = λ i past. elim (Bool-cases (i == id)) [
    | inl same ↦ rw same refl
    | inr other ↦ rw other (map_row-none-back _ (s.articles i) (kept.fresh_rows i past))
  ];
  fresh_revisions = λ i past v. ground (arith, kept.fresh_revisions i past v);
}
