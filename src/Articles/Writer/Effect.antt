-- ===== src/Articles/Writer/Effect.antt =====
-- What the write path leaves behind when it succeeds.
use heofberu_backend.Prelude.{
  ℕ, zero, suc, ◌≡◌, refl, ◌∙◌, Bool, true, false, List, [], Option, none, some, if◌then◌else◌,
  update, arith, Bool-cases, inl, inr, is_some,
}
use heofberu_backend.Prelude.Result.{
  Result, ok, ◌>>=◌, Result-cases, bind-ok, then-ok, raise_if-ok, ok-injective,
}
use heofberu_backend.Articles.Rows.{
  ArticleRow, Library, on_article, Libs, WriteError, invalidate, article_payload, article_trees,
  integrity_error, missing_row, or_missing, slug_exists,
}
use heofberu_backend.Articles.Revisions.{bumped, snapshot, insert_revision, record_revision}
use heofberu_backend.Articles.Tree.Moved.{Moved, Moved-refl, set_path-Moved}
use heofberu_backend.Articles.Writer.{
  Fields, get_or, set_fields, is_revised, is_in_trees, is_clash, other_slugs, update_fields,
  slug_attempts, slug_of, is_slug_conflict, retry, write_with_unique_slug, check_subtype,
  check_parent, write_fields, move_article, revise, apply_changes,
}

-- a chain that goes on from a value that is there
pub or_missing-ok :
    {A B : Type 0} (o : Option A) (e : WriteError) (f : A → Result WriteError B) {b : B}
    → (or_missing o e >>= f) ≡ ok b
    → (a : A) × (o ≡ some a) × (f a ≡ ok b)
or_missing-ok none e f h = cc
or_missing-ok (some a) e f h = (a, refl, h)

retry-ok :
    {A : Type 0} (e : WriteError) (again : Result WriteError A) (a : A)
    → retry e again ≡ ok a
    → again ≡ ok a
retry-ok e again a h = elim (Bool-cases (is_slug_conflict e)) [
  | inl same ↦ ground arith
  | inr other ↦ ground arith
]

-- a write under a slug of its own is a write of some slug
pub write_with_unique_slug-ok :
    {A : Type 0} (n : ℕ) (libs : Libs) (title : List ℕ)
    (write : List ℕ → Library → Result WriteError A) (exclude_id : Option ℕ) (slug : List ℕ)
    (s : Library) (a : A)
    → write_with_unique_slug n libs title write exclude_id slug s ≡ ok a
    → (taken : List ℕ) × (write taken s ≡ ok a)
unfolding write_with_unique_slug
write_with_unique_slug-ok zero libs title write exclude_id slug s a h = cc
write_with_unique_slug-ok (suc n) libs title write exclude_id slug s a h =
    let tried : List ℕ = slug_of libs title exclude_id s in
    elim (Result-cases (write tried s)) [
      | inr (b, written) ↦ (tried, ground arith)
      | inl (e, failed) ↦
          let again = write_with_unique_slug n libs title write exclude_id tried s in
          write_with_unique_slug-ok n libs title write exclude_id tried s a
            (retry-ok e again a (ground arith))
    ]

-- `update_fields` answers the rows with the fields written
pub update_fields-ok :
    (article_id : ℕ) (fields : Fields) (slug : Option (List ℕ)) (s : Library) {s' : Library}
    → update_fields article_id fields slug s ≡ ok s'
    → (is_clash slug (other_slugs (some article_id) s.ids s) ≡ false)
      × (on_article article_id (set_fields fields slug) s ≡ s')
unfolding update_fields
update_fields-ok article_id fields slug s h =
    let (free, is) =
      raise_if-ok (is_clash slug (other_slugs (some article_id) s.ids s))
        (slug_exists (get_or slug [])) (ok (on_article article_id (set_fields fields slug) s)) h in
    (free, ok-injective is)

pub write_fields-ok :
    (libs : Libs) (article_id : ℕ) (fields : Fields) (title : Option (List ℕ))
    (published_at : Option ℕ) (s : Library) {s' : Library}
    → write_fields libs article_id fields title published_at s ≡ ok s'
    → (slug : Option (List ℕ)) × (update_fields article_id fields slug s ≡ ok s')
unfolding write_fields
write_fields-ok libs article_id fields none published_at s h = (none, h)
write_fields-ok libs article_id fields (some title) (some t) s h = (none, h)
write_fields-ok libs article_id fields (some title) none s h =
    let (slug, written) =
      write_with_unique_slug-ok slug_attempts libs title
        (λ slug t. update_fields article_id fields (some slug) t) (some article_id) [] s _ h in
    (some slug, written)

pub move_article-Moved :
    (parent : Option (Option ℕ)) (article_id : ℕ) (s s' : Library)
    → move_article parent article_id s ≡ ok s'
    → Moved s s'
unfolding move_article
move_article-Moved none article_id s s' h =
    let is : s ≡ s' = ok-injective h in rw (← is) (Moved-refl s)
move_article-Moved (some parent_id) article_id s s' h = set_path-Moved article_id parent_id s s' h

-- the rows after a revision
abbrev pub recorded :
    Libs → ℕ → Option ℕ → Option ℕ → Option ℕ → Bool → ArticleRow → Library → Library
recorded libs article_id editor_id reviewer_id change_note bump a s =
    let s' : Library = on_article article_id (bumped bump) s in
    record s' {
      revisions = update s.revisions article_id (
          update (s.revisions article_id) (bumped bump a).version
            (some (snapshot libs article_id editor_id reviewer_id change_note (bumped bump a) s)));
    }

pub record_revision-ok :
    (libs : Libs) (article_id : ℕ) (editor_id reviewer_id change_note : Option ℕ) (bump : Bool)
    (s : Library) {s' : Library}
    → record_revision libs article_id editor_id reviewer_id change_note bump s ≡ ok s'
    → (a : ArticleRow) × (s.articles article_id ≡ some a)
      × (s.revisions article_id (bumped bump a).version ≡ none)
      × (recorded libs article_id editor_id reviewer_id change_note bump a s ≡ s')
unfolding record_revision insert_revision on_article
record_revision-ok libs article_id editor_id reviewer_id change_note bump s h =
    let (a, found, inserted) = or_missing-ok (s.articles article_id) missing_row _ h in
    let a' = bumped bump a in
    let (fresh, is) =
      raise_if-ok (is_some (s.revisions article_id a'.version)) integrity_error
        (ok (recorded libs article_id editor_id reviewer_id change_note bump a s)) inserted in
    (a, found, ground arith, ok-injective is)

-- the purges that a write leaves for the commit
abbrev pub purged : Fields → ℕ → Library → Library
purged fields article_id s =
    let t : Library = invalidate (article_payload article_id) s in
    if is_in_trees fields then invalidate article_trees t else t

-- the stages of a write that succeeds
pub apply_changes-ok :
    (libs : Libs) (article_id : ℕ) (fields : Fields) (state : ArticleRow)
    (editor_id reviewer_id change_note : Option ℕ) (guard : Library → Result WriteError Library)
    (read s : Library) {s' : Library}
    → apply_changes libs article_id fields state editor_id reviewer_id change_note guard read s
      ≡ ok s'
    → (guarded written moved revised : Library) × (check_subtype fields state read ≡ ok tt)
      × (guard s ≡ ok guarded)
      × (check_parent fields.parent_id article_id guarded ≡ ok tt)
      × (write_fields libs article_id fields fields.title state.published_at guarded ≡ ok written)
      × (move_article fields.parent_id article_id written ≡ ok moved)
      × (revise (is_revised fields) libs article_id editor_id reviewer_id change_note moved
          ≡ ok revised)
      × (purged fields article_id revised ≡ s')
unfolding apply_changes
apply_changes-ok libs article_id fields state editor_id reviewer_id change_note guard read s h =
    let (checked, h0) = then-ok (check_subtype fields state read) _ h in
    let (guarded, h1, k1) = bind-ok (guard s) _ h0 in
    let (h2, k2) = then-ok (check_parent fields.parent_id article_id guarded) _ k1 in
    let (written, h3, k3) =
      bind-ok (write_fields libs article_id fields fields.title state.published_at guarded) _ k2 in
    let (moved, h4, k4) = bind-ok (move_article fields.parent_id article_id written) _ k3 in
    let (revised, h5, k5) =
      bind-ok (revise (is_revised fields) libs article_id editor_id reviewer_id change_note moved) _
        k4 in
    (guarded, written, moved, revised, checked, h1, h2, h3, h4, h5, ok-injective k5)

-- the proposals, and the sequences of ids
abbrev pub SameProposals : Library → Library → Type 0
SameProposals s s' =
    (s.proposals ≡ s'.proposals)
    × (s.next_proposal ≡ s'.next_proposal)
    × (s.next_article ≡ s'.next_article)

pub SameProposals-trans :
    (s s' s'' : Library) → SameProposals s s' → SameProposals s' s'' → SameProposals s s''
SameProposals-trans s s' s'' (p, n, a) (p', n', a') = (p ∙ p', n ∙ n', a ∙ a')

pub purged-SameProposals :
    (fields : Fields) (article_id : ℕ) (s : Library) → SameProposals s (purged fields article_id s)
purged-SameProposals fields article_id s = elim (Bool-cases (is_in_trees fields)) [
  | inl shown ↦ rw shown (refl, refl, refl)
  | inr hidden ↦ rw hidden (refl, refl, refl)
]

pub record_revision-SameProposals :
    (libs : Libs) (article_id : ℕ) (editor_id reviewer_id change_note : Option ℕ) (bump : Bool)
    (s s' : Library)
    → record_revision libs article_id editor_id reviewer_id change_note bump s ≡ ok s'
    → SameProposals s s'
unfolding on_article
record_revision-SameProposals libs article_id editor_id reviewer_id change_note bump s s' h =
    let (a, _, _, is) =
      record_revision-ok libs article_id editor_id reviewer_id change_note bump s h in
    rw (← is) (refl, refl, refl)

pub revise-SameProposals :
    (makes : Bool) (libs : Libs) (article_id : ℕ) (editor_id reviewer_id change_note : Option ℕ)
    (s s' : Library)
    → revise makes libs article_id editor_id reviewer_id change_note s ≡ ok s'
    → SameProposals s s'
unfolding revise
revise-SameProposals true libs article_id editor_id reviewer_id change_note s s' h =
    record_revision-SameProposals libs article_id editor_id reviewer_id change_note true s s' h
revise-SameProposals false libs article_id editor_id reviewer_id change_note s s' h =
    let is : s ≡ s' = ok-injective h in rw (← is) (refl, refl, refl)

pub write_fields-SameProposals :
    (libs : Libs) (article_id : ℕ) (fields : Fields) (title : Option (List ℕ))
    (published_at : Option ℕ) (s s' : Library)
    → write_fields libs article_id fields title published_at s ≡ ok s'
    → SameProposals s s'
unfolding on_article
write_fields-SameProposals libs article_id fields title published_at s s' h =
    let (slug, updated) = write_fields-ok libs article_id fields title published_at s h in
    let (_, is) = update_fields-ok article_id fields slug s updated in rw (← is) (refl, refl, refl)

-- the writes after the guard leave the proposals alone
pub apply_changes-SameProposals :
    (libs : Libs) (article_id : ℕ) (fields : Fields) (state : ArticleRow)
    (editor_id reviewer_id change_note : Option ℕ) (guard : Library → Result WriteError Library)
    (read s s' : Library)
    → apply_changes libs article_id fields state editor_id reviewer_id change_note guard read s
      ≡ ok s'
    → (guarded : Library) × (guard s ≡ ok guarded) × SameProposals guarded s'
apply_changes-SameProposals libs article_id fields state editor_id reviewer_id change_note guard
      read s s' h =
    let (guarded, written, moved, revised, _, h1, _, h3, h4, h5, is) =
      apply_changes-ok libs article_id fields state editor_id reviewer_id change_note guard read s
        h in
    let m = move_article-Moved fields.parent_id article_id written moved h4 in
    (
      guarded,
      h1,
      rw (← is) (
          SameProposals-trans guarded written (purged fields article_id revised)
            (write_fields-SameProposals libs article_id fields fields.title state.published_at
              guarded written h3)
            (SameProposals-trans written moved (purged fields article_id revised)
              (m.proposals, m.next_proposal, m.next_article)
              (SameProposals-trans moved revised (purged fields article_id revised)
                (revise-SameProposals (is_revised fields) libs article_id editor_id reviewer_id
                  change_note moved revised h5)
                (purged-SameProposals fields article_id revised)))),
    )
