-- ===== src/Articles/Revisions/Kept.antt =====
-- A property of every article under the writes of its row.
use heofberu_backend.Prelude.{
  ℕ, ◌≤◌, ◌≡◌, refl, sym, ap, ◌∙◌, true, false, List, Option, none, some, ◌==◌, ◌⊎◌, arith,
  Bool-cases, inl, inr, ==→eq,
}
use heofberu_backend.Prelude.Result.{ok}
use heofberu_backend.Articles.Rows.{Content, ArticleRow, Library, Libs, on_article, map_row}
use heofberu_backend.Articles.Revisions.History.{History, IsHistory}
use heofberu_backend.Articles.Tree.Moved.{unplaced, Moved, map_row-back}
use heofberu_backend.Articles.Writer.{
  Fields, patched_content, set_fields, is_revised, update_fields, write_fields,
}
use heofberu_backend.Articles.Writer.Effect.{write_fields-ok, update_fields-ok}

-- a property of each article: of its id, its history, its version and its content
abbrev pub Property : Type 1
Property = ℕ → History → ℕ → Content → Type 0

-- every article has the property, and the ids that are not given yet have no rows
pub record IsKept (Q : Property) (s : Library) : Type 0 where
  pub each :
      (i : ℕ) (a : ArticleRow) → s.articles i ≡ some a → Q i (s.revisions i) a.version a.content
  pub fresh_rows : (i : ℕ) → s.next_article ≤ i → s.articles i ≡ none
  pub fresh_revisions : (i : ℕ) → s.next_article ≤ i → (v : ℕ) → s.revisions i v ≡ none

pub map_row-none :
    (row : Option ArticleRow) → map_row unplaced none ≡ map_row unplaced row → row ≡ none
map_row-none none h = refl
map_row-none (some a) h = cc

-- a move in the tree keeps every property of version and content
pub Moved-IsKept : (Q : Property) (s s' : Library) → Moved s s' → IsKept Q s → IsKept Q s'
Moved-IsKept Q s s' m kept = record {
  each = λ i b found.
      let (a, there, same) =
        map_row-back unplaced (s.articles i) (unplaced b)
          (m.rows i ∙ ap (map_row unplaced) found) in
      let version : a.version ≡ b.version = ap (λ t. t.version) same in
      let content : a.content ≡ b.content = ap (λ t. t.content) same in
      rw (← m.revisions, ← version, ← content) (kept.each i a there);
  fresh_rows = λ i past.
      map_row-none (s'.articles i)
        (ap (map_row unplaced) (sym (kept.fresh_rows i (rw m.next_article past))) ∙ m.rows i);
  fresh_revisions =
      λ i past v. rw (← m.revisions) (kept.fresh_revisions i (rw m.next_article past) v);
}

-- the content of one article may differ from its last revision
abbrev pub Unsaved : Libs → ℕ → Property
Unsaved libs id i h v c = (c' : Content) × IsHistory libs h v c' × ((i == id) ≡ false → c' ≡ c)

abbrev pub Saved : Libs → Property
Saved libs i h v c = IsHistory libs h v c

-- one article has no revision yet
abbrev pub Draft : Libs → ℕ → Property
Draft libs id i h v c =
    (((i == id) ≡ true) × (v ≡ 1) × ((w : ℕ) → h w ≡ none))
    ⊎ (((i == id) ≡ false) × IsHistory libs h v c)

abbrev pub IsRecorded : Libs → Library → Type 0
IsRecorded libs s = IsKept (Saved libs) s

-- a write of one row
pub on_article-IsKept :
    (Q Q' : Property) (id : ℕ) (f : ArticleRow → ArticleRow) (s : Library)
    → ((i : ℕ) (a : ArticleRow)
        → s.articles i ≡ some a
        → (i == id) ≡ false
        → Q i (s.revisions i) a.version a.content
        → Q' i (s.revisions i) a.version a.content)
    → ((a : ArticleRow)
        → s.articles id ≡ some a
        → Q id (s.revisions id) a.version a.content
        → Q' id (s.revisions id) (f a).version (f a).content)
    → IsKept Q s
    → IsKept Q' (on_article id f s)
unfolding on_article
on_article-IsKept Q Q' id f s others here kept = record {
  each = λ i b found. elim (Bool-cases (i == id)) [
    | inl same ↦
        let is_i : i ≡ id = ==→eq i id same in
        let (a, there, is) = map_row-back f (s.articles id) b (ground arith) in
        rw (is_i, ← is) (here a there (kept.each id a there))
    | inr other ↦
        let there : s.articles i ≡ some b = ground arith in
        others i b there other (kept.each i b there)
  ];
  fresh_rows = λ i past. ground (arith, kept.fresh_rows i past);
  fresh_revisions = kept.fresh_revisions;
}

-- the fields of a PATCH leave the content of one article unsaved
pub update_fields-Unsaved :
    (libs : Libs) (id : ℕ) (fields : Fields) (slug : Option (List ℕ)) (s s' : Library)
    → update_fields id fields slug s ≡ ok s'
    → IsRecorded libs s
    → IsKept (Unsaved libs id) s'
unfolding set_fields
update_fields-Unsaved libs id fields slug s s' h kept =
    let (_, is) = update_fields-ok id fields slug s h in
    rw (← is) (
      on_article-IsKept (Saved libs) (Unsaved libs id) id (set_fields fields slug) s
        (λ i a found other history. (a.content, history, λ _. refl))
        (λ a found history. (a.content, history, λ other. ground arith)) kept)

pub patched_content-not_revised :
    (fields : Fields) (c : Content) → is_revised fields ≡ false → patched_content fields c ≡ c
unfolding is_revised patched_content
patched_content-not_revised fields c h = ground arith

pub update_fields-Saved :
    (libs : Libs) (id : ℕ) (fields : Fields) (slug : Option (List ℕ)) (s s' : Library)
    → is_revised fields ≡ false
    → update_fields id fields slug s ≡ ok s'
    → IsRecorded libs s
    → IsRecorded libs s'
unfolding set_fields
update_fields-Saved libs id fields slug s s' none_revised h kept =
    let (_, is) = update_fields-ok id fields slug s h in
    rw (← is) (
      on_article-IsKept (Saved libs) (Saved libs) id (set_fields fields slug) s
        (λ i a found other history. history)
        (λ a found history. rw (patched_content-not_revised fields a.content none_revised) history)
        kept)

pub write_fields-Unsaved :
    (libs : Libs) (id : ℕ) (fields : Fields) (published_at : Option ℕ) (s s' : Library)
    → write_fields libs id fields fields.title published_at s ≡ ok s'
    → IsRecorded libs s
    → IsKept (Unsaved libs id) s'
write_fields-Unsaved libs id fields published_at s s' h kept =
    let (slug, updated) = write_fields-ok libs id fields fields.title published_at s h in
    update_fields-Unsaved libs id fields slug s s' updated kept
