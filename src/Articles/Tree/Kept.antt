-- ===== src/Articles/Tree/Kept.antt =====
-- The writes of articles keep the tree sound.
use heofberu_backend.Prelude.{
  ℕ, ◌≡◌, refl, sym, ap, ◌∙◌, Bool, true, false, ◌||◌, List, Option, none, some, arith, ◌==◌,
  Bool-cases, Option-cases, inl, inr, member, ==→eq, is_none, update_hit, update_miss,
}
use heofberu_backend.Prelude.Result.{ok, raise_if, raise_if-ok, raise_if-false, ok-injective}
use heofberu_backend.Articles.Workflow.{ArticleActor}
use heofberu_backend.Articles.Rows.{
  ArticleRow, Library, Libs, on_article, map_row, parent_invalid, parent_cycle,
}
use heofberu_backend.Articles.Tree.{
  path_of, is_self_or_descendant, new_path, path_or_empty, write_path,
}
use heofberu_backend.Articles.Tree.Moved.{set_path-ok}
use heofberu_backend.Articles.Tree.Paths.{Fits, IsTree, row-path_of, is_self_or_descendant-path}
use heofberu_backend.Articles.Tree.Shift.{NoCycle}
use heofberu_backend.Articles.Tree.Move.{set_path-IsTree}
use heofberu_backend.Articles.Revisions.{bumped, record_revision}
use heofberu_backend.Articles.Writer.{
  Fields, get_or, set_fields, validate_parent, check_parent, move_article, revise, is_in_trees,
  is_revised,
}
use heofberu_backend.Articles.Writer.Effect.{
  record_revision-ok, purged, apply_changes-ok, write_fields-ok, update_fields-ok,
}
use heofberu_backend.Articles.Crud.{update_article}
use heofberu_backend.Articles.Crud.Effect.{update_article-ok}

-- the place of a row in the tree
abbrev place : Option ArticleRow → Option (Option (List ℕ) × Option ℕ)
place none = none
place (some a) = some (a.path, a.parent_id)

-- the same articles at the same places
abbrev pub SameTree : Library → Library → Type 0
SameTree s s' = ((i : ℕ) → place (s.articles i) ≡ place (s'.articles i)) × (s.ids ≡ s'.ids)

place-back :
    (o : Option ArticleRow) (b : ArticleRow)
    → place o ≡ place (some b)
    → (a : ArticleRow) × (o ≡ some a) × (a.path ≡ b.path) × (a.parent_id ≡ b.parent_id)
place-back none b h = cc
place-back (some a) b h = (a, refl, ground arith, ground arith)

abbrev path_in : Option (Option (List ℕ) × Option ℕ) → Option (List ℕ)
path_in none = none
path_in (some (path, parent)) = path

path_in-place :
    (o : Option ArticleRow) → elim o [ none ↦ none | some a ↦ a.path ] ≡ path_in (place o)
path_in-place none = refl
path_in-place (some a) = refl

path_of-place : (i : ℕ) (s s' : Library) → SameTree s s' → path_of i s ≡ path_of i s'
path_of-place i s s' (same, _) =
    path_in-place (s.articles i) ∙ ap path_in (same i) ∙ sym (path_in-place (s'.articles i))

Fits-SameTree :
    (i : ℕ) (parent : Option ℕ) (p : List ℕ) (s s' : Library)
    → SameTree s s'
    → Fits i parent p s
    → Fits i parent p s'
Fits-SameTree i none p s s' same is = is
Fits-SameTree i (some q) p s s' same (pq, at, is) = (pq, sym (path_of-place q s s' same) ∙ at, is)

pub SameTree-IsTree : (s s' : Library) → SameTree s s' → IsTree s → IsTree s'
SameTree-IsTree s s' same tree = record {
  each = λ i b there.
      let (a, found, path, parent) = place-back (s.articles i) b (same.0 i ∙ ap place there) in
      let (p, path_a, fits, short) = tree.each i a found in
      (p, sym path ∙ path_a, rw (← parent) (Fits-SameTree i a.parent_id p s s' same fits), short);
  listed = λ i b there.
      let (a, found, _, _) = place-back (s.articles i) b (same.0 i ∙ ap place there) in
      rw (← same.1) (tree.listed i a found);
}

place-map_row :
    (f : ArticleRow → ArticleRow)
    → ((b : ArticleRow) → (f b).path ≡ b.path)
    → ((b : ArticleRow) → (f b).parent_id ≡ b.parent_id)
    → (o : Option ArticleRow) → place o ≡ place (map_row f o)
place-map_row f path parent none = refl
place-map_row f path parent (some b) = ground (arith, path b, parent b)

on_article-SameTree :
    (id : ℕ) (f : ArticleRow → ArticleRow) (s : Library)
    → ((b : ArticleRow) → (f b).path ≡ b.path)
    → ((b : ArticleRow) → (f b).parent_id ≡ b.parent_id)
    → SameTree s (on_article id f s)
unfolding on_article
on_article-SameTree id f s path parent = (
  λ i. elim (Bool-cases (i == id)) [
    | inl same ↦
        ap (λ k. place (s.articles k)) (==→eq i id same)
        ∙ place-map_row f path parent (s.articles id)
        ∙ ap place (sym (update_hit s.articles id (map_row f (s.articles id)) i same))
    | inr other ↦ ap place (sym (update_miss s.articles id (map_row f (s.articles id)) i other))
  ],
  refl,
)

-- a parent that passed the check is not below the article
validate_parent-NoCycle :
    (s : Library)
    → IsTree s
    → (parent : Option ℕ) (id : ℕ) → validate_parent parent id s ≡ ok tt
    → NoCycle id parent s
unfolding validate_parent
validate_parent-NoCycle s tree none id h = tt
validate_parent-NoCycle s tree (some q) id h =
    let (there, h1) =
      raise_if-ok (is_none (s.articles q)) (parent_invalid q)
        (raise_if (is_self_or_descendant id q s) (parent_cycle id q)) h in
    elim (Option-cases (s.articles q)) [
      | inl missing ↦ ground arith
      | inr (b, found) ↦
          let (pq, path, _, _) = tree.each q b found in
          let at : path_of q s ≡ some pq = row-path_of q s b found ∙ path in
          let apart = raise_if-false (is_self_or_descendant id q s) (parent_cycle id q) h1 in
          let outside : (q == id || member id pq) ≡ false =
            sym (is_self_or_descendant-path s tree id q pq at) ∙ apart in
          (pq, at, ground arith)
    ]

-- a write of an article that is not there
absent-SameTree :
    (id : ℕ) (f : ArticleRow → ArticleRow) (s : Library)
    → s.articles id ≡ none
    → SameTree s (on_article id f s)
unfolding on_article
absent-SameTree id f s gone = (
  λ i. elim (Bool-cases (i == id)) [
    | inl same ↦ ground (arith, ==→eq i id same)
    | inr other ↦ ground arith
  ],
  refl,
)

absent-none :
    (id : ℕ) (f : ArticleRow → ArticleRow) (s : Library)
    → s.articles id ≡ none
    → (on_article id f s).articles id ≡ none
unfolding on_article
absent-none id f s gone = ground arith

path_of-none : (id : ℕ) (s : Library) → s.articles id ≡ none → path_of id s ≡ none
path_of-none id s gone = ap (λ o. elim o [ none ↦ none | some a ↦ a.path ]) gone

absent-IsTree :
    (id : ℕ) (fields : Fields) (parent : Option (Option ℕ)) (slug : Option (List ℕ))
    (guarded moved : Library)
    → guarded.articles id ≡ none
    → move_article parent id (on_article id (set_fields fields slug) guarded) ≡ ok moved
    → IsTree guarded
    → IsTree moved
unfolding move_article
absent-IsTree id fields none slug guarded moved gone moves tree =
    let is : on_article id (set_fields fields slug) guarded ≡ moved = ok-injective moves in
    rw (← is) (
      SameTree-IsTree guarded (on_article id (set_fields fields slug) guarded)
        (absent-SameTree id (set_fields fields slug) guarded gone) tree)
absent-IsTree id fields (some parent) slug guarded moved gone moves tree =
    let t : Library = on_article id (set_fields fields slug) guarded in
    let gone_t : t.articles id ≡ none = absent-none id (set_fields fields slug) guarded gone in
    let tree_t : IsTree t =
      SameTree-IsTree guarded t (absent-SameTree id (set_fields fields slug) guarded gone) tree in
    let (_, is) = set_path-ok id parent t moves in
    let rootless : path_of id t ≡ none = path_of-none id t gone_t in
    let written : on_article id (λ a. record a { path = some (new_path id parent t) }) t ≡ moved =
      ap (λ o. write_path id (path_or_empty o) (new_path id parent t) t) (sym rootless) ∙ is in
    rw (← written) (
      SameTree-IsTree t (on_article id (λ a. record a { path = some (new_path id parent t) }) t)
        (absent-SameTree id (λ a. record a { path = some (new_path id parent t) }) t gone_t) tree_t)

-- the move of a write: with a parent, or without
stage-IsTree :
    (libs : Libs) (id : ℕ) (fields : Fields) (parent : Option (Option ℕ)) (slug : Option (List ℕ))
    (guarded moved : Library)
    → (a : ArticleRow) → guarded.articles id ≡ some a
    → fields.parent_id ≡ parent
    → check_parent parent id guarded ≡ ok tt
    → move_article parent id (on_article id (set_fields fields slug) guarded) ≡ ok moved
    → IsTree guarded
    → IsTree moved
unfolding check_parent move_article set_fields
stage-IsTree libs id fields none slug guarded moved a found is_parent checks moves tree =
    let is : on_article id (set_fields fields slug) guarded ≡ moved = ok-injective moves in
    rw (← is) (
      SameTree-IsTree guarded (on_article id (set_fields fields slug) guarded)
        (on_article-SameTree id (set_fields fields slug) guarded (λ b. refl)
          (λ b. ap (λ o. get_or o b.parent_id) is_parent))
        tree)
stage-IsTree libs id fields (some parent) slug guarded moved a found is_parent checks moves tree =
    set_path-IsTree guarded moved id parent a (set_fields fields slug) tree found
      (validate_parent-NoCycle guarded tree parent id checks) (λ b. refl)
      (λ b. ap (λ o. get_or o b.parent_id) is_parent) moves

recorded-SameTree :
    (libs : Libs) (id : ℕ) (editor_id reviewer_id remark : Option ℕ) (bump : Bool) (s s' : Library)
    → record_revision libs id editor_id reviewer_id remark bump s ≡ ok s'
    → SameTree s s'
recorded-SameTree libs id editor_id reviewer_id remark bump s s' h =
    let (a, _, _, is) = record_revision-ok libs id editor_id reviewer_id remark bump s h in
    let (rows, ids) = on_article-SameTree id (bumped bump) s (λ b. refl) (λ b. refl) in
    (λ i. rows i ∙ ap (λ t. place (t.articles i)) is, ids ∙ ap (λ t. t.ids) is)

revise-IsTree :
    (makes : Bool) (libs : Libs) (id : ℕ) (editor_id reviewer_id remark : Option ℕ) (s s' : Library)
    → revise makes libs id editor_id reviewer_id remark s ≡ ok s'
    → IsTree s
    → IsTree s'
unfolding revise
revise-IsTree true libs id editor_id reviewer_id remark s s' h tree =
    SameTree-IsTree s s' (recorded-SameTree libs id editor_id reviewer_id remark true s s' h) tree
revise-IsTree false libs id editor_id reviewer_id remark s s' h tree =
    let is : s ≡ s' = ok-injective h in rw (← is) tree

purged-IsTree : (fields : Fields) (id : ℕ) (s : Library) → IsTree s → IsTree (purged fields id s)
purged-IsTree fields id s tree = elim (Bool-cases (is_in_trees fields)) [
  | inl shown ↦ rw shown (SameTree-IsTree s _ (λ i. refl, refl) tree)
  | inr hidden ↦ rw hidden (SameTree-IsTree s _ (λ i. refl, refl) tree)
]

-- An edit that succeeds, with or without a move, keeps the tree sound: every article has a path, the
-- path of its parent and its own id, no longer than 32, so that no article is its own ancestor;
-- whatever library the request had read before its block opened.
pub update_article-IsTree :
    (libs : Libs) (article_id : ℕ) (fields : Fields) (remark : Option ℕ) (actor : ArticleActor)
    (read s s' : Library)
    → update_article libs article_id fields remark actor read s ≡ ok s'
    → IsTree s
    → IsTree s'
update_article-IsTree libs article_id fields remark actor read s s' h tree =
    let (a, _, applied) = update_article-ok libs article_id fields remark actor read s s' h in
    let (guarded, written, moved, revised, _, h1, h2, h3, h4, h5, is) =
      apply_changes-ok libs article_id fields a (some actor.id) (some actor.id) remark (λ t. ok t)
        read s applied in
    let here : s ≡ guarded = ok-injective h1 in
    let (slug, updated) =
      write_fields-ok libs article_id fields fields.title a.published_at guarded h3 in
    let (_, is_written) = update_fields-ok article_id fields slug guarded updated in
    let moves = ap (λ t. move_article fields.parent_id article_id t) is_written ∙ h4 in
    let tree' : IsTree moved = elim (Option-cases (guarded.articles article_id)) [
      | inl gone ↦
          absent-IsTree article_id fields fields.parent_id slug guarded moved gone moves
            (rw (← here) tree)
      | inr (b, found) ↦
          stage-IsTree libs article_id fields fields.parent_id slug guarded moved b found refl h2
            moves (rw (← here) tree)
    ] in
    rw (← is) (
      purged-IsTree fields article_id revised (
        revise-IsTree (is_revised fields) libs article_id (some actor.id) (some actor.id) remark
          moved revised h5 tree'))
