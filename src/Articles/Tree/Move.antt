-- ===== src/Articles/Tree/Move.antt =====
-- A move of an article with its subtree keeps the tree sound.
use heofberu_backend.Prelude.{
  ℕ, ◌+◌, ◌-◌, ◌≤◌, ◌≡◌, refl, sym, ap, ◌∙◌, true, false, List, [], ◌∷◌, ◌++◌, Option, none, some,
  arith, ◌==◌, ltb, if◌then◌else◌, Bool-cases, Option-cases, inl, inr, length, starts_with, ==→eq,
  eq→==, some_same, update_hit, update_miss,
}
use heofberu_backend.Prelude.Result.{ok}
use heofberu_backend.Articles.Rows.{ArticleRow, Library, on_article, map_row}
use heofberu_backend.Articles.Tree.{
  path_of, path_or_empty, new_path, height, is_below, reroot, move_subtree, write_path,
  max_tree_depth, set_path,
}
use heofberu_backend.Articles.Tree.Moved.{set_path-ok}
use heofberu_backend.Articles.Tree.Paths.{
  Fits, IsTree, path_of-row, row-path_of, each-Fits, length-Fits,
}
use heofberu_backend.Articles.Tree.Shift.{
  shifted, EndsIn, Fits-EndsIn, shifted_self, shifted-snoc, shifted-root, shifted-apart,
  deepest-bound, new_path-snoc, move_below-subtree, height-deepest, path_of-shift, parent-shift,
  length-shifted, map_row-path, none-some, NoCycle,
}

-- one article gets a parent, and then its path and those below it move
module _ (s : Library) (tree : IsTree s) (id : ℕ) (a : ArticleRow) (found : s.articles id ≡ some a)
    (f : ArticleRow → ArticleRow) (same_path : (b : ArticleRow) → (f b).path ≡ b.path)
    (old : List ℕ) (old_path : a.path ≡ some old) (new : List ℕ) where
  abbrev placed : Library
  placed = on_article id f s

  abbrev after : Library
  after = write_path id old new (on_article id f s)

  ends : EndsIn id old
  ends = Fits-EndsIn id a.parent_id old s ((each-Fits s tree id a old found old_path).0)

  long : 1 ≤ length old
  long = length-Fits id a.parent_id old s ((each-Fits s tree id a old found old_path).0)

  -- the rows after the move
  row_here : after.articles id ≡ some (record (f a) { path = some new })
  unfolding on_article move_subtree
  row_here =
      ap (λ t. t.articles id) (move_below-subtree id old new _ long)
      ∙ ground (arith, eq→== id id refl)

  row_other :
      (i : ℕ) (b : ArticleRow)
      → (i == id) ≡ false
      → s.articles i ≡ some b
      → after.articles i
        ≡ some (
            if is_below old b.path
            then record b { path = some (reroot old new (path_or_empty b.path)) }
            else b)
  unfolding on_article move_subtree
  row_other i b other there =
      ap (λ t. t.articles i) (move_below-subtree id old new _ long) ∙ ground arith

  -- every path shifts
  path_of-after :
      (q : ℕ) (pq : List ℕ) → path_of q s ≡ some pq → path_of q after ≡ some (shifted old new pq)
  path_of-after q pq at =
      let (b, there, path) = path_of-row q s pq at in
      elim (Bool-cases (q == id)) [
        | inl same ↦
            let is : pq ≡ old =
              some_same (sym (ap (λ k. path_of k s) (==→eq q id same)) ∙ at)
                (row-path_of id s a found ∙ old_path) in
            ap (λ k. path_of k after) (==→eq q id same)
            ∙ row-path_of id after _ row_here
            ∙ ap (λ t. some t) (sym (shifted_self old new) ∙ ap (λ t. shifted old new t) (sym is))
        | inr other ↦
            row-path_of q after _ (row_other q b other there) ∙ path_of-shift old new b pq path
      ]

  -- a path that fits an article other than the moved one fits it after the move
  Fits-after :
      (i : ℕ) (parent : Option ℕ) (p : List ℕ)
      → (i == id) ≡ false
      → Fits i parent p s
      → Fits i parent (shifted old new p) after
  Fits-after i none p other is =
      ap (λ t. shifted old new t) is ∙ shifted-root id i old new ends other
  Fits-after i (some q) p other (pq, at, is) = (
    shifted old new pq,
    path_of-after q pq at,
    ap (λ t. shifted old new t) is ∙ shifted-snoc id i old new pq ends other,
  )

  path_of-placed : (q : ℕ) → path_of q placed ≡ path_of q s
  unfolding on_article
  path_of-placed q = elim (Bool-cases (q == id)) [
    | inl same ↦
        ap (λ k. path_of k placed) (==→eq q id same)
        ∙ ap (λ o. elim o [ none ↦ none | some b ↦ b.path ])
            (update_hit s.articles id (map_row f (s.articles id)) id (eq→== id id refl))
        ∙ map_row-path f same_path (s.articles id)
        ∙ ap (λ k. path_of k s) (sym (==→eq q id same))
    | inr other ↦
        ap (λ o. elim o [ none ↦ none | some b ↦ b.path ])
          (update_miss s.articles id (map_row f (s.articles id)) q other)
  ]

  Fits-new :
      (parent : Option ℕ)
      → NoCycle id parent s
      → new ≡ new_path id parent placed
      → Fits id parent new after
  unfolding new_path
  Fits-new none no_cycle is = is
  Fits-new (some q) (pq, at, outside) is =
      let (b, there, path) = path_of-row q s pq at in
      let (fits, _) = each-Fits s tree q b pq there path in
      let under_q : new ≡ pq ++ id ∷ [] =
        is
        ∙ new_path-snoc id q placed pq (path_of-placed q ∙ at)
            (length-Fits q b.parent_id pq s fits) in
      (
        pq,
        path_of-after q pq at ∙ ap (λ t. some t) (shifted-apart id old new pq ends outside),
        under_q,
      )

  row_none : (i : ℕ) → (i == id) ≡ false → s.articles i ≡ none → after.articles i ≡ none
  unfolding on_article move_subtree
  row_none i other missing =
      ap (λ t. t.articles i) (move_below-subtree id old new _ long) ∙ ground arith

  ids-after : after.ids ≡ s.ids
  unfolding on_article move_subtree
  ids-after = ap (λ t. t.ids) (move_below-subtree id old new _ long)

  after-IsTree :
      (parent : Option ℕ)
      → ((b : ArticleRow) → (f b).parent_id ≡ parent)
      → Fits id parent new after
      → length new ≤ 32
      → ((i : ℕ) (p : List ℕ)
          → path_of i s ≡ some p
          → starts_with old p ≡ true
          → length new + (length p - length old) ≤ 32)
      → IsTree after
  after-IsTree parent is_parent fits short high = record {
    each = λ i b' there'. elim (Bool-cases (i == id)) [
      | inl same ↦
          let is_b : record (f a) { path = some new } ≡ b' =
            some_same row_here (ap (λ k. after.articles k) (sym (==→eq i id same)) ∙ there') in
          let parent' : b'.parent_id ≡ parent = ap (λ t. t.parent_id) (sym is_b) ∙ is_parent a in
          (new, ap (λ t. t.path) (sym is_b), rw (==→eq i id same, parent') fits, short)
      | inr other ↦ elim (Option-cases (s.articles i)) [
        | inl missing ↦ elim (none-some (row_none i other missing) there') [ ]
        | inr (b, there) ↦
            let is_b = some_same (row_other i b other there) there' in
            let (p, path, fits_b, short_b) = tree.each i b there in
            let parent' : b'.parent_id ≡ b.parent_id =
              ap (λ t. t.parent_id) (sym is_b)
              ∙ parent-shift (is_below old b.path) (some (reroot old new (path_or_empty b.path)))
                  b in
            (
              shifted old new p,
              ap (λ t. t.path) (sym is_b) ∙ path_of-shift old new b p path,
              rw parent' (Fits-after i b.parent_id p other fits_b),
              length-shifted old new p (high i p (row-path_of i s b there ∙ path)) short_b,
            )
      ]
    ];
    listed = λ i b' there'. elim (Bool-cases (i == id)) [
      | inl same ↦ rw (ids-after, ==→eq i id same) (tree.listed id a found)
      | inr other ↦ elim (Option-cases (s.articles i)) [
        | inl missing ↦ elim (none-some (row_none i other missing) there') [ ]
        | inr (b, there) ↦ rw ids-after (tree.listed i b there)
      ]
    ];
  }

fits_alone : (m n : ℕ) → ltb max_tree_depth (m + n) ≡ false → m ≤ 32
fits_alone m n h = ground arith

fits_in : (m n : ℕ) → ltb max_tree_depth (m + n) ≡ false → m + n ≤ 32
fits_in m n h = ground arith

-- A move keeps the tree sound: where every path was the path of the parent and the own id, an article
-- gets a parent that is not below it, and the paths of the article and of all below it are written
-- anew, every path is again the path of the parent and the own id, and none is longer than 32.
pub set_path-IsTree :
    (s s' : Library) (id : ℕ) (parent : Option ℕ) (a : ArticleRow) (f : ArticleRow → ArticleRow)
    → IsTree s
    → s.articles id ≡ some a
    → NoCycle id parent s
    → ((b : ArticleRow) → (f b).path ≡ b.path)
    → ((b : ArticleRow) → (f b).parent_id ≡ parent)
    → set_path id parent (on_article id f s) ≡ ok s'
    → IsTree s'
unfolding on_article
set_path-IsTree s s' id parent a f tree found no_cycle same_path is_parent h =
    let (old, old_path, fits_old, _) = tree.each id a found in
    let t : Library = on_article id f s in
    let new : List ℕ = new_path id parent t in
    let (fits, is) = set_path-ok id parent t h in
    let old' : path_or_empty (path_of id t) ≡ old = ap path_or_empty (
      path_of-placed s tree id a found f same_path old old_path new id
      ∙ row-path_of id s a found
      ∙ old_path) in
    let long' = length-Fits id a.parent_id old s fits_old in
    let tall = height-deepest old t long' in
    let fits' = ap (λ o. ltb max_tree_depth (length new + height o t)) (sym old') ∙ fits in
    let is' = ap (λ o. write_path id o new t) (sym old') ∙ is in
    rw (← is') (
      after-IsTree s tree id a found f same_path old old_path new parent is_parent
        (Fits-new s tree id a found f same_path old old_path new parent no_cycle refl)
        (fits_alone (length new) (height old t) fits')
        (λ i p at below.
          let (b, there, _) = path_of-row i s p at in
          let deep =
            deepest-bound t.ids old t i p (tree.listed i b there)
              (path_of-placed s tree id a found f same_path old old_path new i ∙ at) below in
          let low = fits_in (length new) (height old t) fits' in omega (arith, tall)))
