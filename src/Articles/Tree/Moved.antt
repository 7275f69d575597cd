-- ===== src/Articles/Tree/Moved.antt =====
-- What a change of the tree leaves alone: the paths and the parents of the articles change, and
-- nothing else.
use heofberu_backend.Prelude.{
  ℕ, ◌+◌, ◌≡◌, refl, sym, ap, ◌∙◌, Bool, true, false, not, ◌&&◌, List, [], ◌∷◌, Option, none, some,
  ◌==◌, ltb, if◌then◌else◌, length, arith, Bool-cases, inl, inr, ==→eq,
}
use heofberu_backend.Prelude.Result.{Result, ok, bind-ok, raise_if-ok, ok-injective}
use heofberu_backend.Articles.Rows.{
  ArticleRow, Library, on_article, map_row, WriteError, tree_too_deep,
}
use heofberu_backend.Articles.Tree.{
  path_of, path_or_empty, new_path, height, max_tree_depth, is_below, reroot, move_subtree,
  move_below, set_path, set_roots, child_ids, write_path, detach_list, detach_from, detach_children,
}

-- a row without its place in the tree
abbrev pub unplaced : ArticleRow → ArticleRow
unplaced a = record a { path = none; parent_id = none }

-- the rows of an article, of the revisions and of the proposals, but for the places in the tree
pub record Moved (s s' : Library) : Type 0 where
  pub rows : (i : ℕ) → map_row unplaced (s.articles i) ≡ map_row unplaced (s'.articles i)
  pub ids : s.ids ≡ s'.ids
  pub next_article : s.next_article ≡ s'.next_article
  pub revisions : s.revisions ≡ s'.revisions
  pub proposals : s.proposals ≡ s'.proposals
  pub next_proposal : s.next_proposal ≡ s'.next_proposal

pub Moved-refl : (s : Library) → Moved s s
Moved-refl s = record {
  rows = λ i. refl;
  ids = refl;
  next_article = refl;
  revisions = refl;
  proposals = refl;
  next_proposal = refl;
}

pub Moved-trans : (s s' s'' : Library) → Moved s s' → Moved s' s'' → Moved s s''
Moved-trans s s' s'' m m' = record {
  rows = λ i. m.rows i ∙ m'.rows i;
  ids = m.ids ∙ m'.ids;
  next_article = m.next_article ∙ m'.next_article;
  revisions = m.revisions ∙ m'.revisions;
  proposals = m.proposals ∙ m'.proposals;
  next_proposal = m.next_proposal ∙ m'.next_proposal;
}

pub map_row-back :
    (f : ArticleRow → ArticleRow) (row : Option ArticleRow) (b : ArticleRow)
    → map_row f row ≡ some b
    → (a : ArticleRow) × (row ≡ some a) × (f a ≡ b)
map_row-back f none b h = cc
map_row-back f (some a) b h = (a, refl, ground arith)

-- a write of each row that keeps all but its place
map_row-unplaced :
    (f : ArticleRow → ArticleRow)
    → ((a : ArticleRow) → unplaced (f a) ≡ unplaced a)
    → (row : Option ArticleRow) → map_row unplaced row ≡ map_row unplaced (map_row f row)
map_row-unplaced f keeps none = refl
map_row-unplaced f keeps (some a) = ap (λ b. some b) (sym (keeps a))

pub on_article-Moved :
    (article_id : ℕ) (f : ArticleRow → ArticleRow) (s : Library)
    → ((a : ArticleRow) → unplaced (f a) ≡ unplaced a)
    → Moved s (on_article article_id f s)
unfolding on_article
on_article-Moved article_id f s keeps = record {
  rows = λ i. elim (Bool-cases (i == article_id)) [
    | inl same ↦
        rw same (rw (==→eq i article_id same) (map_row-unplaced f keeps (s.articles article_id)))
    | inr other ↦ rw other refl
  ];
  ids = refl;
  next_article = refl;
  revisions = refl;
  proposals = refl;
  next_proposal = refl;
}

unplaced-if :
    (c : Bool) (p : Option (List ℕ)) (a : ArticleRow)
    → unplaced (if c then record a { path = p } else a) ≡ unplaced a
unplaced-if true p a = refl
unplaced-if false p a = refl

pub move_subtree-Moved :
    (article_id : ℕ) (old new : List ℕ) (s : Library) → Moved s (move_subtree article_id old new s)
unfolding move_subtree
move_subtree-Moved article_id old new s = record {
  rows = λ i.
      map_row-unplaced _
        (λ a.
          unplaced-if (not (i == article_id) && is_below old a.path)
            (some (reroot old new (path_or_empty a.path))) a)
        (s.articles i);
  ids = refl;
  next_article = refl;
  revisions = refl;
  proposals = refl;
  next_proposal = refl;
}

move_below-Moved :
    (article_id : ℕ) (old new : List ℕ) (s : Library) → Moved s (move_below article_id old new s)
move_below-Moved article_id [] new s = Moved-refl s
move_below-Moved article_id (x ∷ xs) new s = move_subtree-Moved article_id (x ∷ xs) new s

write_path-Moved :
    (article_id : ℕ) (old new : List ℕ) (s : Library) → Moved s (write_path article_id old new s)
write_path-Moved article_id old new s =
    let placed : Library = on_article article_id (λ a. record a { path = some new }) s in
    Moved-trans s placed (write_path article_id old new s)
      (on_article-Moved article_id (λ a. record a { path = some new }) s (λ a. refl))
      (move_below-Moved article_id old new placed)

-- what `set_path` answers
pub set_path-ok :
    (article_id : ℕ) (parent_id : Option ℕ) (s : Library) {s' : Library}
    → set_path article_id parent_id s ≡ ok s'
    → (ltb max_tree_depth (
          length (new_path article_id parent_id s)
          + height (path_or_empty (path_of article_id s)) s)
        ≡ false)
      × (write_path article_id
            (path_or_empty (path_of article_id s))
            (new_path article_id parent_id s)
            s
          ≡ s')
unfolding set_path
set_path-ok article_id parent_id s h =
    let new : List ℕ = new_path article_id parent_id s in
    let old : List ℕ = path_or_empty (path_of article_id s) in
    let (fits, is) =
      raise_if-ok (ltb max_tree_depth (length new + height old s))
        (tree_too_deep article_id max_tree_depth) (ok (write_path article_id old new s)) h in
    (fits, ok-injective is)

pub set_path-Moved :
    (article_id : ℕ) (parent_id : Option ℕ) (s s' : Library)
    → set_path article_id parent_id s ≡ ok s'
    → Moved s s'
set_path-Moved article_id parent_id s s' h =
    let (_, is) = set_path-ok article_id parent_id s h in
    rw (← is) (
      write_path-Moved article_id (path_or_empty (path_of article_id s))
        (new_path article_id parent_id s) s)

ok-Moved :
    (s s' s'' : Library)
    → Moved s s'
    → ◌≡◌ {A = Result WriteError Library} (ok s') (ok s'')
    → Moved s s''
ok-Moved s s' s'' m h = let is : s' ≡ s'' = ok-injective h in rw (← is) m

pub set_roots-Moved :
    (children : List ℕ) (s s' : Library) → set_roots children s ≡ ok s' → Moved s s'
unfolding set_roots
set_roots-Moved [] s s' h = ok-Moved s s s' (Moved-refl s) h
set_roots-Moved (child_id ∷ children) s s' h =
    let (middle, first, rest) = bind-ok (set_path child_id none s) (λ t. set_roots children t) h in
    Moved-trans s middle s' (set_path-Moved child_id none s middle first)
      (set_roots-Moved children middle s' rest)

detach_from-Moved :
    (article_id : ℕ) (children : List ℕ) (path : Option (List ℕ)) (s s' : Library)
    → detach_from article_id children path s ≡ ok s'
    → Moved s s'
detach_from-Moved article_id children none s s' h = set_roots-Moved children s s' h
detach_from-Moved article_id children (some path) s s' h =
    ok-Moved s _ s' (move_subtree-Moved article_id path [] s) h

detach_list-Moved :
    (article_id : ℕ) (children : List ℕ) (s s' : Library)
    → detach_list article_id children s ≡ ok s'
    → Moved s s'
detach_list-Moved article_id [] s s' h = ok-Moved s s s' (Moved-refl s) h
detach_list-Moved article_id (child_id ∷ children) s s' h =
    detach_from-Moved article_id (child_id ∷ children) (path_of article_id s) s s' h

pub detach_children-Moved :
    (article_id : ℕ) (s s' : Library) → detach_children article_id s ≡ ok s' → Moved s s'
unfolding detach_children
detach_children-Moved article_id s s' h =
    detach_list-Moved article_id (child_ids article_id s) s s' h
