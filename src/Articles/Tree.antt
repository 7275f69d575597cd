-- ===== src/Articles/Tree.antt =====
-- app/features/articles/tree/repository.py: the paths of the article tree. Every change of the tree
-- runs under its lock, so that a change sees the rows as they are.
pub mod Moved
pub mod Prefix
pub mod Paths
pub mod Shift
pub mod Move
pub mod Kept
use heofberu_backend.Prelude.{
  ℕ, zero, suc, ◌+◌, ◌-◌, Bool, true, false, not, ◌&&◌, ◌||◌, List, [], ◌∷◌, ◌++◌, Option, none,
  some, ◌==◌, ltb, if◌then◌else◌, is_some, is_none, update, length, drop, max, member, starts_with,
  opt_eq, keep, any,
}
use heofberu_backend.Prelude.Result.{⊤, Result, ok, err, ◌>>=◌, ◌>>◌, raise_if}
use heofberu_backend.Articles.Rows.{
  ArticleRow, Library, WriteError, tree_too_deep, on_article, map_row, Purge,
}

abbrev pub max_tree_depth : ℕ
max_tree_depth = 32

-- the levels that the recursive query walks at most
abbrev pub chain_depth : ℕ
chain_depth = 256

abbrev pub parent_of : ℕ → Library → Option ℕ
parent_of article_id s = elim (s.articles article_id) [ none ↦ none | some a ↦ a.parent_id ]

abbrev pub path_of : ℕ → Library → Option (List ℕ)
path_of article_id s = elim (s.articles article_id) [ none ↦ none | some a ↦ a.path ]

-- the path of a row that has one, and of no row the empty path
abbrev pub path_or_empty : Option (List ℕ) → List ℕ
path_or_empty none = []
path_or_empty (some p) = p

-- `_ancestor_chain`: from the root down to the article, for so many levels at most
unfoldable pub ancestor_chain : ℕ → ℕ → Library → List ℕ
ancestor_chain zero article_id s = []
ancestor_chain (suc depth) article_id s = elim (s.articles article_id) [
  | none ↦ []
  | some a ↦
      elim a.parent_id [ none ↦ [] | some parent_id ↦ ancestor_chain depth parent_id s ]
      ++ article_id ∷ []
]

unfoldable pub is_self_or_descendant : ℕ → ℕ → Library → Bool
unfolding ancestor_chain
is_self_or_descendant article_id candidate_id s =
    candidate_id == article_id || member article_id (ancestor_chain chain_depth candidate_id s)

-- the path under a parent; a parent without a path is resolved by its own parents
abbrev pub under : ℕ → ℕ → Library → List ℕ → List ℕ
under article_id parent_id s [] = ancestor_chain chain_depth parent_id s ++ article_id ∷ []
under article_id parent_id s (x ∷ xs) = (x ∷ xs) ++ article_id ∷ []

unfoldable pub new_path : ℕ → Option ℕ → Library → List ℕ
unfolding ancestor_chain
new_path article_id none s = article_id ∷ []
new_path article_id (some parent_id) s =
    under article_id parent_id s (path_or_empty (path_of parent_id s))

-- `path <@ old`
abbrev pub is_below : List ℕ → Option (List ℕ) → Bool
is_below old none = false
is_below old (some path) = starts_with old path

-- `max(nlevel(path))` of the rows below a path
unfoldable pub deepest : List ℕ → List ℕ → Library → ℕ
deepest [] old s = 0
deepest (i ∷ ids) old s =
    let rest = deepest ids old s in
    if is_below old (path_of i s) then max (length (path_or_empty (path_of i s))) rest else rest

unfoldable pub height : List ℕ → Library → ℕ
unfolding deepest
height [] s = 0
height (x ∷ xs) s = deepest s.ids (x ∷ xs) s - length (x ∷ xs)

-- a path whose first part is replaced
abbrev pub reroot : List ℕ → List ℕ → List ℕ → List ℕ
reroot old new path = new ++ drop (length old) path

-- `UPDATE articles SET path = new || subpath(path, nlevel(old)) WHERE path <@ old AND id != article_id`
unfoldable pub move_subtree : ℕ → List ℕ → List ℕ → Library → Library
move_subtree article_id old new s = record s {
  articles = λ i.
      map_row
        (λ a.
          if not (i == article_id) && is_below old a.path
          then record a { path = some (reroot old new (path_or_empty a.path)) }
          else a)
        (s.articles i);
}

-- the second UPDATE of `set_path`, which runs where the article had a path
abbrev pub move_below : ℕ → List ℕ → List ℕ → Library → Library
move_below article_id [] new s = s
move_below article_id (x ∷ xs) new s = move_subtree article_id (x ∷ xs) new s

-- the two UPDATEs of `set_path`
abbrev pub write_path : ℕ → List ℕ → List ℕ → Library → Library
write_path article_id old new s =
    move_below article_id old new (on_article article_id (λ a. record a { path = some new }) s)

unfoldable pub set_path : ℕ → Option ℕ → Library → Result WriteError Library
unfolding new_path height on_article move_subtree
set_path article_id parent_id s =
    let new : List ℕ = new_path article_id parent_id s in
    let old : List ℕ = path_or_empty (path_of article_id s) in
    raise_if (ltb max_tree_depth (length new + height old s))
      (tree_too_deep article_id max_tree_depth)
    >> ok (write_path article_id old new s)

-- the direct children of an article
abbrev pub child_ids : ℕ → Library → List ℕ
child_ids article_id s = keep (λ i. opt_eq (parent_of i s) (some article_id)) s.ids

-- `set_path(child_id, None)` for each child
unfoldable pub set_roots : List ℕ → Library → Result WriteError Library
unfolding set_path
set_roots [] s = ok s
set_roots (child_id ∷ children) s = set_path child_id none s >>= λ s'. set_roots children s'

-- the paths of a subtree when its root goes
abbrev pub detach_from : ℕ → List ℕ → Option (List ℕ) → Library → Result WriteError Library
detach_from article_id children none s = set_roots children s
detach_from article_id children (some path) s = ok (move_subtree article_id path [] s)

-- without children nothing changes
abbrev pub detach_list : ℕ → List ℕ → Library → Result WriteError Library
detach_list article_id [] s = ok s
detach_list article_id (child_id ∷ children) s =
    detach_from article_id (child_id ∷ children) (path_of article_id s) s

-- `detach_children`
unfoldable pub detach_children : ℕ → Library → Result WriteError Library
unfolding move_subtree set_roots
detach_children article_id s = detach_list article_id (child_ids article_id s) s
