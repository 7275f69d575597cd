-- ===== src/Articles/Merge.antt =====
-- app/features/articles/revisions/merge.py: the three-way merge of a proposal. A text is the list of
-- its lines; `SequenceMatcher(None, a, b, autojunk=False).get_matching_blocks()` is a parameter.
pub mod Slices
pub mod OneSided
pub mod Values
use heofberu_backend.Prelude.{
  ℕ, ◌+◌, ◌-◌, ◌≡◌, refl, Bool, true, false, not, ◌&&◌, ◌||◌, List, [], ◌∷◌, ◌++◌, Option, none,
  some, ltb, ◌==◌, if◌then◌else◌, length, take, drop, max, min,
}

-- `merge_value`, with `none` for CONFLICT
-- (the first argument is the `==` of the values)
unfoldable pub merge_value : {A : Type 0} → (A → A → Bool) → A → A → A → Option A
merge_value same base current proposed =
    if same proposed base
    then some current
    else if same current base || same current proposed
    then some proposed
    else none

-- a line: its text, numbered, and whether it ends in a newline; the markers are lines of their own
pub data Line : Type 0 where
  line : ℕ → Bool → Line
  mark_current mark_base mark_middle mark_proposal : Line

abbrev pub same_bool : Bool → Bool → Bool
same_bool true b = b
same_bool false b = not b

abbrev pub same_line : Line → Line → Bool
same_line (line t e) (line t' e') = t == t' && same_bool e e'
same_line mark_current mark_current = true
same_line mark_base mark_base = true
same_line mark_middle mark_middle = true
same_line mark_proposal mark_proposal = true
same_line _ _ = false

-- `xs == ys`
abbrev pub same_lines : List Line → List Line → Bool
same_lines [] [] = true
same_lines (x ∷ xs) (y ∷ ys) = same_line x y && same_lines xs ys
same_lines _ _ = false

-- a matching block: `size` lines at `a` of the first text are those at `b` of the second
pub record Block : Type 0 where
  pub a : ℕ
  pub b : ℕ
  pub size : ℕ

-- lines of `base` that both sides left untouched, and where they stand in the other two texts
pub record Region : Type 0 where
  pub base_start : ℕ
  pub base_end : ℕ
  pub current_start : ℕ
  pub proposed_start : ℕ

-- the common part of two blocks, where it has lines
unfoldable pub common : Block → Block → List Region
common c p =
    let start = max c.a p.a in
    let end = min (c.a + c.size) (p.a + p.size) in
    if ltb start end
    then record {
      base_start = start;
      base_end = end;
      current_start = c.b + start - c.a;
      proposed_start = p.b + start - p.a;
    }
      ∷ []
    else []

-- the loop of `_sync_regions`
unfoldable pub common_regions : List Block → List Block → List Region
unfolding common
common_regions [] ps = []
common_regions (c ∷ cs) [] = []
common_regions (c ∷ cs) (p ∷ ps) = common c p ++ elim (ltb (c.a + c.size) (p.a + p.size)) [
  | true ↦ common_regions cs (p ∷ ps)
  | false ↦ common_regions (c ∷ cs) ps
]

-- `_sync_regions`
unfoldable pub sync_regions :
    (List Line → List Line → List Block) → List Line → List Line → List Line → List Region
unfolding common_regions
sync_regions matcher base current proposed =
    common_regions (matcher base current) (matcher base proposed)
    ++ record {
      base_start = length base;
      base_end = length base;
      current_start = length current;
      proposed_start = length proposed;
    }
      ∷ []

abbrev pub end_line : Line → Line
end_line (line text _) = line text true
end_line mark = mark

-- `_terminated`
unfoldable pub terminated : List Line → List Line
terminated [] = []
terminated (x ∷ []) = end_line x ∷ []
terminated (x ∷ y ∷ ys) = x ∷ terminated (y ∷ ys)

-- `xs[start:stop]`
abbrev pub slice : ℕ → ℕ → List Line → List Line
slice start stop xs = take (stop - start) (drop start xs)

pub record Conflict : Type 0 where
  pub base : List Line
  pub current : List Line
  pub proposed : List Line

pub record TextMerge : Type 0 where
  pub text : List Line
  pub conflicts : List Conflict

-- what one hunk adds to the merged text and to the conflicts
unfoldable pub merge_hunk : List Line → List Line → List Line → TextMerge
unfolding terminated
merge_hunk b_hunk c_hunk p_hunk =
    if same_lines c_hunk b_hunk
    then record { text = p_hunk; conflicts = [] }
    else if same_lines p_hunk b_hunk || same_lines p_hunk c_hunk
    then record { text = c_hunk; conflicts = [] }
    else record {
      text =
          mark_current ∷ terminated c_hunk
          ++ mark_base ∷ terminated b_hunk
          ++ mark_middle ∷ terminated p_hunk
          ++ mark_proposal ∷ [];
      conflicts = record { base = b_hunk; current = c_hunk; proposed = p_hunk } ∷ [];
    }

-- the loop of `merge_text` over the regions, from the places that it has reached
unfoldable pub merge_from : List Line → List Line → List Line → List Region → ℕ → ℕ → ℕ → TextMerge
unfolding merge_hunk
merge_from b c p [] b_at c_at p_at = record { text = []; conflicts = [] }
merge_from b c p (r ∷ rs) b_at c_at p_at =
    let hunk =
      merge_hunk (slice b_at r.base_start b) (slice c_at r.current_start c)
        (slice p_at r.proposed_start p) in
    let size = r.base_end - r.base_start in
    let rest = merge_from b c p rs r.base_end (r.current_start + size) (r.proposed_start + size) in
    record {
      text = hunk.text ++ slice r.base_start r.base_end b ++ rest.text;
      conflicts = hunk.conflicts ++ rest.conflicts;
    }

-- `merge_text`
unfoldable pub merge_text :
    (List Line → List Line → List Block) → List Line → List Line → List Line → TextMerge
unfolding sync_regions merge_from
merge_text matcher base current proposed =
    merge_from base current proposed (sync_regions matcher base current proposed) 0 0 0
