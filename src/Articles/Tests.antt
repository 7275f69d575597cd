-- ===== src/Articles/Tests.antt =====
-- The theorems on articles at concrete articles and texts.
mod Places
mod Proposals
mod Races
use heofberu_backend.Prelude.{
  ℕ, ◌+◌, ◌-◌, ◌≡◌, ◌≢◌, ◌↔◌, refl, ap, sym, ◌∙◌, true, false, List, [], ◌∷◌, none, some, arith,
  ◌==◌, if◌then◌else◌, length, take, drop, Bool-cases, inl, inr, update,
}
use heofberu_backend.Prelude.Result.{ok}
use heofberu_backend.Articles.Workflow.{
  in_review, published, archived, publish, archive, Article, Store, ArticleActor, transition,
  answer, transition_status, check_submit, allowed_from, target, is_review_action, moved,
}
use heofberu_backend.Articles.Workflow.Moves.{decided, transition-decided}
use heofberu_backend.Articles.Workflow.Publication.{
  acts, Reach, stays, goes, StampedAt, IsDated, Reach-keeps_published_at, Reach-IsDated,
}
use heofberu_backend.Articles.Merge.{
  Line, line, same_line, same_lines, Block, slice, merge_text, merge_value,
}
use heofberu_backend.Articles.Merge.OneSided.{
  IsMatcher, equal_blocks, Matching, merge_text-untouched,
}
use heofberu_backend.Articles.Merge.Slices.{same_lines_refl}
use heofberu_backend.Articles.Merge.Values.{merge_value_lem}

abbrev founder : ArticleActor
founder = record { id = 1; is_founder = true }

abbrev reviewed : Article
reviewed = record {
  author_id = some 2;
  status = in_review;
  version = 3;
  published_at = none;
  reviewed_by_id = none;
}

abbrev shelf : Store
shelf = record { articles = λ id. if id == 5 then some reviewed else none; now = 100 }

transition-decided_example :
    transition 5 publish founder (some 3) shelf ≡ decided 5 publish founder (some 3) shelf reviewed
transition-decided_example = transition-decided 5 publish founder (some 3) shelf reviewed refl

-- after the publication
abbrev printed : Store
printed = record {
  articles = update shelf.articles 5 (
      some
        (record reviewed { status = published; reviewed_by_id = some 1; published_at = some 100 }));
  now = 100;
}

prints : transition 5 publish founder (some 3) shelf ≡ ok printed
unfolding transition answer transition_status check_submit allowed_from target is_review_action
    moved
prints = refl

abbrev retired : Store
retired = record {
  articles = update printed.articles 5 (
      some
        (record reviewed { status = archived; reviewed_by_id = some 1; published_at = some 100 }));
  now = 100;
}

retires : transition 5 archive founder none printed ≡ ok retired
unfolding transition answer transition_status check_submit allowed_from target is_review_action
    moved
retires = refl

retired_later : Reach printed retired
retired_later =
    goes printed retired retired (acts 5 archive founder none printed retired retires)
      (stays retired)

stamped : StampedAt 5 100 printed
stamped = (
  record reviewed { status = published; reviewed_by_id = some 1; published_at = some 100 },
  refl,
  refl,
)

Reach-keeps_published_at_example : StampedAt 5 100 retired
Reach-keeps_published_at_example =
    Reach-keeps_published_at 5 100 printed retired retired_later stamped

shelf-IsDated : IsDated shelf
shelf-IsDated id a h public = ground arith

printed_now : Reach shelf printed
printed_now =
    goes shelf printed printed (acts 5 publish founder (some 3) shelf printed prints)
      (stays printed)

Reach-IsDated_example : IsDated printed
Reach-IsDated_example = Reach-IsDated shelf printed printed_now shelf-IsDated

-- a matcher that finds whole texts only
abbrev coarse : List Line → List Line → List Block
coarse x y =
    if same_lines x y
    then equal_blocks (length x)
    else record { a = length x; b = length y; size = 0 } ∷ []

same_line_sound : (x y : Line) → same_line x y ≡ true → x ≡ y
same_line_sound x y h = ground arith

same_lines_sound : (x y : List Line) → same_lines x y ≡ true → x ≡ y
same_lines_sound [] [] h = refl
same_lines_sound [] (y ∷ ys) h = cc
same_lines_sound (x ∷ xs) [] h = cc
same_lines_sound (x ∷ xs) (y ∷ ys) h =
    ground (arith, same_line_sound x y (ground arith), same_lines_sound xs ys (ground arith))

empty_slice : (i : ℕ) (x : List Line) → slice i (i + 0) x ≡ []
empty_slice i x = ap (λ k. take k (drop i x)) {x = i + 0 - i} {y = 0} (omega arith)

equal-Matching : (x : List Line) → Matching x x (equal_blocks (length x)) 0 0
equal-Matching [] = (omega arith, omega arith, omega arith, omega arith, refl, tt)
equal-Matching (x ∷ xs) = (
  omega arith,
  omega arith,
  omega arith,
  omega arith,
  refl,
  (omega arith, omega arith, omega arith, omega arith, refl, tt),
)

coarse-Matching : (x y : List Line) → Matching x y (coarse x y) 0 0
coarse-Matching x y = elim (Bool-cases (same_lines x y)) [
  | inl same ↦ rw same (rw (← same_lines_sound x y same) (equal-Matching x))
  | inr other ↦ rw other (
    omega arith,
    omega arith,
    omega arith,
    omega arith,
    empty_slice (length x) x ∙ sym (empty_slice (length y) y),
    tt,
  )
]

coarse-IsMatcher : IsMatcher coarse
coarse-IsMatcher = (λ x. rw (same_lines_refl x) refl, coarse-Matching)

abbrev before : List Line
before = line 1 true ∷ line 2 true ∷ []

abbrev after : List Line
after = line 1 true ∷ line 3 false ∷ []

merge_text-untouched_example :
    merge_text coarse before before after ≡ record { text = after; conflicts = [] }
merge_text-untouched_example = merge_text-untouched coarse before after coarse-IsMatcher
