-- ===== src/Articles/Tests/Places.antt =====
-- The theorems on slugs and on the tree at a concrete library.
use heofberu_backend.Prelude.{
  ℕ, ◌≡◌, refl, true, false, List, [], ◌∷◌, Option, none, some, arith, ◌==◌, ◌||◌, if◌then◌else◌,
  Bool-cases, inl, inr, ==→eq, member,
}
use heofberu_backend.Prelude.Result.{Result, ok, err}
use heofberu_backend.Articles.Workflow.{ArticleActor, can_edit, ensure_can_edit}
use heofberu_backend.Articles.Rows.{public, ArticleRow, Library, Libs, WriteError, on_article}
use heofberu_backend.Articles.Slug.{generate_unique_slug, is_taken, next_free, suffixed, digits}
use heofberu_backend.Articles.Slug.Free.{IsSuffixed, generate_unique_slug_lem}
use heofberu_backend.Articles.Slugify.{slugify}
use heofberu_backend.Articles.Slugify.Shape.{IsSlug, slugify-IsSlug}
use heofberu_backend.Articles.Tree.{
  set_path, new_path, height, deepest, move_subtree, is_self_or_descendant,
}
use heofberu_backend.Articles.Tree.Paths.{IsTree, is_self_or_descendant-path}
use heofberu_backend.Articles.Tree.Kept.{update_article-IsTree}
use heofberu_backend.Articles.Writer.{
  Fields, patched_content, set_fields, is_revised, is_in_trees, write_state, validate_parent,
  check_subtype, check_parent, other_slugs, update_fields, write_fields, move_article, revise,
  apply_changes,
}
use heofberu_backend.Articles.Crud.{update_article}

-- the texts `inn` and `inn-2`
abbrev inn : List ℕ
inn = 105 ∷ 110 ∷ 110 ∷ []

abbrev inn_2 : List ℕ
inn_2 = 105 ∷ 110 ∷ 110 ∷ 45 ∷ 50 ∷ []

generate_unique_slug_lem_example :
    (is_taken (generate_unique_slug inn (inn_2 ∷ inn ∷ [])) (inn_2 ∷ inn ∷ []) ≡ false)
    × (is_taken inn (inn_2 ∷ inn ∷ []) ≡ false → generate_unique_slug inn (inn_2 ∷ inn ∷ []) ≡ inn)
    × (is_taken inn (inn_2 ∷ inn ∷ []) ≡ true
        → IsSuffixed inn (generate_unique_slug inn (inn_2 ∷ inn ∷ [])))
generate_unique_slug_lem_example = generate_unique_slug_lem inn (inn_2 ∷ inn ∷ [])

-- the third article gets `inn-3`
third_inn : generate_unique_slug inn (inn_2 ∷ inn ∷ []) ≡ 105 ∷ 110 ∷ 110 ∷ 45 ∷ 51 ∷ []
unfolding generate_unique_slug next_free suffixed digits
third_inn = refl

inn-IsSlug : IsSlug inn
inn-IsSlug = (omega arith, omega arith, refl, refl, refl)

slugify-IsSlug_example : IsSlug (slugify (λ text. text) (1080 ∷ 33 ∷ 110 ∷ []) inn)
slugify-IsSlug_example = slugify-IsSlug (λ text. text) (1080 ∷ 33 ∷ 110 ∷ []) inn inn-IsSlug

abbrev libs : Libs
libs = record {
  matcher = λ a b. [];
  lower = λ text. text;
  sha256 = λ parent version content. version;
}

abbrev author : ArticleActor
author = record { id = 2; is_founder = false }

abbrev page : Option ℕ → List ℕ → ArticleRow
page parent_id path = record {
  author_id = some 2;
  published_at = none;
  version = 1;
  slug = [];
  parent_id = parent_id;
  path = some path;
  content = record {
    title = inn;
    excerpt = none;
    body_markdown = [];
    article_type = 3;
    subtype_id = none;
    visibility = public;
  };
}

-- article 2 is below article 1
abbrev atlas : Library
atlas = record {
  articles = λ i.
      if i == 1
      then some (page none (1 ∷ []))
      else if i == 2
      then some (page (some 1) (1 ∷ 2 ∷ []))
      else none;
  ids = 1 ∷ 2 ∷ [];
  next_article = 3;
  revisions = λ i v. none;
  proposals = λ i. none;
  next_proposal = 0;
  subtypes = λ i. none;
  now = 50;
  purges = [];
}

atlas-IsTree : IsTree atlas
atlas-IsTree = record {
  each = λ i a found. elim (Bool-cases (i == 1)) [
    | inl same ↦
        let is : page none (1 ∷ []) ≡ a = ground arith in
        rw (← is, ==→eq i 1 same) (1 ∷ [], refl, refl, omega arith)
    | inr other ↦ elim (Bool-cases (i == 2)) [
      | inl same ↦
          let is : page (some 1) (1 ∷ 2 ∷ []) ≡ a = ground arith in
          rw (← is, ==→eq i 2 same) (1 ∷ 2 ∷ [], refl, (1 ∷ [], refl, refl), omega arith)
      | inr other' ↦ ground arith
    ]
  ];
  listed = λ i a found. ground arith;
}

is_self_or_descendant-path_example :
    is_self_or_descendant 1 2 atlas ≡ (2 == 1 || member 1 (1 ∷ 2 ∷ []))
is_self_or_descendant-path_example =
    is_self_or_descendant-path atlas atlas-IsTree 1 2 (1 ∷ 2 ∷ []) refl

-- article 2 becomes a root
abbrev to_root : Fields
to_root = record {
  title = none;
  excerpt = none;
  body_markdown = none;
  article_type = none;
  subtype_id = none;
  visibility = none;
  parent_id = some none;
}

abbrev outcome : Result WriteError Library → Library
outcome (ok s) = s
outcome (err e) = atlas

unfoldable relocated : Library
unfolding update_article write_state ensure_can_edit can_edit apply_changes check_subtype
    check_parent validate_parent write_fields update_fields other_slugs set_fields patched_content
    on_article move_article set_path new_path height deepest move_subtree revise is_revised
    is_in_trees
relocated = outcome (update_article libs 2 to_root none author atlas atlas)

moves : update_article libs 2 to_root none author atlas atlas ≡ ok relocated
unfolding relocated update_article write_state ensure_can_edit can_edit apply_changes check_subtype
    check_parent validate_parent write_fields update_fields other_slugs set_fields patched_content
    on_article move_article set_path new_path height deepest move_subtree revise is_revised
    is_in_trees
moves = refl

update_article-IsTree_example : IsTree relocated
update_article-IsTree_example =
    update_article-IsTree libs 2 to_root none author atlas atlas relocated moves atlas-IsTree
