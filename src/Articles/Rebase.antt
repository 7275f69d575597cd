-- ===== src/Articles/Rebase.antt =====
-- app/features/articles/proposals/service.py: the three-way merge of a proposal onto a newer version, the
-- fields each as a whole and the body by its lines.
use heofberu_backend.Prelude.{
  ℕ, Bool, true, false, List, [], ◌∷◌, ◌++◌, Option, none, some, ◌==◌, if◌then◌else◌, opt_eq,
  same_list,
}
use heofberu_backend.Prelude.Result.{Result, ok, ◌>>=◌, ◌>>◌}
use heofberu_backend.Articles.Merge.{Line, merge_value, TextMerge, merge_text}
use heofberu_backend.Articles.Rows.{
  ArticleVisibility, public, gm_only, Content, ArticleRevision, ArticleProposal, Library,
  WriteError, revision_missing, proposal_conflict, FieldConflict, title_conflict, excerpt_conflict,
  article_type_conflict, subtype_conflict, visibility_conflict, Libs, or_missing,
}
use heofberu_backend.Articles.Writer.{validate_subtype}

abbrev pub same_visibility : ArticleVisibility → ArticleVisibility → Bool
same_visibility public public = true
same_visibility gm_only gm_only = true
same_visibility _ _ = false

abbrev pub same_number : ℕ → ℕ → Bool
same_number m n = m == n

-- the conflict of a field, where its merge is CONFLICT
abbrev pub conflict_of : {A : Type 0} → Option A → FieldConflict → List FieldConflict
conflict_of none conflict = conflict ∷ []
conflict_of (some _) conflict = []

-- the conflicts of `DIFF_FIELDS`
unfoldable pub field_conflicts : Content → Content → Content → List FieldConflict
unfolding merge_value
field_conflicts b c p =
    conflict_of (merge_value same_list b.title c.title p.title)
      (title_conflict b.title c.title p.title)
    ++ conflict_of (merge_value opt_eq b.excerpt c.excerpt p.excerpt)
        (excerpt_conflict b.excerpt c.excerpt p.excerpt)
    ++ conflict_of (merge_value same_number b.article_type c.article_type p.article_type)
        (article_type_conflict b.article_type c.article_type p.article_type)
    ++ conflict_of (merge_value opt_eq b.subtype_id c.subtype_id p.subtype_id)
        (subtype_conflict b.subtype_id c.subtype_id p.subtype_id)
    ++ conflict_of (merge_value same_visibility b.visibility c.visibility p.visibility)
        (visibility_conflict b.visibility c.visibility p.visibility)

-- a content of merged fields, where none of them is CONFLICT
abbrev pub content_of :
    Option (List ℕ)
    → Option (Option ℕ)
    → List Line
    → Option ℕ
    → Option (Option ℕ)
    → Option ArticleVisibility
    → Option Content
content_of (some title) (some excerpt) body (some article_type) (some subtype_id)
      (some visibility) =
    some record {
      title = title;
      excerpt = excerpt;
      body_markdown = body;
      article_type = article_type;
      subtype_id = subtype_id;
      visibility = visibility;
    }
content_of _ _ _ _ _ _ = none

-- the merge of the fields, around a merged body
unfoldable pub merged_content : Content → Content → Content → List Line → Option Content
unfolding merge_value
merged_content b c p body =
    content_of (merge_value same_list b.title c.title p.title)
      (merge_value opt_eq b.excerpt c.excerpt p.excerpt) body
      (merge_value same_number b.article_type c.article_type p.article_type)
      (merge_value opt_eq b.subtype_id c.subtype_id p.subtype_id)
      (merge_value same_visibility b.visibility c.visibility p.visibility)

abbrev pub is_empty : {A : Type 0} → List A → Bool
is_empty [] = true
is_empty (_ ∷ _) = false

-- what the merge of the bodies and of the fields comes to
unfoldable pub merged_or_conflict :
    ℕ → Content → Content → Content → TextMerge → Library → Result WriteError Content
unfolding field_conflicts merged_content validate_subtype
merged_or_conflict proposal_id b c p body s = do
  content ←
      or_missing (if is_empty body.conflicts then merged_content b c p body.text else none)
        (proposal_conflict proposal_id (field_conflicts b c p) body.conflicts body.text)
  validate_subtype content.subtype_id content.article_type s
  ok content

-- `_revision_or_404`
unfoldable pub revision_or_missing : ℕ → ℕ → Library → Result WriteError ArticleRevision
revision_or_missing article_id version s =
    or_missing (s.revisions article_id version) (revision_missing article_id version)

-- `_merge_or_conflict`
unfoldable pub merge_or_conflict :
    Libs → ℕ → ArticleProposal → ℕ → Library → Result WriteError Content
unfolding revision_or_missing merge_text merged_or_conflict
merge_or_conflict libs proposal_id p onto_version s = do
  base ← revision_or_missing p.article_id p.base_version s
  current ← revision_or_missing p.article_id onto_version s
  merged_or_conflict proposal_id base.content current.content p.content
      (merge_text libs.matcher base.content.body_markdown current.content.body_markdown
        p.content.body_markdown)
      s
