-- ===== src/Articles/Proposals/Contents.antt =====
-- What an acceptance takes as the content: the proposal's, or its three-way merge, told apart from the
-- code that computes it.
use heofberu_backend.Prelude.{
  opt_eq→eq, some_same, ℕ, ◌≡◌, ◌≢◌, ◌⊎◌, refl, sym, ap, ◌∙◌, Bool, true, false, List, [], ◌∷◌,
  Option, none, some, arith, inl, inr, opt_eq, same_list, same_list→eq, ◌==◌, ==→eq, eq→==,
  Bool-cases, if◌then◌else◌,
}
use mathlib.Core.Path.{subst}
use heofberu_backend.Prelude.Result.{ok, ◌>>=◌, bind-ok, then-ok, ok-injective}
use heofberu_backend.Articles.Merge.{Line, merge_value, TextMerge, Conflict, merge_text}
use heofberu_backend.Articles.Rows.{
  ArticleVisibility, Content, ArticleRevision, ArticleProposal, Library, Libs, WriteError,
  revision_missing, proposal_conflict,
}
use heofberu_backend.Articles.Rebase.{
  same_visibility, same_number, field_conflicts, content_of, merged_content, is_empty,
  merged_or_conflict, revision_or_missing, merge_or_conflict,
}
use heofberu_backend.Articles.Writer.{validate_subtype}
use heofberu_backend.Articles.Writer.Effect.{or_missing-ok}
use heofberu_backend.Articles.Proposals.{accept_content}

-- the three-way merge of a field: the proposer left it as it was in the base, or nobody else changed it,
-- or both changed it to one value
abbrev pub IsMerge : {A : Type 0} → A → A → A → A → Type 0
IsMerge base current proposed merged =
    ((proposed ≡ base) × (merged ≡ current))
    ⊎ (((current ≡ base) ⊎ (current ≡ proposed)) × (merged ≡ proposed))

-- the merge of a content, field by field, with a body that merges without a conflict
pub record IsMergedContent (libs : Libs) (b c p merged : Content) : Type 0 where
  pub title : IsMerge b.title c.title p.title merged.title
  pub excerpt : IsMerge b.excerpt c.excerpt p.excerpt merged.excerpt
  pub article_type : IsMerge b.article_type c.article_type p.article_type merged.article_type
  pub subtype_id : IsMerge b.subtype_id c.subtype_id p.subtype_id merged.subtype_id
  pub visibility : IsMerge b.visibility c.visibility p.visibility merged.visibility
  pub body :
      merge_text libs.matcher b.body_markdown c.body_markdown p.body_markdown
      ≡ record { text = merged.body_markdown; conflicts = [] }

-- the content of an acceptance and the version that it goes onto
abbrev pub IsAcceptedContent : Libs → ArticleProposal → ℕ → Bool → Library → Content → ℕ → Type 0
IsAcceptedContent libs p version rebases read content onto_version =
    (((rebases ≡ false) ⊎ (version ≡ p.base_version))
      × (content ≡ p.content)
      × (onto_version ≡ p.base_version))
    ⊎ ((rebases ≡ true)
        × (version ≢ p.base_version)
        × (onto_version ≡ version)
        × ((base current : ArticleRevision) × (read.revisions p.article_id p.base_version
              ≡ some base)
            × (read.revisions p.article_id version ≡ some current)
            × IsMergedContent libs base.content current.content p.content content))

merge_value-IsMerge :
    {A : Type 0} (same : A → A → Bool) (b c p m : A)
    → ((x y : A) → same x y ≡ true → x ≡ y)
    → merge_value same b c p ≡ some m
    → IsMerge b c p m
unfolding merge_value
merge_value-IsMerge same b c p m sound h = elim (Bool-cases (same p b)) [
  | inl left ↦ inl (sound p b left, sym (some_same refl (ground (arith, left, h))))
  | inr changed ↦ elim (Bool-cases (same c b)) [
    | inl alone ↦
        inr (inl (sound c b alone), sym (some_same refl (ground (arith, changed, alone, h))))
    | inr both ↦ elim (Bool-cases (same c p)) [
      | inl agreed ↦
          inr (
            inr (sound c p agreed),
            sym (some_same refl (ground (arith, changed, both, agreed, h))),
          )
      | inr apart ↦ absurd (ground (arith, changed, both, apart, h))
    ]
  ]
]

same_visibility→eq : (x y : ArticleVisibility) → same_visibility x y ≡ true → x ≡ y
same_visibility→eq x y h = ground arith

abbrev fields_of : List ℕ → Option ℕ → List Line → ℕ → Option ℕ → ArticleVisibility → Content
fields_of title excerpt body article_type subtype_id visibility = record {
  title = title;
  excerpt = excerpt;
  body_markdown = body;
  article_type = article_type;
  subtype_id = subtype_id;
  visibility = visibility;
}

whole_merge :
    (body : TextMerge) (text : List Line)
    → body.text ≡ text
    → body.conflicts ≡ []
    → body ≡ record { text = text; conflicts = [] }
whole_merge body text same clean =
    ap (λ t. record { text = t; conflicts = body.conflicts }) same
    ∙ ap (λ c. record { text = text; conflicts = c }) clean

-- a merge goes on only without conflicts
if_merged :
    (conflicts : List Conflict) (o : Option Content) (m : Content)
    → (if is_empty conflicts then o else none) ≡ some m
    → (conflicts ≡ []) × (o ≡ some m)
if_merged [] o m h = (refl, h)
if_merged (x ∷ xs) o m h = cc

-- a content of merged fields has the fields
content_of-ok :
    (title : Option (List ℕ)) (excerpt : Option (Option ℕ)) (body : List Line)
    (article_type : Option ℕ) (subtype_id : Option (Option ℕ))
    (visibility : Option ArticleVisibility) (m : Content)
    → content_of title excerpt body article_type subtype_id visibility ≡ some m
    → (title ≡ some m.title)
      × (excerpt ≡ some m.excerpt)
      × (body ≡ m.body_markdown)
      × (article_type ≡ some m.article_type)
      × (subtype_id ≡ some m.subtype_id)
      × (visibility ≡ some m.visibility)
content_of-ok none excerpt body article_type subtype_id visibility m h = cc
content_of-ok (some _) none body article_type subtype_id visibility m h = cc
content_of-ok (some _) (some _) body none subtype_id visibility m h = cc
content_of-ok (some _) (some _) body (some _) none visibility m h = cc
content_of-ok (some _) (some _) body (some _) (some _) none m h = cc
content_of-ok (some title) (some excerpt) body (some article_type) (some subtype_id)
      (some visibility) m h =
    let is : fields_of title excerpt body article_type subtype_id visibility ≡ m =
      some_same refl h in
    rw (← is) (refl, refl, refl, refl, refl, refl)

merged_content-IsMergedContent :
    (libs : Libs) (b c p : Content) (body : TextMerge) (m : Content)
    → body ≡ merge_text libs.matcher b.body_markdown c.body_markdown p.body_markdown
    → body.conflicts ≡ []
    → merged_content b c p body.text ≡ some m
    → IsMergedContent libs b c p m
unfolding merged_content
merged_content-IsMergedContent libs b c p body m is_body clean h =
    let (title, excerpt, text, article_type, subtype_id, visibility) =
      content_of-ok (merge_value same_list b.title c.title p.title)
        (merge_value opt_eq b.excerpt c.excerpt p.excerpt) body.text
        (merge_value same_number b.article_type c.article_type p.article_type)
        (merge_value opt_eq b.subtype_id c.subtype_id p.subtype_id)
        (merge_value same_visibility b.visibility c.visibility p.visibility) m h in
    record {
      title = merge_value-IsMerge same_list b.title c.title p.title m.title same_list→eq title;
      excerpt =
          merge_value-IsMerge opt_eq b.excerpt c.excerpt p.excerpt m.excerpt opt_eq→eq excerpt;
      article_type =
          merge_value-IsMerge same_number b.article_type c.article_type p.article_type
            m.article_type ==→eq article_type;
      subtype_id =
          merge_value-IsMerge opt_eq b.subtype_id c.subtype_id p.subtype_id m.subtype_id opt_eq→eq
            subtype_id;
      visibility =
          merge_value-IsMerge same_visibility b.visibility c.visibility p.visibility m.visibility
            same_visibility→eq visibility;
      body = sym is_body ∙ whole_merge body m.body_markdown text clean;
    }

merge_or_conflict-ok :
    (libs : Libs) (proposal_id : ℕ) (p : ArticleProposal) (version : ℕ) (s : Library) (m : Content)
    → merge_or_conflict libs proposal_id p version s ≡ ok m
    → (base current : ArticleRevision) × (s.revisions p.article_id p.base_version ≡ some base)
      × (s.revisions p.article_id version ≡ some current)
      × IsMergedContent libs base.content current.content p.content m
unfolding merge_or_conflict revision_or_missing merged_or_conflict
merge_or_conflict-ok libs proposal_id p version s m h =
    let (base, found, k1) =
      or_missing-ok (s.revisions p.article_id p.base_version)
        (revision_missing p.article_id p.base_version) _ h in
    let (current, found', k2) =
      or_missing-ok (s.revisions p.article_id version) (revision_missing p.article_id version) _
        k1 in
    let b : Content = base.content in
    let c : Content = current.content in
    let body : TextMerge =
      merge_text libs.matcher b.body_markdown c.body_markdown p.content.body_markdown in
    let (content, merged, k3) =
      or_missing-ok
        (if is_empty body.conflicts then merged_content b c p.content body.text else none)
        (proposal_conflict proposal_id (field_conflicts b c p.content) body.conflicts body.text) _
        k2 in
    let (_, k4) = then-ok (validate_subtype content.subtype_id content.article_type s) _ k3 in
    let is : content ≡ m = ok-injective k4 in
    let (clean, fields) =
      if_merged body.conflicts (merged_content b c p.content body.text) content merged in
    (
      base,
      current,
      found,
      found',
      subst (IsMergedContent libs b c p.content) is
          (merged_content-IsMergedContent libs b c p.content body content refl clean fields),
    )

pub accept_content-IsAcceptedContent :
    (libs : Libs) (proposal_id : ℕ) (p : ArticleProposal) (version : ℕ) (rebases : Bool)
    (read : Library) (content : Content) (onto_version : ℕ)
    → accept_content libs proposal_id p version rebases read ≡ ok (content, onto_version)
    → IsAcceptedContent libs p version rebases read content onto_version
unfolding accept_content
accept_content-IsAcceptedContent libs proposal_id p version false read content onto_version h =
    let is = ok-injective h in inl (inl refl, ap (λ t. t.0) (sym is), ap (λ t. t.1) (sym is))
accept_content-IsAcceptedContent libs proposal_id p version true read content onto_version h =
    elim (Bool-cases (version == p.base_version)) [
      | inl same ↦
          let is : ◌≡◌ {A = Content × ℕ} (p.content, p.base_version) (content, onto_version) =
            ok-injective {E = WriteError} (ground (arith, same, h)) in
          inl (
            inr (==→eq version p.base_version same),
            ap (λ t. t.0) (sym is),
            ap (λ t. t.1) (sym is),
          )
      | inr moved ↦
          let merging : (merge_or_conflict libs proposal_id p version read >>= λ c. ok (c, version))
              ≡ ok (content, onto_version) =
            ground (arith, moved, h) in
          let (m, merges, k) =
            bind-ok (merge_or_conflict libs proposal_id p version read) _ merging in
          let is : ◌≡◌ {A = Content × ℕ} (m, version) (content, onto_version) = ok-injective k in
          inr (
            refl,
            λ same. ground (arith, moved, eq→== version p.base_version same),
            ap (λ t. t.1) (sym is),
            merge_or_conflict-ok libs proposal_id p version read content
                (merges ∙ ap (λ t. ok (t.0)) is),
          )
    ]
