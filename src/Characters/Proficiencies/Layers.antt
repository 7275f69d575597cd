-- ===== src/Characters/Proficiencies/Layers.antt =====
-- The layer of the game master over the other sources of one proficiency.
use heofberu_backend.Prelude.{
  ◌≡◌, refl, Bool, false, not, ◌||◌, List, [], ◌∷◌, ◌++◌, Option, none, some, any, is_some, arith,
}
use heofberu_backend.Characters.Proficiencies.{
  ProficiencyKey, from_gm, ProficiencyEntry, CharacterProficiency, row_entry, ResolvedProficiency,
  explicit_of, is_empty, resolve_group,
}

abbrev pub has_expertise : Option ResolvedProficiency → Bool
has_expertise none = false
has_expertise (some r) = r.is_expertise

any-append :
    {A : Type 0} (p : A → Bool) (xs ys : List A) → any p (xs ++ ys) ≡ (any p xs || any p ys)
any-append p [] ys = refl
any-append p (x ∷ xs) ys = ground (arith, any-append p xs ys)

explicit_of-append :
    (es fs : List ProficiencyEntry)
    → explicit_of es ≡ none
    → explicit_of (es ++ fs) ≡ explicit_of fs
unfolding explicit_of
explicit_of-append [] fs h = refl
explicit_of-append (e ∷ es) fs h = ground (arith, explicit_of-append es fs)

is_empty-append : {A : Type 0} (xs : List A) (y : A) (ys : List A) → is_empty (xs ++ y ∷ ys) ≡ false
is_empty-append [] y ys = refl
is_empty-append (x ∷ xs) y ys = refl

-- A row of the game master, put among entries that hold no revocation and with no decision on
-- expertise by a game master before it, decides alone: a revocation takes the proficiency away, a
-- grant gives it whatever the other sources say, and a grant with an explicit expertise sets the
-- expertise, to clear it too.
pub row_entry-decides :
    (key : ProficiencyKey) (row : CharacterProficiency) (before after : List ProficiencyEntry)
    → row.source_type ≡ from_gm
    → any (λ e. e.revoke) before ≡ false
    → any (λ e. e.revoke) after ≡ false
    → explicit_of before ≡ none
    → (is_some (resolve_group key (before ++ row_entry row ∷ after)) ≡ not row.is_revoke_action)
      × (row.is_revoke_action ≡ false
          → (b : Bool) → row.is_expertise ≡ some b
          → has_expertise (resolve_group key (before ++ row_entry row ∷ after)) ≡ b)
unfolding resolve_group row_entry explicit_of
row_entry-decides key row before after gm calm quiet open_ =
    let revokes = any-append (λ e. e.revoke) before (row_entry row ∷ after) in
    let explicit = explicit_of-append before (row_entry row ∷ after) open_ in
    let present = is_empty-append before (row_entry row) after in
    (
      ground (arith, revokes, present, calm, quiet, gm),
      λ grant b e. ground (arith, revokes, explicit, present, calm, quiet, gm, grant, e),
    )
