-- ===== src/Characters/Tests/Skills.antt =====
-- One skill from a class and a feature, under a decision of the game master.
use heofberu_backend.Prelude.{
  ◌≡◌, refl, Bool, true, false, not, List, [], ◌∷◌, ◌++◌, Option, none, some, is_some, any,
}
use heofberu_backend.Characters.Proficiencies.{
  ProficiencyKey, skill, armor, from_class, from_gm, ProficiencyEntry, CharacterProficiency,
  row_entry, explicit_of, resolve_group, resolve_all,
}
use heofberu_backend.Characters.Proficiencies.Groups.{entries_of, find_key, resolve_all-eq}
use heofberu_backend.Characters.Proficiencies.Layers.{has_expertise, row_entry-decides}

abbrev stealth : ProficiencyKey
stealth = skill 12

abbrev class_row : CharacterProficiency
class_row = record {
  key = stealth;
  source_type = from_class;
  actor_user_id = none;
  is_revoke_action = false;
  is_expertise = some true;
}

abbrev gm_row : CharacterProficiency
gm_row = record class_row {
  source_type = from_gm;
  actor_user_id = some 1;
  is_expertise = some false;
}

abbrev claims : List ProficiencyEntry
claims =
    row_entry class_row ∷ row_entry (record class_row { key = armor 2 }) ∷ row_entry gm_row ∷ []

resolve_all-eq_example :
    find_key stealth (resolve_all claims) ≡ resolve_group stealth (entries_of stealth claims)
resolve_all-eq_example = resolve_all-eq stealth claims

calm : any (λ e. e.revoke) (row_entry class_row ∷ []) ≡ false
unfolding row_entry
calm = refl

open_to_all : explicit_of (row_entry class_row ∷ []) ≡ none
unfolding row_entry explicit_of
open_to_all = refl

row_entry-decides_example :
    (is_some (resolve_group stealth ((row_entry class_row ∷ []) ++ row_entry gm_row ∷ []))
      ≡ not false)
    × (false ≡ false
        → (b : Bool) → ◌≡◌ {A = Option Bool} (some false) (some b)
        → has_expertise
            (resolve_group stealth ((row_entry class_row ∷ []) ++ row_entry gm_row ∷ []))
          ≡ b)
row_entry-decides_example =
    row_entry-decides stealth gm_row (row_entry class_row ∷ []) [] refl calm refl open_to_all
