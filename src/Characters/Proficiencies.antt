-- ===== src/Characters/Proficiencies.antt =====
-- app/features/characters/proficiencies/resolver.py: from the claims of many sources to the
-- proficiencies that a character has.
pub mod Groups
pub mod Layers
use heofberu_backend.Prelude.{
  ℕ, Bool, true, false, not, ◌&&◌, ◌||◌, List, [], ◌∷◌, ◌++◌, Option, none, some, map, any, is_none,
  ◌==◌, if◌then◌else◌, opt_eq,
}
use heofberu_backend.Characters.Ability.{AbilityScore, same_ability}

-- the `(proficiency_type, *discriminator)` key; armor types and weapon categories are numbered
pub data ProficiencyKey : Type 0 where
  skill : ℕ → ProficiencyKey
  saving_throw : AbilityScore → ProficiencyKey
  armor : ℕ → ProficiencyKey
  weapon : Option ℕ → Option ℕ → ProficiencyKey

abbrev pub same_key : ProficiencyKey → ProficiencyKey → Bool
same_key (skill a) (skill b) = a == b
same_key (saving_throw a) (saving_throw b) = same_ability a b
same_key (armor a) (armor b) = a == b
same_key (weapon c i) (weapon c' i') = opt_eq c c' && opt_eq i i'
same_key _ _ = false

-- `ProficiencySourceType`
pub data SourceType : Type 0 where
  from_class from_class_choice from_race from_background : SourceType
  from_feature from_feature_choice from_gm : SourceType

abbrev pub is_gm_source : SourceType → Bool
is_gm_source from_gm = true
is_gm_source _ = false

pub record ProficiencySource : Type 0 where
  pub source_type : SourceType
  pub actor_user_id : Option ℕ
  pub feature_id : Option ℕ

-- `ProficiencyEntry`
pub record ProficiencyEntry : Type 0 where
  pub key : ProficiencyKey
  pub source : ProficiencySource
  pub is_expertise : Bool
  pub revoke : Bool
  pub gm_expertise : Option Bool

-- `CharacterProficiency`, with the key of its columns
pub record CharacterProficiency : Type 0 where
  pub key : ProficiencyKey
  pub source_type : SourceType
  pub actor_user_id : Option ℕ
  pub is_revoke_action : Bool
  pub is_expertise : Option Bool

abbrev pub truthy : Option Bool → Bool
truthy none = false
truthy (some b) = b

unfoldable pub row_entry : CharacterProficiency → ProficiencyEntry
row_entry row =
    let is_gm = is_gm_source row.source_type in
    let gm_grant = is_gm && not row.is_revoke_action in
    record {
      key = row.key;
      source = record {
        source_type = row.source_type;
        actor_user_id = row.actor_user_id;
        feature_id = none;
      };
      is_expertise = truthy row.is_expertise;
      revoke = is_gm && not gm_grant;
      gm_expertise = if gm_grant then row.is_expertise else none;
    }

-- `GrantEffects`, as far as the resolver reads it
pub record GrantEffects : Type 0 where
  pub skills : List (ℕ × Bool)
  pub saving_throws : List AbilityScore
  pub armor_types : List ℕ
  pub weapons : List (Option ℕ × Option ℕ)

unfoldable pub feature_source : ℕ → ProficiencySource
feature_source feature = record {
  source_type = from_feature;
  actor_user_id = none;
  feature_id = some feature;
}

abbrev pub granted : ℕ → ProficiencyKey → Bool → ProficiencyEntry
unfolding feature_source
granted feature key expertise = record {
  key = key;
  source = feature_source feature;
  is_expertise = expertise;
  revoke = false;
  gm_expertise = none;
}

unfoldable pub feature_entries : ℕ → GrantEffects → List ProficiencyEntry
feature_entries feature effects =
    map (λ s. granted feature (skill s.0) s.1) effects.skills
    ++ map (λ a. granted feature (saving_throw a) false) effects.saving_throws
    ++ map (λ a. granted feature (armor a) false) effects.armor_types
    ++ map (λ w. granted feature (weapon w.0 w.1) false) effects.weapons

pub record ResolvedProficiency : Type 0 where
  pub key : ProficiencyKey
  pub sources : List ProficiencySource
  pub is_expertise : Bool

-- the first explicit decision of a game master
unfoldable pub explicit_of : List ProficiencyEntry → Option Bool
explicit_of [] = none
explicit_of (e ∷ es) = elim e.gm_expertise [ none ↦ explicit_of es | some b ↦ some b ]

abbrev pub or_any : Option Bool → Bool → Bool
or_any none b = b
or_any (some explicit) _ = explicit

abbrev pub is_empty {ℓ} : {A : Type ℓ} → List A → Bool
is_empty [] = true
is_empty (_ ∷ _) = false

unfoldable pub resolve_group : ProficiencyKey → List ProficiencyEntry → Option ResolvedProficiency
unfolding explicit_of
resolve_group key group =
    if is_empty group || any (λ e. e.revoke) group
    then none
    else some (record {
      key = key;
      sources = map (λ e. e.source) group;
      is_expertise = or_any (explicit_of group) (any (λ e. e.is_expertise) group);
    })

-- `grouped[entry.key].append(entry)`: a dict keeps its keys in the order of their first entries
unfoldable pub add_entry :
    ProficiencyEntry
    → List (ProficiencyKey × List ProficiencyEntry)
    → List (ProficiencyKey × List ProficiencyEntry)
add_entry e [] = (e.key, e ∷ []) ∷ []
add_entry e ((k, g) ∷ gs) =
    let rest = add_entry e gs in if same_key e.key k then (k, g ++ e ∷ []) ∷ gs else (k, g) ∷ rest

unfoldable pub grouped_from :
    List (ProficiencyKey × List ProficiencyEntry)
    → List ProficiencyEntry
    → List (ProficiencyKey × List ProficiencyEntry)
unfolding add_entry
grouped_from gs [] = gs
grouped_from gs (e ∷ es) = grouped_from (add_entry e gs) es

-- the groups that resolve to a proficiency
unfoldable pub resolved_groups :
    List (ProficiencyKey × List ProficiencyEntry) → List ResolvedProficiency
unfolding resolve_group
resolved_groups [] = []
resolved_groups ((k, g) ∷ gs) =
    let rest = resolved_groups gs in elim (resolve_group k g) [ none ↦ rest | some r ↦ r ∷ rest ]

unfoldable pub resolve_all : List ProficiencyEntry → List ResolvedProficiency
unfolding grouped_from resolved_groups
resolve_all entries = resolved_groups (grouped_from [] entries)
